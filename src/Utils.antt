-- ===== src/Utils.antt =====
-- tasklite/utils: helpers without state.
pub mod Encoding
