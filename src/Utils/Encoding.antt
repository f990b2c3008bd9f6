-- ===== src/Utils/Encoding.antt =====
-- tasklite/utils/encoding.py: the file name of a job. A Python `str` is a native text.
use Prim.Native.Char.{code}
use tasklite.Common.{ℕ, String, List, [], ◌∷◌, ◌==◌, eq_nat, if◌then◌else◌, ◌⧺◌}

-- `FS_ESCAPE_CHARS`, as code points, in the order of the dict.
abbrev pub fs_escape_chars : List (ℕ × String)
fs_escape_chars =
    (b'/', "%2F")
    ∷ (b'\\', "%5C")
    ∷ (0, "%00")
    ∷ (b'*', "%2A")
    ∷ (b'?', "%3F")
    ∷ (b'[', "%5B")
    ∷ (b']', "%5D")
    ∷ (b':', "%3A")
    ∷ []

-- `text.replace(ch, enc)` at a text of one character.
replace_char : ℕ → String → String → String
replace_char ch enc String.[] = String.[]
replace_char ch enc (String.◌∷◌ c s) =
    let rest = replace_char ch enc s in if code c == ch then enc ⧺ rest else String.◌∷◌ c rest

replace_all : List (ℕ × String) → String → String
replace_all [] text = text
replace_all ((ch, enc) ∷ more) text = replace_all more (replace_char ch enc text)

unfoldable pub encode_job_uid_filename : String → String
unfolding replace_char replace_all
encode_job_uid_filename uid = replace_all fs_escape_chars (replace_char b'%' "%25" uid)
