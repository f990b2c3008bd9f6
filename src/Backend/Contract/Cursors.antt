-- ===== src/Backend/Contract/Cursors.antt =====
-- The updates of cursors: tasklite/backend/memory.py writes and then deletes, and
-- tasklite/models/state.py goes through the updates once. Both do what `cursor_after` says.
use tasklite.Common.{
  String, true, false, ◌≡◌, refl, ◌∙◌, sym, Option, none, some, List, [], ◌∷◌, Dict, lookup, insert,
  erase, keys, contains, IsDistinct, eq_string, ◌==◌, ==_iff, lookup-insert, lookup-erase,
  contains-keys, has_when_found, Option-cases, Bool-cases, inl, inr,
}
use tasklite.Models.State.{merge_cursors}
use tasklite.Backend.Memory.{set_cursors, drop_cursors}
use tasklite.Backend.Contract.{cursor_after}

-- What the loop that writes leaves, and what the loop that deletes leaves.
abbrev set_after : Option (Option String) → Option String → Option String
set_after (some (some x)) old = some x
set_after _ old = old

abbrev drop_after : Option (Option String) → Option String → Option String
drop_after (some none) old = none
drop_after _ old = old

module _ (u : String) (more : List (String × Option String))
    (new : contains u (keys more) ≡ false) where
  not_repeated : lookup u more ≡ none
  not_repeated = elim (Option-cases (lookup u more)) [
    | inl e ↦ e
    | inr (w, e) ↦
        let there : contains u (keys more) ≡ true =
          contains-keys u more ∙ has_when_found u {v = w} more e in
        cc
  ]

lookup-set_cursors :
    (v : String) (updates : List (String × Option String)) (cursors : Dict String String)
    → IsDistinct (keys updates)
    → lookup v (set_cursors updates cursors) ≡ set_after (lookup v updates) (lookup v cursors)
unfolding set_cursors lookup keys
lookup-set_cursors v [] cursors d = refl
lookup-set_cursors v ((u, none) ∷ more) cursors d = elim (Bool-cases (u == v)) [
  | inl e ↦
      let same = (==_iff u v).0 e in
      rw (lookup-set_cursors v more cursors d.1)
        (rw e (rw (sym same) (rw (not_repeated u more d.0) refl)))
  | inr e ↦ rw e (lookup-set_cursors v more cursors d.1)
]
lookup-set_cursors v ((u, some x) ∷ more) cursors d = elim (Bool-cases (u == v)) [
  | inl e ↦
      let same = (==_iff u v).0 e in
      rw (lookup-set_cursors v more (insert u x cursors) d.1)
        (rw lookup-insert (rw e (rw (sym same) (rw (not_repeated u more d.0) refl))))
  | inr e ↦ rw (lookup-set_cursors v more (insert u x cursors) d.1) (rw lookup-insert (rw e refl))
]

lookup-drop_cursors :
    (v : String) (updates : List (String × Option String)) (cursors : Dict String String)
    → IsDistinct (keys updates)
    → lookup v (drop_cursors updates cursors) ≡ drop_after (lookup v updates) (lookup v cursors)
unfolding drop_cursors lookup keys
lookup-drop_cursors v [] cursors d = refl
lookup-drop_cursors v ((u, some x) ∷ more) cursors d = elim (Bool-cases (u == v)) [
  | inl e ↦
      let same = (==_iff u v).0 e in
      rw (lookup-drop_cursors v more cursors d.1)
        (rw e (rw (sym same) (rw (not_repeated u more d.0) refl)))
  | inr e ↦ rw e (lookup-drop_cursors v more cursors d.1)
]
lookup-drop_cursors v ((u, none) ∷ more) cursors d = elim (Bool-cases (u == v)) [
  | inl e ↦
      let same = (==_iff u v).0 e in
      rw (lookup-drop_cursors v more (erase u cursors) d.1)
        (rw lookup-erase (rw e (rw (sym same) (rw (not_repeated u more d.0) refl))))
  | inr e ↦ rw (lookup-drop_cursors v more (erase u cursors) d.1) (rw lookup-erase (rw e refl))
]

both_loops :
    (new : Option (Option String)) (old : Option String)
    → drop_after new (set_after new old) ≡ cursor_after new old
both_loops none old = refl
both_loops (some none) old = refl
both_loops (some (some x)) old = refl

pub drop_cursors-set_cursors :
    (v : String) (updates : List (String × Option String)) (cursors : Dict String String)
    → IsDistinct (keys updates)
    → lookup v (drop_cursors updates (set_cursors updates cursors))
      ≡ cursor_after (lookup v updates) (lookup v cursors)
drop_cursors-set_cursors v updates cursors d =
    rw (lookup-drop_cursors v updates (set_cursors updates cursors) d) (
      rw (lookup-set_cursors v updates cursors d)
        (both_loops (lookup v updates) (lookup v cursors)))

pub lookup-merge_cursors :
    (v : String) (updates : List (String × Option String)) (cursors : Dict String String)
    → IsDistinct (keys updates)
    → lookup v (merge_cursors updates cursors) ≡ cursor_after (lookup v updates) (lookup v cursors)
unfolding merge_cursors lookup keys
lookup-merge_cursors v [] cursors d = refl
lookup-merge_cursors v ((u, none) ∷ more) cursors d = elim (Bool-cases (u == v)) [
  | inl e ↦
      let same = (==_iff u v).0 e in
      rw (lookup-merge_cursors v more (erase u cursors) d.1)
        (rw lookup-erase (rw e (rw (sym same) (rw (not_repeated u more d.0) refl))))
  | inr e ↦ rw (lookup-merge_cursors v more (erase u cursors) d.1) (rw lookup-erase (rw e refl))
]
lookup-merge_cursors v ((u, some x) ∷ more) cursors d = elim (Bool-cases (u == v)) [
  | inl e ↦
      let same = (==_iff u v).0 e in
      rw (lookup-merge_cursors v more (insert u x cursors) d.1)
        (rw lookup-insert (rw e (rw (sym same) (rw (not_repeated u more d.0) refl))))
  | inr e ↦ rw (lookup-merge_cursors v more (insert u x cursors) d.1) (rw lookup-insert (rw e refl))
]
