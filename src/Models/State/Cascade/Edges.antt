-- ===== src/Models/State/Cascade/Edges.antt =====
-- The index of `_build_dependents` of tasklite/models/state.py.
use tasklite.Common.{
  String, Bool, true, false, ◌&&◌, ◌||◌, ◌≡◌, ◌≤◌, refl, Option-cases, inl, inr, none, some, List,
  [], ◌∷◌, lookup, insert, contains, add, exists, lookup-insert, contains-add, length, eq_string,
  ==_iff, arith, ◌==◌, if◌then◌else◌,
}
use tasklite.Models.Job.{JobSnapshot, from_dict, uid}
use tasklite.Models.State.Cascade.{
  Dependents, downstream, add_dependents, add_row, build_dependents,
}

-- The row is a job `v` that waits for `u`.
unfoldable pub row_waits : String → String → JobSnapshot → Bool
row_waits u v row = elim (from_dict row) [
  | none ↦ false
  | some job ↦ uid job == v && contains u job.depends_on
]

downstream-insert :
    (u d : String) (vs : List String) (deps : Dependents)
    → downstream u (insert d vs deps) ≡ (if d == u then vs else downstream u deps)
unfolding downstream
downstream-insert u d vs deps = ground (arith, lookup-insert u d vs deps)

downstream_nil : (u v : String) → contains v (downstream u []) ≡ false
unfolding downstream lookup contains
downstream_nil u v = refl

contains-add_dependents :
    (u v j : String) (ds : List String) (deps : Dependents)
    → contains v (downstream u (add_dependents j ds deps))
      ≡ ((j == v && contains u ds) || contains v (downstream u deps))
unfolding add_dependents contains
contains-add_dependents u v j [] deps = ground arith
contains-add_dependents u v j (d ∷ ds) deps =
    let js = add j (downstream d deps) in
    ground (
      arith,
      contains-add_dependents u v j ds (insert d js deps),
      downstream-insert u d js deps,
      contains-add v j (downstream d deps),
      ==_iff d u,
    )

contains-add_row :
    (u v : String) (row : JobSnapshot) (deps : Dependents)
    → contains v (downstream u (add_row row deps))
      ≡ (row_waits u v row || contains v (downstream u deps))
unfolding add_row row_waits
contains-add_row u v row deps = elim (Option-cases (from_dict row)) [
  | inl e ↦ rw (e, add_row, row_waits)
  | inr (job, e) ↦
      rw (e, add_row, row_waits) (contains-add_dependents u v (uid job) job.depends_on deps)
]

contains-build :
    (u v : String) (rows : List JobSnapshot) (deps : Dependents)
    → contains v (downstream u (build_dependents rows deps))
      ≡ (exists (row_waits u v) rows || contains v (downstream u deps))
unfolding build_dependents exists
contains-build u v [] deps = refl
contains-build u v (row ∷ rows) deps =
    ground (arith, contains-build u v rows (add_row row deps), contains-add_row u v row deps)

pub contains-build_dependents :
    (u v : String) (rows : List JobSnapshot)
    → contains v (downstream u (build_dependents rows [])) ≡ exists (row_waits u v) rows
contains-build_dependents u v rows = ground (arith, contains-build u v rows [], downstream_nil u v)

-- The uids of the rows that parse: what the index can name.
pub parsed_uids : List JobSnapshot → List String
parsed_uids [] = []
parsed_uids (row ∷ rows) =
    let rest = parsed_uids rows in elim (from_dict row) [ none ↦ rest | some job ↦ uid job ∷ rest ]

pub length-parsed_uids-le : (rows : List JobSnapshot) → length (parsed_uids rows) ≤ length rows
unfolding parsed_uids
length-parsed_uids-le [] = omega arith
length-parsed_uids-le (row ∷ rows) = ground (arith, length-parsed_uids-le rows)

pub contains-parsed_uids :
    (u v : String) (rows : List JobSnapshot)
    → exists (row_waits u v) rows ≡ true
    → contains v (parsed_uids rows) ≡ true
unfolding parsed_uids exists contains row_waits
contains-parsed_uids u v [] h = cc
contains-parsed_uids u v (row ∷ rows) h = elim (Option-cases (from_dict row)) [
  | inl e ↦ rw (e, parsed_uids) (contains-parsed_uids u v rows (rw (e, row_waits) at h))
  | inr (job, e) ↦
      let h' = rw (e, row_waits) at h in
      rw (e, parsed_uids) (ground (arith, contains-parsed_uids u v rows))
]
