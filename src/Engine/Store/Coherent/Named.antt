-- ===== src/Engine/Store/Coherent/Named.antt =====
-- tasklite/engine/store.py: the rows of a queue that `handle_bulk_failure_strike` counts on.
use tasklite.Common.{
  String, true, ◌≡◌, refl, inl, inr, some, List, [], ◌∷◌, contains, eq_string, Bool-cases, arith,
  ◌==◌, ==_iff, keep,
}
use tasklite.Models.Job.{JobSnapshot, RuntimeDict, Field, RowHash, job_uid_from_snapshot}
use tasklite.Models.State.{row_uids, rows_without}
use tasklite.Engine.Store.Strikes.{first_match, write_first}

module _ ⦃h : RowHash⦄ where
  -- A row whose uid does not hang on its runtime: one that has a task type and a job id.
  abbrev pub IsNamed : JobSnapshot → Type 0
  IsNamed row =
      (runtime : Field RuntimeDict)
      → job_uid_from_snapshot (record row { runtime = runtime }) ≡ job_uid_from_snapshot row

  abbrev pub AreNamed : List JobSnapshot → Type 0
  AreNamed [] = Unit {0}
  AreNamed (row ∷ rows) = IsNamed row × AreNamed rows

  pub first_match_found :
      (u : String) (queue : List JobSnapshot)
      → contains u (row_uids queue) ≡ true
      → AreNamed queue
      → (row : JobSnapshot) × (first_match u queue ≡ some row)
        × (job_uid_from_snapshot row ≡ u)
        × IsNamed row
  unfolding first_match row_uids contains
  first_match_found u [] there named = cc
  first_match_found u (row ∷ rows) there named =
      elim (Bool-cases (job_uid_from_snapshot row == u)) [
        | inl e ↦ (row, rw e refl, (==_iff (job_uid_from_snapshot row) u).0 e, named.0)
        | inr e ↦
            let (found, p, q, r) = first_match_found u rows (ground arith) named.1 in
            (found, rw e p, q, r)
      ]

  pub row_uids-write_first :
      (u : String) (new : JobSnapshot) (queue : List JobSnapshot)
      → job_uid_from_snapshot new ≡ u
      → row_uids (write_first u new queue) ≡ row_uids queue
  unfolding write_first row_uids
  row_uids-write_first u new [] e = refl
  row_uids-write_first u new (row ∷ rows) e =
      ground (arith, row_uids-write_first u new rows e, ==_iff (job_uid_from_snapshot row) u)

  pub write_first-AreNamed :
      (u : String) (new : JobSnapshot) (queue : List JobSnapshot)
      → IsNamed new
      → AreNamed queue
      → AreNamed (write_first u new queue)
  unfolding write_first
  write_first-AreNamed u new [] ok named = tt
  write_first-AreNamed u new (row ∷ rows) ok named =
      elim (Bool-cases (job_uid_from_snapshot row == u)) [
        | inl e ↦ rw e (ok, named.1)
        | inr e ↦ rw e (named.0, write_first-AreNamed u new rows ok named.1)
      ]

  pub rows_without-AreNamed :
      (u : String) (queue : List JobSnapshot) → AreNamed queue → AreNamed (rows_without u queue)
  unfolding rows_without keep
  rows_without-AreNamed u [] named = tt
  rows_without-AreNamed u (row ∷ rows) named = elim (Bool-cases (job_uid_from_snapshot row == u)) [
    | inl e ↦ rw e (rows_without-AreNamed u rows named.1)
    | inr e ↦ rw e (named.0, rows_without-AreNamed u rows named.1)
  ]
