-- ===== src/Backend/Memory/Batches.antt =====
-- The batches of rows that tasklite/backend/memory.py takes in.
use tasklite.Common.{
  String, true, false, not, ◌&&◌, ◌||◌, ◌≡◌, refl, List, [], ◌∷◌, contains, add, keep, IsDistinct,
  contains-add, map-keep, eq_string, ==_iff, arith,
}
use tasklite.Models.Job.{JobSnapshot, RowHash, job_uid_from_snapshot}
use tasklite.Models.State.{row_uids}
use tasklite.Backend.Memory.{spawn_conflict, fresh_rows, dedup_copy, rows_outside}

module _ ⦃h : RowHash⦄ where
  pub row_uids-rows_outside :
      (uids : List String) (rows : List JobSnapshot)
      → row_uids (rows_outside uids rows) ≡ keep (λ u. not (contains u uids)) (row_uids rows)
  unfolding row_uids rows_outside
  row_uids-rows_outside uids rows = map-keep job_uid_from_snapshot (λ u. not (contains u uids)) rows

  -- No conflict: the batch is new to the queue and to `seen`.
  pub spawn_conflict-members :
      (remaining seen : List String) (rows : List JobSnapshot) (u : String)
      → spawn_conflict remaining seen rows ≡ false
      → contains u (row_uids rows) ≡ true
      → (contains u remaining || contains u seen) ≡ false
  unfolding spawn_conflict row_uids contains
  spawn_conflict-members remaining seen [] u ok m = cc
  spawn_conflict-members remaining seen (row ∷ rows) u ok m =
      let v = job_uid_from_snapshot row in
      ground (
        arith,
        ==_iff v u,
        contains-add u v seen,
        spawn_conflict-members remaining (add v seen) rows u,
      )

  pub spawn_conflict-IsDistinct :
      (remaining seen : List String) (rows : List JobSnapshot)
      → spawn_conflict remaining seen rows ≡ false
      → IsDistinct (row_uids rows)
  unfolding spawn_conflict row_uids
  spawn_conflict-IsDistinct remaining seen [] ok = tt
  spawn_conflict-IsDistinct remaining seen (row ∷ rows) ok =
      let v = job_uid_from_snapshot row in
      let rest : spawn_conflict remaining (add v seen) rows ≡ false = ground arith in
      (
        ground (
          arith,
          ==_iff v v,
          contains-add v v seen,
          spawn_conflict-members remaining (add v seen) rows v rest,
        ),
        spawn_conflict-IsDistinct remaining (add v seen) rows rest,
      )

  pub fresh_rows-members :
      (existing seen : List String) (rows : List JobSnapshot) (u : String)
      → contains u (row_uids (fresh_rows existing seen rows)) ≡ true
      → (contains u existing || contains u seen) ≡ false
  unfolding fresh_rows row_uids contains
  fresh_rows-members existing seen [] u m = cc
  fresh_rows-members existing seen (row ∷ rows) u m =
      let v = job_uid_from_snapshot row in
      ground (
        arith,
        ==_iff v u,
        contains-add u v seen,
        fresh_rows-members existing seen rows u,
        fresh_rows-members existing (add v seen) rows u,
      )

  pub fresh_rows-IsDistinct :
      (existing seen : List String) (rows : List JobSnapshot)
      → IsDistinct (row_uids (fresh_rows existing seen rows))
  unfolding fresh_rows row_uids
  fresh_rows-IsDistinct existing seen [] = tt
  fresh_rows-IsDistinct existing seen (row ∷ rows) =
      let v = job_uid_from_snapshot row in
      ground (
        arith,
        ==_iff v v,
        contains-add v v seen,
        fresh_rows-members existing (add v seen) rows v,
        fresh_rows-IsDistinct existing seen rows,
        fresh_rows-IsDistinct existing (add v seen) rows,
      )

  pub dedup_copy-members :
      (seen : List String) (rows : List JobSnapshot) (u : String)
      → contains u (row_uids (dedup_copy seen rows))
        ≡ (contains u (row_uids rows) && not (contains u seen))
  unfolding dedup_copy row_uids contains
  dedup_copy-members seen [] u = refl
  dedup_copy-members seen (row ∷ rows) u =
      let v = job_uid_from_snapshot row in
      ground (
        arith,
        ==_iff v u,
        contains-add u v seen,
        dedup_copy-members seen rows u,
        dedup_copy-members (add v seen) rows u,
      )

  pub dedup_copy-IsDistinct :
      (seen : List String) (rows : List JobSnapshot) → IsDistinct (row_uids (dedup_copy seen rows))
  unfolding dedup_copy row_uids
  dedup_copy-IsDistinct seen [] = tt
  dedup_copy-IsDistinct seen (row ∷ rows) =
      let v = job_uid_from_snapshot row in
      ground (
        arith,
        ==_iff v v,
        contains-add v v seen,
        dedup_copy-members (add v seen) rows v,
        dedup_copy-IsDistinct seen rows,
        dedup_copy-IsDistinct (add v seen) rows,
      )
