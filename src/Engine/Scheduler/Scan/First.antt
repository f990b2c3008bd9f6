-- ===== src/Engine/Scheduler/Scan/First.antt =====
-- Which row `scan_next_runnable` chooses.
use tasklite.Common.{
  ℕ, ◌<◌, String, Bool, true, false, not, ◌≡◌, ◌⊎◌, inl, inr, refl, sym, ◌∙◌, ap, subst, Option,
  none, some, List, [], ◌∷◌, ◌++◌, every, length, get_elem?, get_elem?_within, Option-cases,
  Bool-cases, eq_string,
}
use tasklite.Models.Job.{JobSnapshot, RowHash}
use tasklite.Models.State.{PipelineState}
use tasklite.Selection.{Rule}
use tasklite.Engine.Resource.{ResourceManager}
use tasklite.Engine.Scheduler.{
  from_job_snapshot, nothing, runnable, dep_failed, ScheduleResult, View, Verdict, malformed,
  deselected, waiting, unknown_resource, impossible_resource, blocked, runs, failed_on,
  misses_dependency, waits, assess,
}
use tasklite.Engine.Scheduler.Scan.{
  Scan, nothing_found, note, is_runs, row_uid, scan_rows, view, conclude, scan_next_runnable,
}

-- The verdict on the row at an index, if there is one.
abbrev pub verdict_at : (ℕ → String → ℕ) → View → List JobSnapshot → ℕ → Option Verdict
verdict_at clock v queue i = elim (get_elem? queue i) [
  | none ↦ none
  | some row ↦ some (assess (clock i) v (from_job_snapshot row))
]

abbrev pub runs_at : (ℕ → String → ℕ) → View → List JobSnapshot → ℕ → Bool
runs_at clock v queue i = elim (get_elem? queue i) [
  | none ↦ false
  | some row ↦ is_runs (assess (clock i) v (from_job_snapshot row))
]

-- Every index that the policy visits is one of the queue.
abbrev pub AreWithin : List ℕ → List JobSnapshot → Type 0
AreWithin [] queue = Unit {0}
AreWithin (i ∷ order) queue = (i < length queue) × AreWithin order queue

-- The first row of the order that can run is `found`, or none of them can.
abbrev pub IsFirst : (ℕ → String → ℕ) → View → List JobSnapshot → List ℕ → Option ℕ → Type 0
IsFirst clock v queue order none = every (λ i. not (runs_at clock v queue i)) order ≡ true
IsFirst clock v queue order (some i) =
    (before : List ℕ) × (after : List ℕ) × (order ≡ before ++ i ∷ after)
    × (every (λ j. not (runs_at clock v queue j)) before ≡ true)
    × (runs_at clock v queue i ≡ true)

IsFirst-cons :
    (clock : ℕ → String → ℕ) (v : View) (queue : List JobSnapshot) (i : ℕ) (order : List ℕ)
    (found : Option ℕ)
    → runs_at clock v queue i ≡ false
    → IsFirst clock v queue order found
    → IsFirst clock v queue (i ∷ order) found
unfolding every
IsFirst-cons clock v queue i order none h k = rw (h, k) refl
IsFirst-cons clock v queue i order (some j) h (before, after, split, over, here) =
    (i ∷ before, after, ap (λ is. i ∷ is) split, rw (h, over) refl, here)

module _ ⦃h : RowHash⦄ where
  scan_rows-IsFirst :
      (clock : ℕ → String → ℕ) (v : View) (queue : List JobSnapshot) (order : List ℕ) (s : Scan)
      → AreWithin order queue
      → (found : Option ℕ) × (s' : Scan) × (scan_rows clock v queue order s ≡ some (found, s'))
        × IsFirst clock v queue order found
  unfolding scan_rows every
  scan_rows-IsFirst clock v queue [] s within = (none, s, refl, refl)
  scan_rows-IsFirst clock v queue (i ∷ order) s within =
      let (row, e) = get_elem?_within queue i within.0 in
      let verdict = assess (clock i) v (from_job_snapshot row) in
      elim (Bool-cases (is_runs verdict)) [
        | inl ok ↦ (
          some i,
          note verdict i (row_uid row (from_job_snapshot row)) s,
          rw (e, scan_rows, ok) refl,
          ([], order, refl, refl, rw (e, runs_at, ok) refl),
        )
        | inr bad ↦
            let (found, s', eq, first) =
              scan_rows-IsFirst clock v queue order
                (note verdict i (row_uid row (from_job_snapshot row)) s) within.1 in
            (
              found,
              s',
              rw (e, scan_rows, bad) eq,
              IsFirst-cons clock v queue i order found (rw (e, runs_at, bad) refl) first,
            )
      ]

  -- The row that a finding names as the first one with a failed dependency.
  abbrev pub IsBlamed : (ℕ → String → ℕ) → View → List JobSnapshot → Option (ℕ × String) → Type 0
  IsBlamed clock v queue none = Unit {0}
  IsBlamed clock v queue (some (i, dep)) =
      (row : JobSnapshot) × (get_elem? queue i ≡ some row)
      × (assess (clock i) v (from_job_snapshot row) ≡ failed_on dep)

  note-IsBlamed :
      (clock : ℕ → String → ℕ) (v : View) (queue : List JobSnapshot) (i : ℕ) (uid : String)
      (x : Verdict) (s : Scan) {row : JobSnapshot}
      → get_elem? queue i ≡ some row
      → assess (clock i) v (from_job_snapshot row) ≡ x
      → IsBlamed clock v queue s.first_dep_failed
      → IsBlamed clock v queue (note x i uid s).first_dep_failed
  unfolding note
  note-IsBlamed clock v queue i uid (failed_on dep) s {row} e judged h =
      elim (Option-cases s.first_dep_failed) [
        | inl first ↦ rw (first, note) (row, e, judged)
        | inr (found, earlier) ↦ rw (earlier, note) (subst (IsBlamed clock v queue) earlier h)
      ]
  note-IsBlamed clock v queue i uid malformed s e judged h = h
  note-IsBlamed clock v queue i uid deselected s e judged h = h
  note-IsBlamed clock v queue i uid waiting s e judged h = h
  note-IsBlamed clock v queue i uid unknown_resource s e judged h = h
  note-IsBlamed clock v queue i uid impossible_resource s e judged h = h
  note-IsBlamed clock v queue i uid blocked s e judged h = h
  note-IsBlamed clock v queue i uid runs s e judged h = h
  note-IsBlamed clock v queue i uid misses_dependency s e judged h = h
  note-IsBlamed clock v queue i uid (waits t) s e judged h = h

  scan_rows-IsBlamed :
      (clock : ℕ → String → ℕ) (v : View) (queue : List JobSnapshot) (order : List ℕ) (s : Scan)
      {found : Option ℕ} {s' : Scan}
      → IsBlamed clock v queue s.first_dep_failed
      → scan_rows clock v queue order s ≡ some (found, s')
      → IsBlamed clock v queue s'.first_dep_failed
  unfolding scan_rows
  scan_rows-IsBlamed clock v queue [] s {found} {s'} h eq =
      let same : s ≡ s' = cc in subst (λ x. IsBlamed clock v queue x.first_dep_failed) same h
  scan_rows-IsBlamed clock v queue (i ∷ order) s {found} {s'} h eq =
      elim (Option-cases (get_elem? queue i)) [
        | inl beyond ↦
            let raised : scan_rows clock v queue (i ∷ order) s ≡ none =
              rw (beyond, scan_rows) refl in
            cc
        | inr (row, e) ↦
            let x = assess (clock i) v (from_job_snapshot row) in
            let uid = row_uid row (from_job_snapshot row) in
            let step : IsBlamed clock v queue (note x i uid s).first_dep_failed =
              note-IsBlamed clock v queue i uid x s {row = row} e refl h in
            elim (Bool-cases (is_runs x)) [
              | inl ok ↦
                  let stop : scan_rows clock v queue (i ∷ order) s ≡ some (some i, note x i uid s) =
                    rw (e, scan_rows, ok) refl in
                  let same : note x i uid s ≡ s' = cc in
                  subst (λ x. IsBlamed clock v queue x.first_dep_failed) same step
              | inr bad ↦
                  let on : scan_rows clock v queue (i ∷ order) s
                      ≡ scan_rows clock v queue order (note x i uid s) =
                    rw (e, scan_rows, bad) refl in
                  scan_rows-IsBlamed clock v queue order (note x i uid s) {found = found} {s' = s'}
                    step (sym on ∙ eq)
            ]
      ]

  -- What a result says of the queue that was scanned in an order.
  abbrev pub IsChoice :
      (ℕ → String → ℕ) → View → List JobSnapshot → List ℕ → ScheduleResult → Type 0
  IsChoice clock v queue order r =
      ((i : ℕ) × (r.kind ≡ runnable)
        × (r.runnable_idx ≡ some i)
        × (r.pending_dep_failure ≡ none)
        × IsFirst clock v queue order (some i))
      ⊎ (IsFirst clock v queue order none
          × (((r.kind ≡ nothing) × (r.runnable_idx ≡ none))
              ⊎ ((i : ℕ) × (dep : String) × (r.kind ≡ dep_failed)
                  × (r.runnable_idx ≡ some i)
                  × (r.pending_dep_failure ≡ some dep)
                  × IsBlamed clock v queue (some (i, dep)))))

  conclude-IsChoice :
      (clock : ℕ → String → ℕ) (v : View) (queue : List JobSnapshot) (order : List ℕ)
      (found : Option ℕ) (s : Scan)
      → IsFirst clock v queue order found
      → IsBlamed clock v queue s.first_dep_failed
      → IsChoice clock v queue order (conclude queue found s)
  unfolding conclude
  conclude-IsChoice clock v queue order (some i) s first blamed = inl (i, refl, refl, refl, first)
  conclude-IsChoice clock v queue order none s first blamed =
      elim (Option-cases s.first_dep_failed) [
        | inl e ↦ inr (first, inl (rw (e, conclude) refl, rw (e, conclude) refl))
        | inr ((i, dep), e) ↦ inr (
          first,
          inr (
            i,
            dep,
            rw (e, conclude) refl,
            rw (e, conclude) refl,
            rw (e, conclude) refl,
            subst (IsBlamed clock v queue) e blamed,
          ),
        )
      ]

  -- For every ordering policy that visits indices of the queue only, the scan raises nothing. It
  -- returns the first index of the order whose row can run, if there is one. Otherwise no row of the
  -- order can run, and it returns either no candidate or a row that failed on the dependency named.
  pub scan_next_runnable_first :
      (clock : ℕ → String → ℕ) (manager : ResourceManager) (rules : List Rule) (order : List ℕ)
      (state : PipelineState) (in_flight : List String)
      → AreWithin order state.queue
      → (r : ScheduleResult) × (scan_next_runnable clock manager rules order state in_flight
          ≡ some r)
        × IsChoice clock (view state in_flight rules manager) state.queue order r
  unfolding scan_next_runnable
  scan_next_runnable_first clock manager rules order state in_flight within =
      let v = view state in_flight rules manager in
      let (found, s, eq, first) =
        scan_rows-IsFirst clock v state.queue order nothing_found within in
      (
        conclude state.queue found s,
        rw eq refl,
        conclude-IsChoice clock v state.queue order found s first (
            scan_rows-IsBlamed clock v state.queue order nothing_found {found = found} {s' = s} tt
              eq),
      )
