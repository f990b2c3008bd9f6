-- ===== src/Models/Job/RoundTrip.antt =====
-- tasklite/models/job.py: `Job.to_dict`, and reading back what it writes.
use tasklite.Common.{
  ap, ◌∙◌, sym, eq_nat, ◌==◌, ==_iff, Bool-cases, ℕ, String, Bool, false, ◌≡◌, refl, subst, Option,
  none, some, List, [], ◌∷◌, map, eq_string, arith, Option-cases, inl, inr,
}
use tasklite.Models.Job.{
  uid_text, Field, absent, null, value, mistyped, Number, finite, pos, ℤ, Job, JobSnapshot,
  read_runtime, JobRuntimeState, read_count, read_text, write_count, write_text, read_state,
  write_state, negsuc, from_dict, ◌>>=◌, ◌>>◌, forbid, validate_task_type, validate_job_id,
  validate_uid_ipc_filename, normalize_payload, normalize_resources, validate_resource_amounts,
  normalize_depends_on, all_strings, validate_retry_budget, validate_timeout_seconds,
  validate_timeout_flag, validate_trigger, validate_counter, validate_first_enqueued_at,
}

-- A value or `None`.
abbrev or_null {ℓ} : {A : Type ℓ} → Option A → Field A
or_null none = null
or_null (some a) = value a

abbrev amount_field : String × ℕ → String × Field Number
amount_field (name, n) = (name, value (finite (pos n)))

abbrev amounts_field : Option (List (String × ℕ)) → Field (List (String × Field Number))
amounts_field none = null
amounts_field (some amounts) = value (map amount_field amounts)

abbrev retries_field : Option ℕ → Field ℤ
retries_field none = null
retries_field (some n) = value (pos n)

abbrev seconds_field : Option ℕ → Field Number
seconds_field none = null
seconds_field (some n) = value (finite (pos n))

-- `Job.to_dict`
unfoldable pub to_dict : Job → JobSnapshot
to_dict job = record {
  task_type = value job.task_type;
  job_id = value job.job_id;
  payload = value job.payload;
  resources = amounts_field job.resources;
  max_retries = retries_field job.max_retries;
  depends_on = value (map value job.depends_on);
  timeout_seconds = seconds_field job.timeout_seconds;
  timeout_is_transient = or_null job.timeout_is_transient;
  trigger = or_null job.trigger;
  runtime = value (write_state job.runtime);
  attempt_no = value (pos job.attempt_no);
  activation_no = value (pos job.activation_no);
  first_enqueued_at = or_null job.first_enqueued_at;
  has_rerun = false;
  has_timeout = false;
}

bind_inv {ℓ κ} :
    {A : Type ℓ} {B : Type κ} (m : Option A) {f : A → Option B} {b : B}
    → (m >>= f) ≡ some b
    → (a : A) × (m ≡ some a) × (f a ≡ some b)
bind_inv none h = cc
bind_inv (some a) h = (a, refl, h)

some_inj {ℓ} : {A : Type ℓ} {a b : A} → some a ≡ some b → a ≡ b
some_inj h = cc

task_type_again :
    (f : Field String) {s : String}
    → validate_task_type f ≡ some s
    → validate_task_type (value s) ≡ some s
unfolding validate_task_type
task_type_again f h = ground arith

job_id_again :
    (f : Field String) {s : String}
    → validate_job_id f ≡ some s
    → validate_job_id (value s) ≡ some s
unfolding validate_job_id
job_id_again f h = ground arith

amounts_again :
    (d : List (String × Field Number)) {amounts : List (String × ℕ)}
    → validate_resource_amounts d ≡ some amounts
    → validate_resource_amounts (map amount_field amounts) ≡ some amounts
unfolding validate_resource_amounts
amounts_again [] h = ground arith
amounts_again ((name, f) ∷ more) h = elim (Option-cases (validate_resource_amounts more)) [
  | inl e ↦ ground (arith, e)
  | inr (rest, e) ↦ ground (arith, e, amounts_again more e)
]

strings_again : (us : List String) → all_strings (map value us) ≡ some us
unfolding all_strings
strings_again [] = refl
strings_again (u ∷ us) = rw (strings_again us) refl

resources_again :
    (f : Field (List (String × Field Number))) {r : Option (List (String × ℕ))}
    → normalize_resources f ≡ some r
    → normalize_resources (amounts_field r) ≡ some r
unfolding normalize_resources
resources_again absent h = ground arith
resources_again null h = ground arith
resources_again (mistyped t) h = cc
resources_again (value d) h = elim (Option-cases (validate_resource_amounts d)) [
  | inl e ↦ ground (arith, e)
  | inr (amounts, e) ↦ ground (arith, e, amounts_again d e)
]

retries_again :
    (f : Field ℤ) {n : Option ℕ}
    → validate_retry_budget f ≡ some n
    → validate_retry_budget (retries_field n) ≡ some n
unfolding validate_retry_budget
retries_again f {n} h = ground arith

seconds_again :
    (f : Field Number) {n : Option ℕ}
    → validate_timeout_seconds f ≡ some n
    → validate_timeout_seconds (seconds_field n) ≡ some n
unfolding validate_timeout_seconds
seconds_again f h = ground arith

flag_again :
    (f : Field Bool) {b : Option Bool}
    → validate_timeout_flag f ≡ some b
    → validate_timeout_flag (or_null b) ≡ some b
unfolding validate_timeout_flag
flag_again f h = ground arith

trigger_again :
    (f : Field String) {t : Option String}
    → validate_trigger f ≡ some t
    → validate_trigger (or_null t) ≡ some t
unfolding validate_trigger
trigger_again f h = ground arith

counter_again :
    (f : Field ℤ) {n : ℕ} → validate_counter f ≡ some n → validate_counter (value (pos n)) ≡ some n
unfolding validate_counter
counter_again f h = ground arith

enqueued_again :
    (f : Field String) {t : Option String}
    → validate_first_enqueued_at f ≡ some t
    → validate_first_enqueued_at (or_null t) ≡ some t
unfolding validate_first_enqueued_at
enqueued_again f h = ground arith

-- The chain of checks, when each of them passes.
all_pass :
    (m2 m3 : Option String) (check : String → String → Option (Unit {0}))
    (m5 : Option (List (String × String))) (m6 : Option (Option (List (String × ℕ))))
    (m7 : Option (Option ℕ)) (m8 : Option (List String)) (m9 : Option (Option ℕ))
    (m10 : Option (Option Bool)) (m11 : Option (Option String)) (m12 m13 : Option ℕ)
    (m14 : Option (Option String)) (job : Job)
    → m2 ≡ some job.task_type
    → m3 ≡ some job.job_id
    → check job.task_type job.job_id ≡ some tt
    → m5 ≡ some job.payload
    → m6 ≡ some job.resources
    → m7 ≡ some job.max_retries
    → m8 ≡ some job.depends_on
    → m9 ≡ some job.timeout_seconds
    → m10 ≡ some job.timeout_is_transient
    → m11 ≡ some job.trigger
    → m12 ≡ some job.attempt_no
    → m13 ≡ some job.activation_no
    → m14 ≡ some job.first_enqueued_at
    → (do
      task_type ← m2
      job_id ← m3
      check task_type job_id
      payload ← m5
      resources ← m6
      max_retries ← m7
      depends_on ← m8
      timeout_seconds ← m9
      timeout_is_transient ← m10
      trigger ← m11
      attempt_no ← m12
      activation_no ← m13
      first_enqueued_at ← m14
      some (record {
        task_type = task_type;
        job_id = job_id;
        payload = payload;
        resources = resources;
        max_retries = max_retries;
        depends_on = depends_on;
        timeout_seconds = timeout_seconds;
        timeout_is_transient = timeout_is_transient;
        trigger = trigger;
        runtime = job.runtime;
        attempt_no = attempt_no;
        activation_no = activation_no;
        first_enqueued_at = first_enqueued_at;
      }))
      ≡ some job
all_pass m2 m3 check m5 m6 m7 m8 m9 m10 m11 m12 m13 m14 job e2 e3 e4 e5 e6 e7 e8 e9 e10 e11 e12 e13
      e14 =
    rw e2 (
      rw e3 (
        rw e4 (
          rw e5 (rw e6 (rw e7 (rw e8 (rw e9 (rw e10 (rw e11 (rw e12 (rw e13 (rw e14 refl))))))))))))

read_count-write_count : (n : ℤ) → read_count (write_count n) ≡ n
unfolding read_count write_count
read_count-write_count (pos n) = elim (Bool-cases (n == 0)) [
  | inl e ↦ rw e (let zero_ : n ≡ 0 = ground arith in rw zero_ refl)
  | inr e ↦ rw e refl
]
read_count-write_count (negsuc n) = refl

read_text-write_text : (s : String) → read_text (write_text s) ≡ s
unfolding read_text write_text
read_text-write_text s = elim (Bool-cases (s == "")) [
  | inl e ↦ rw e (sym ((==_iff s "").0 e))
  | inr e ↦ rw e refl
]

-- What is written of a runtime state is read again.
pub read_state-write_state : (s : JobRuntimeState) → read_state (write_state s) ≡ s
unfolding read_state write_state
read_state-write_state s = rw (read_count-write_count s.commit_failures) (
    rw (read_count-write_count s.dispatch_failures)
      (rw (read_text-write_text s.last_retry_error) refl))

-- The job behind the round trip of its runtime state.
abbrev reread : Job → Job
reread job = record job { runtime = read_state (write_state job.runtime) }

reread_same : (m : Option Job) (job : Job) → m ≡ some (reread job) → m ≡ some job
reread_same m job e =
    e ∙ ap (λ rt. some (record job { runtime = rt })) (read_state-write_state job.runtime)

-- A job that was read from a row is read again, the same, from the row that it is written as, its
-- runtime state included: also if the first row lacked keys.
pub from_dict-to_dict :
    (d : JobSnapshot) {job : Job} → from_dict d ≡ some job → from_dict (to_dict job) ≡ some job
unfolding from_dict to_dict normalize_payload normalize_depends_on
from_dict-to_dict d {job} h =
    let (_, e0, h0) = bind_inv (forbid d.has_rerun) h in
    let (_, e1, h1) = bind_inv (forbid d.has_timeout) h0 in
    let (t, e2, h2) = bind_inv (validate_task_type d.task_type) h1 in
    let (i, e3, h3) = bind_inv (validate_job_id d.job_id) h2 in
    let (_, e4, h4) = bind_inv (validate_uid_ipc_filename (uid_text t i)) h3 in
    let (p, e5, h5) = bind_inv (normalize_payload d.payload) h4 in
    let (r, e6, h6) = bind_inv (normalize_resources d.resources) h5 in
    let (n, e7, h7) = bind_inv (validate_retry_budget d.max_retries) h6 in
    let (deps, e8, h8) = bind_inv (normalize_depends_on d.depends_on) h7 in
    let (secs, e9, h9) = bind_inv (validate_timeout_seconds d.timeout_seconds) h8 in
    let (b, e10, h10) = bind_inv (validate_timeout_flag d.timeout_is_transient) h9 in
    let (tr, e11, h11) = bind_inv (validate_trigger d.trigger) h10 in
    let (an, e12, h12) = bind_inv (validate_counter d.attempt_no) h11 in
    let (av, e13, h13) = bind_inv (validate_counter d.activation_no) h12 in
    let (fe, e14, h14) = bind_inv (validate_first_enqueued_at d.first_enqueued_at) h13 in
    let read : Job = record {
      task_type = t;
      job_id = i;
      payload = p;
      resources = r;
      max_retries = n;
      depends_on = deps;
      timeout_seconds = secs;
      timeout_is_transient = b;
      trigger = tr;
      runtime = read_runtime d.runtime;
      attempt_no = an;
      activation_no = av;
      first_enqueued_at = fe;
    } in
    let again : from_dict (to_dict read) ≡ some (reread read) =
      all_pass (validate_task_type (value t)) (validate_job_id (value i))
        (λ t i. validate_uid_ipc_filename (uid_text t i)) (some p)
        (normalize_resources (amounts_field r)) (validate_retry_budget (retries_field n))
        (all_strings (map value deps)) (validate_timeout_seconds (seconds_field secs))
        (validate_timeout_flag (or_null b)) (validate_trigger (or_null tr))
        (validate_counter (value (pos an))) (validate_counter (value (pos av)))
        (validate_first_enqueued_at (or_null fe)) (reread read) (task_type_again d.task_type e2)
        (job_id_again d.job_id e3) e4 refl (resources_again d.resources e6)
        (retries_again d.max_retries e7) (strings_again deps) (seconds_again d.timeout_seconds e9)
        (flag_again d.timeout_is_transient e10) (trigger_again d.trigger e11)
        (counter_again d.attempt_no e12) (counter_again d.activation_no e13)
        (enqueued_again d.first_enqueued_at e14) in
    reread_same (from_dict (to_dict job)) job
      (subst (λ job. from_dict (to_dict job) ≡ some (reread job)) (some_inj h14) again)
