-- ===== src/App/Queue/Order.antt =====
-- The jobs of the queue: each once, in the order of their first push.
use tweaktool.Common.{
  ◌↔◌, ◌&&◌, if_true, if_false, ◌<◌, ◌+◌, ◌≤◌, ◌≡◌, refl, sym, ◌∙◌, ap, Bool, true, false, not,
  none, some, List, [], ◌∷◌, ◌++◌, length, length-append, arith, Bool-cases, inl, inr,
  if◌then◌else◌, leb, ◌==◌,
}
use mathlib.Core.List.{Memᴰ}
use mathlib.Core.List.Memᴰ
use tweaktool.App.Queue.{
  same_job, Queue, QueuedJob, JobArray, current, array_at, has_job, push_finish, push_job, pull,
  ensure_job_array_capacity, set_array,
}

same_job_iff : (a b : QueuedJob) → (same_job a b ≡ true) ↔ (a ≡ b)
unfolding same_job
same_job_iff a b = (
  λ e. parts (ground arith) (ground arith) (ground arith),
  λ p. ground (arith, ap (λ j. j.job_proc) p, ap (λ j. j.tweak_id) p, ap (λ j. j.cookie) p),
)
  where
    parts : a.job_proc ≡ b.job_proc → a.tweak_id ≡ b.tweak_id → a.cookie ≡ b.cookie → a ≡ b
    parts p q r = λ i. record { job_proc = p i; tweak_id = q i; cookie = r i }

-- The search of a push finds a job exactly when it is one of the jobs.
pub has_job_iff :
    (job : QueuedJob) (jobs : List QueuedJob) → (has_job job jobs ≡ true) ↔ Memᴰ job jobs
unfolding has_job
has_job_iff job [] = (λ e. absurd (cc (e)), λ h. absurd (Memᴰ.not-nil h))
has_job_iff job (j ∷ jobs) = elim (Bool-cases (same_job j job)) [
  | inl same ↦
      (λ e. Memᴰ.head (sym ((same_job_iff j job).0 same)), λ h. if_true (same_job j job) _ _ same)
  | inr other ↦ (
    λ e. Memᴰ.tail ((has_job_iff job jobs).0 (sym (if_false (same_job j job) _ _ other) ∙ e)),
    λ h. elim (Memᴰ.cases_cons h) [
      | inl p ↦ absurd (cc (other, (same_job_iff j job).1 (sym p)))
      | inr later ↦ if_false (same_job j job) _ _ other ∙ (has_job_iff job jobs).1 later
    ],
  )
]

-- A job after the jobs that are there, unless it is one of them.
abbrev pub add_once : List QueuedJob → QueuedJob → List QueuedJob
add_once jobs job = if has_job job jobs then jobs else jobs ++ (job ∷ [])

-- Each array has room for its jobs, and the current one has no more than the queue allows.
abbrev pub IsSound : Queue → Type 0
IsSound q =
    (length q.array0.jobs ≤ q.array0.capacity)
    × (length q.array1.jobs ≤ q.array1.capacity)
    × (length (current q).jobs ≤ q.max_size)

abbrev Fits : JobArray → Type 0
Fits a = length a.jobs ≤ a.capacity

-- The array after the job was appended.
abbrev grown : JobArray → QueuedJob → JobArray
grown a job = record (ensure_job_array_capacity (length a.jobs + 1) a) {
  jobs = (ensure_job_array_capacity (length a.jobs + 1) a).jobs ++ (job ∷ []);
}

grown-Fits : (a : JobArray) (job : QueuedJob) → Fits a → Fits (grown a job)
unfolding ensure_job_array_capacity
grown-Fits a job h = ground (arith, length-append a.jobs (job ∷ []))

grown-jobs : (a : JobArray) (job : QueuedJob) → (grown a job).jobs ≡ a.jobs ++ (job ∷ [])
unfolding ensure_job_array_capacity
grown-jobs a job = ground arith

set_here : (b : Bool) (a : JobArray) (q : Queue) → array_at b (set_array b a q) ≡ a
set_here true a q = refl
set_here false a q = refl

set_other :
    (b : Bool) (a : JobArray) (q : Queue) → array_at (not b) (set_array b a q) ≡ array_at (not b) q
set_other true a q = refl
set_other false a q = refl

set-Fits :
    (b : Bool) (a : JobArray) (q : Queue)
    → Fits a
    → Fits q.array0
    → Fits q.array1
    → Fits (set_array b a q).array0 × Fits (set_array b a q).array1
set-Fits true a q h h0 h1 = (h0, h)
set-Fits false a q h h0 h1 = (h, h1)

at-Fits : (b : Bool) (q : Queue) → Fits q.array0 → Fits q.array1 → Fits (array_at b q)
at-Fits true q h0 h1 = h1
at-Fits false q h0 h1 = h0

push_new :
    (job : QueuedJob) (q : Queue)
    → has_job job (current q).jobs ≡ false
    → length (current q).jobs < q.max_size
    → push_job job q ≡ some (set_array q.second (grown (current q) job) q)
unfolding push_job push_finish
push_new job q new room =
    if_false (has_job job (current q).jobs) _ _ new
    ∙ if_false (leb q.max_size (length (current q).jobs)) _ _ (ground arith)

push_again :
    (job : QueuedJob) (q : Queue) → has_job job (current q).jobs ≡ true → push_job job q ≡ some q
unfolding push_job
push_again job q here = if_true (has_job job (current q).jobs) _ _ here

-- A push into a sound queue that is not full does not wait: the job is at the end of the current array, unless
-- it was there; the array that the worker thread reads and the other fields are as before, and each array
-- still has room for its jobs.
pub push_job_lem :
    (job : QueuedJob) (q : Queue)
    → IsSound q
    → length (current q).jobs < q.max_size
    → (t : Queue) × (push_job job q ≡ some t)
      × ((current t).jobs ≡ add_once (current q).jobs job)
      × (array_at (not q.second) t ≡ array_at (not q.second) q)
      × (t.second ≡ q.second)
      × (t.max_size ≡ q.max_size)
      × (t.is_stopped ≡ q.is_stopped)
      × IsSound t
push_job_lem job q sound room = elim (Bool-cases (has_job job (current q).jobs)) [
  | inl here ↦ (
    q,
    push_again job q here,
    sym (if_true (has_job job (current q).jobs) _ _ here),
    refl,
    refl,
    refl,
    refl,
    sound,
  )
  | inr new ↦
      let a = grown (current q) job in
      let jobs_eq : (current (set_array q.second a q)).jobs ≡ (current q).jobs ++ (job ∷ []) =
        ap (λ x. x.jobs) (set_here q.second a q) ∙ grown-jobs (current q) job in
      let fits =
        set-Fits q.second a q (grown-Fits (current q) job (at-Fits q.second q sound.0 sound.1))
          sound.0 sound.1 in
      (
        set_array q.second a q,
        push_new job q new room,
        jobs_eq ∙ sym (if_false (has_job job (current q).jobs) _ _ new),
        set_other q.second a q,
        refl,
        refl,
        refl,
        (
          fits.0,
          fits.1,
          omega (arith, ap length jobs_eq, length-append (current q).jobs (job ∷ []), room),
        ),
      )
]

flip_other :
    (b : Bool) (a : JobArray) (q : Queue)
    → array_at (not (not b)) (set_array (not b) a (record q { second = not b })) ≡ array_at b q
flip_other true a q = refl
flip_other false a q = refl

pull_guard :
    (q : Queue)
    → q.is_stopped ≡ false
    → 0 < length (current q).jobs
    → (not q.is_stopped && length (current q).jobs == 0) ≡ false
pull_guard q running some_jobs = ground arith

-- The pull of a sound queue that is not stopped and has jobs hands out all of them in their order and leaves an
-- empty current array, and each array still has room for its jobs.
pub pull_lem :
    (q : Queue)
    → IsSound q
    → q.is_stopped ≡ false
    → 0 < length (current q).jobs
    → (t : Queue) × (pull q ≡ some (some (current q).jobs, t))
      × ((current t).jobs ≡ [])
      × (array_at (not t.second) t ≡ current q)
      × (t.max_size ≡ q.max_size)
      × IsSound t
unfolding pull
pull_lem q sound running some_jobs =
    let emptied : JobArray = record (array_at (not q.second) q) { jobs = [] } in
    let flipped : Queue = record q { second = not q.second } in
    let t = set_array (not q.second) emptied flipped in
    let fits = set-Fits (not q.second) emptied flipped (omega arith) sound.0 sound.1 in
    let jobs_eq : (current t).jobs ≡ [] =
      ap (λ x. x.jobs) (set_here (not q.second) emptied flipped) in
    (
      t,
      if_false (not q.is_stopped && length (current q).jobs == 0) _ _
            (pull_guard q running some_jobs)
          ∙ ap (λ b. some (if b then none else some (current q).jobs, t)) running,
      jobs_eq,
      flip_other q.second emptied q,
      refl,
      (fits.0, fits.1, omega (arith, ap length jobs_eq)),
    )
