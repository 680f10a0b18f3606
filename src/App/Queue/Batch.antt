-- ===== src/App/Queue/Batch.antt =====
-- Several pushes and the pull after them.
use tweaktool.Common.{
  ◌<◌, ◌+◌, ◌≤◌, ◌≡◌, refl, ◌∙◌, ap, true, false, Option, some, List, [], ◌∷◌, length,
  length-append, arith, Bool-cases, inl, inr, ◌>>=◌, ◌++◌, sym, subst, if_true, if_false,
}
use mathlib.Core.List.{Memᴰ}
use tweaktool.App.Queue.{Queue, QueuedJob, current, has_job, push_job, pull}
use tweaktool.App.Queue.Order.{IsSound, add_once, push_job_lem, pull_lem, has_job_iff}

abbrev add_all : List QueuedJob → List QueuedJob → List QueuedJob
add_all jobs [] = jobs
add_all jobs (job ∷ more) = add_all (add_once jobs job) more

-- Jobs pushed one after the other.
abbrev pub push_all : List QueuedJob → Queue → Option Queue
push_all [] q = some q
push_all (job ∷ jobs) q = push_job job q >>= λ t. push_all jobs t

has-nonempty : (job : QueuedJob) (jobs : List QueuedJob) → has_job job jobs ≡ true → 0 < length jobs
unfolding has_job
has-nonempty job [] e = absurd (cc (e))
has-nonempty job (j ∷ jobs) e = omega arith

length-add_once :
    (jobs : List QueuedJob) (job : QueuedJob)
    → (0 < length (add_once jobs job))
      × (length jobs ≤ length (add_once jobs job))
      × (length (add_once jobs job) ≤ length jobs + 1)
length-add_once jobs job = elim (Bool-cases (has_job job jobs)) [
  | inl here ↦ rw here (omega (arith, has-nonempty job jobs here))
  | inr new ↦ rw new (omega (arith, length-append jobs (job ∷ [])))
]

length-add_all : (jobs more : List QueuedJob) → length jobs ≤ length (add_all jobs more)
length-add_all jobs [] = omega arith
length-add_all jobs (job ∷ more) =
    omega (arith, length-add_all (add_once jobs job) more, length-add_once jobs job)

push_all_lem :
    (jobs : List QueuedJob) (q : Queue)
    → IsSound q
    → length (current q).jobs + length jobs ≤ q.max_size
    → (t : Queue) × (push_all jobs q ≡ some t)
      × ((current t).jobs ≡ add_all (current q).jobs jobs)
      × (t.is_stopped ≡ q.is_stopped)
      × IsSound t
push_all_lem [] q sound room = (q, refl, refl, refl, sound)
push_all_lem (job ∷ jobs) q sound room =
    let (t, e, jobs_eq, _, _, max_eq, stop_eq, sound_t) = push_job_lem job q sound (omega arith) in
    let sizes = length-add_once (current q).jobs job in
    let (u, f, more_eq, stop_eq2, sound_u) =
      push_all_lem jobs t sound_t (omega (arith, sizes, ap length jobs_eq, max_eq, room)) in
    (
      u,
      ap (λ r. r >>= λ x. push_all jobs x) e ∙ f,
      more_eq ∙ ap (λ l. add_all l jobs) jobs_eq,
      stop_eq2 ∙ stop_eq,
      sound_u,
    )

add_all-nonempty :
    (jobs more : List QueuedJob) → 0 < length jobs + length more → 0 < length (add_all jobs more)
add_all-nonempty jobs [] h = omega arith
add_all-nonempty jobs (job ∷ more) h =
    omega (arith, length-add_all (add_once jobs job) more, length-add_once jobs job)

-- `out` is `jobs` with each job of the third list that is not there yet, once, in the order of its first push.
pub data JoinsOnce : List QueuedJob → List QueuedJob → List QueuedJob → Type 0 where
  done : (jobs : List QueuedJob) → JoinsOnce jobs [] jobs
  again :
      {jobs more out : List QueuedJob} {job : QueuedJob}
      → Memᴰ job jobs
      → JoinsOnce jobs more out
      → JoinsOnce jobs (job ∷ more) out
  new :
      {jobs more out : List QueuedJob} {job : QueuedJob}
      → (Memᴰ job jobs → ⊥)
      → JoinsOnce (jobs ++ (job ∷ [])) more out
      → JoinsOnce jobs (job ∷ more) out

add_all-JoinsOnce : (jobs more : List QueuedJob) → JoinsOnce jobs more (add_all jobs more)
add_all-JoinsOnce jobs [] = JoinsOnce.done jobs
add_all-JoinsOnce jobs (job ∷ more) = elim (Bool-cases (has_job job jobs)) [
  | inl here ↦ JoinsOnce.again ((has_job_iff job jobs).0 here) (
      subst (λ l. JoinsOnce jobs more (add_all l more)) (sym (if_true (has_job job jobs) _ _ here))
        (add_all-JoinsOnce jobs more))
  | inr absent ↦
      JoinsOnce.new (λ m. absurd (cc (absent, (has_job_iff job jobs).1 m)))
        (subst (λ l. JoinsOnce (jobs ++ (job ∷ [])) more (add_all l more))
          (sym (if_false (has_job job jobs) _ _ absent))
          (add_all-JoinsOnce (jobs ++ (job ∷ [])) more))
]

-- Jobs that are pushed between two pulls of a sound queue that is not stopped, no more than the queue has
-- room for, do not wait. If there is a job then, the next pull hands out the jobs that were there, and after them
-- each pushed job that was not among these (in procedure, id and cookie), once, in the order of the first pushes.
pub push_all-pull :
    (jobs : List QueuedJob) (q : Queue)
    → IsSound q
    → q.is_stopped ≡ false
    → length (current q).jobs + length jobs ≤ q.max_size
    → 0 < length (current q).jobs + length jobs
    → (t u : Queue) × (out : List QueuedJob) × (push_all jobs q ≡ some t)
      × (pull t ≡ some (some out, u))
      × JoinsOnce (current q).jobs jobs out
push_all-pull jobs q sound running room any =
    let (t, e, jobs_eq, stop_eq, sound_t) = push_all_lem jobs q sound room in
    let (u, f, _, _, _, _) =
      pull_lem t sound_t (stop_eq ∙ running)
        (omega (arith, ap length jobs_eq, add_all-nonempty (current q).jobs jobs any)) in
    (
      t,
      u,
      add_all (current q).jobs jobs,
      e,
      f ∙ ap (λ l. some (some l, u)) jobs_eq,
      add_all-JoinsOnce (current q).jobs jobs,
    )
