-- ===== src/App/Queue.antt =====
-- tweak-app/src/tweakappqueue.c: the queue of jobs between the callers and the worker thread, two arrays
-- that change places. What stands between two releases of the lock is one step; a step that has to wait
-- gives `none` and leaves the queue as it was.
pub mod Order
pub mod Batch
pub mod Late
mod Tests
use tweaktool.Common.{
  ℕ, ◌+◌, ◌*◌, ◌/◌, Bool, true, false, not, ◌&&◌, Option, none, some, List, [], ◌∷◌, ◌++◌, length,
  leb, ltb, ◌==◌, if◌then◌else◌,
}

-- `struct job`: the addresses of the procedure and of the cookie are numbers.
pub record QueuedJob : Type 0 where
  pub job_proc : ℕ
  pub tweak_id : ℕ
  pub cookie : ℕ

-- `struct job_array`: the first `size` jobs, and the room for jobs.
pub record JobArray : Type 0 where
  pub jobs : List QueuedJob
  pub capacity : ℕ

-- `struct job_queue`: `second` says that the current array is `arrays[1]`.
pub record Queue : Type 0 where
  pub second : Bool
  pub array0 : JobArray
  pub array1 : JobArray
  pub max_size : ℕ
  pub is_stopped : Bool

unfoldable pub create_queue : ℕ → Queue
create_queue max_size = record {
  second = false;
  array0 = record { jobs = []; capacity = 0 };
  array1 = record { jobs = []; capacity = 0 };
  max_size = max_size;
  is_stopped = false;
}

abbrev pub array_at : Bool → Queue → JobArray
array_at which q = if which then q.array1 else q.array0

abbrev pub set_array : Bool → JobArray → Queue → Queue
set_array which a q = record q {
  array0 = if which then q.array0 else a;
  array1 = if which then a else q.array1;
}

abbrev pub current : Queue → JobArray
current q = array_at q.second q

unfoldable pub same_job : QueuedJob → QueuedJob → Bool
same_job a b = a.tweak_id == b.tweak_id && a.job_proc == b.job_proc && a.cookie == b.cookie

-- The search of `tweak_app_queue_push` for the job.
unfoldable pub has_job : QueuedJob → List QueuedJob → Bool
unfolding same_job
has_job job [] = false
has_job job (j ∷ jobs) = let rest = has_job job jobs in if same_job j job then true else rest

unfoldable pub ensure_job_array_capacity : ℕ → JobArray → JobArray
ensure_job_array_capacity size a =
    if ltb a.capacity size
    then record a { capacity = if ltb size 10 then 10 else size * 3 / 2 }
    else a

-- What `tweak_app_queue_push` does once there is room: the job goes to the array that was current when
-- the call began.
unfoldable pub push_finish : Bool → QueuedJob → Queue → Option Queue
unfolding ensure_job_array_capacity
push_finish which job q =
    if leb q.max_size (length (current q).jobs)
    then none
    else let a =
        ensure_job_array_capacity (length (array_at which q).jobs + 1) (array_at which q) in
      some (set_array which (record a { jobs = a.jobs ++ (job ∷ []) }) q)

-- `tweak_app_queue_push` up to its first wait, if it has to wait.
unfoldable pub push_job : QueuedJob → Queue → Option Queue
unfolding has_job push_finish
push_job job q = if has_job job (current q).jobs then some q else push_finish q.second job q

-- `tweak_app_queue_pull`: the jobs handed out (`none` when the queue is stopped), and the queue after it.
unfoldable pub pull : Queue → Option (Option (List QueuedJob) × Queue)
pull q =
    if not q.is_stopped && length (current q).jobs == 0
    then none
    else some (
      if q.is_stopped then none else some (current q).jobs,
      set_array (not q.second) (record (array_at (not q.second) q) { jobs = [] })
          (record q { second = not q.second }),
    )

unfoldable pub stop : Queue → Queue
stop q = record q { is_stopped = true }

-- `tweak_app_queue_wait_empty` returns.
unfoldable pub empty_now : Queue → Bool
empty_now q = length (current q).jobs == 0
