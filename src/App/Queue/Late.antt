-- ===== src/App/Queue/Late.antt =====
-- A push that had to wait for the worker thread.
use tweaktool.Common.{◌≡◌, refl, true, false, none, some, [], ◌∷◌}
use tweaktool.App.Queue.{
  Queue, QueuedJob, create_queue, current, array_at, push_job, push_finish, pull,
  ensure_job_array_capacity, has_job, same_job,
}

-- In a queue for one job, a second one has to wait; after the worker thread pulled the first one, the
-- second one is put behind it into the array that was handed out, and the current array stays empty.
pub late_push_misplaced :
    (first second : QueuedJob)
    → same_job first second ≡ false
    → (q1 q2 q3 : Queue) × (push_job first (create_queue 1) ≡ some q1)
      × (push_job second q1 ≡ none)
      × (pull q1 ≡ some (some (first ∷ []), q2))
      × (push_finish q1.second second q2 ≡ some q3)
      × ((current q3).jobs ≡ [])
      × ((array_at q1.second q3).jobs ≡ first ∷ second ∷ [])
      × (pull q3 ≡ none)
unfolding push_job push_finish pull create_queue has_job ensure_job_array_capacity
late_push_misplaced first second other = (
  record {
    second = false;
    array0 = record { jobs = first ∷ []; capacity = 10 };
    array1 = record { jobs = []; capacity = 0 };
    max_size = 1;
    is_stopped = false;
  },
  record {
    second = true;
    array0 = record { jobs = first ∷ []; capacity = 10 };
    array1 = record { jobs = []; capacity = 0 };
    max_size = 1;
    is_stopped = false;
  },
  record {
    second = true;
    array0 = record { jobs = first ∷ second ∷ []; capacity = 10 };
    array1 = record { jobs = []; capacity = 0 };
    max_size = 1;
    is_stopped = false;
  },
  refl,
  rw other,
  refl,
  refl,
  refl,
  refl,
  refl,
)
