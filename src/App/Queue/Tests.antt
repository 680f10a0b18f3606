-- ===== src/App/Queue/Tests.antt =====
-- The queue on a few jobs.
use tweaktool.Common.{List, ◌≡◌, refl, true, false, none, some, [], ◌∷◌, arith}
use tweaktool.App.Queue.{
  Queue, QueuedJob, create_queue, current, array_at, push_job, push_finish, pull, same_job,
}
use tweaktool.App.Queue.Order.{IsSound}
use tweaktool.App.Queue.Batch.{JoinsOnce, push_all, push_all-pull}
use tweaktool.App.Queue.Late.{late_push_misplaced}

abbrev change_one : QueuedJob
change_one = record { job_proc = 4096; tweak_id = 1; cookie = 8192 }

abbrev change_two : QueuedJob
change_two = record { job_proc = 4096; tweak_id = 2; cookie = 8192 }

abbrev waiting : Queue
waiting = record {
  second = true;
  array0 = record { jobs = []; capacity = 0 };
  array1 = record { jobs = change_one ∷ []; capacity = 10 };
  max_size = 100;
  is_stopped = false;
}

waiting-IsSound : IsSound waiting
waiting-IsSound = (omega arith, omega arith, omega arith)

push_all-pull_example :
    (t u : Queue) × (out : List QueuedJob) × (push_all
        (change_two ∷ change_one ∷ change_two ∷ [])
        waiting
      ≡ some t)
    × (pull t ≡ some (some out, u))
    × JoinsOnce (change_one ∷ []) (change_two ∷ change_one ∷ change_two ∷ []) out
push_all-pull_example =
    push_all-pull (change_two ∷ change_one ∷ change_two ∷ []) waiting waiting-IsSound refl
      (omega arith) (omega arith)

different : same_job change_one change_two ≡ false
unfolding same_job
different = refl

late_push_misplaced_example :
    (q1 q2 q3 : Queue) × (push_job change_one (create_queue 1) ≡ some q1)
    × (push_job change_two q1 ≡ none)
    × (pull q1 ≡ some (some (change_one ∷ []), q2))
    × (push_finish q1.second change_two q2 ≡ some q3)
    × ((current q3).jobs ≡ [])
    × ((array_at q1.second q3).jobs ≡ change_one ∷ change_two ∷ [])
    × (pull q3 ≡ none)
late_push_misplaced_example = late_push_misplaced change_one change_two different
