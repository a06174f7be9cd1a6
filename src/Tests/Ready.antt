-- ===== src/Tests/Ready.antt =====
-- code/threads/scheduler.cc: two ready threads and a blocked one.
use my_nachos.Base.{ℕ, ◌+◌, ◌≡◌, refl, true, false, none, some, [], ◌∷◌, if◌then◌else◌, ◌==◌, arith}
use my_nachos.Threads.Scheduler.{
  by_priority, Thread, ready, Scheduler, ready_to_run, find_next_to_run, awake_a_thread, append,
}
use my_nachos.Base.Checked.{◌>>=◌, assert}
use my_nachos.Threads.Scheduler.Ready.{
  nothing, more, IsSorted, empty, ahead, times, ready_to_run-IsSorted, Preferred,
  find_next_to_run-ready_to_run,
}

abbrev thread_of : ℕ → ℕ → Thread
thread_of n p = record { tid = n; priority = p; remain_time = 0; status = ready }

abbrev two_ready : Scheduler
two_ready = record {
  ready_list = [];
  sorted_ready_list = thread_of 1 3 ∷ thread_of 2 9 ∷ [];
  queues = [];
  block_list = thread_of 3 1 ∷ [];
}

abbrev one_awake : Scheduler
one_awake = record two_ready { block_list = []; ready_list = thread_of 3 1 ∷ [] }

two_ready-IsSorted : IsSorted two_ready.sorted_ready_list
two_ready-IsSorted = ahead (more (omega arith) nothing) (ahead nothing empty)

one_awake_run : awake_a_thread two_ready ≡ some one_awake
unfolding awake_a_thread append assert
one_awake_run = refl

ready_to_run-IsSorted_example :
    (ready_to_run by_priority false (thread_of 3 5) two_ready ≡ none)
    × ((s' : Scheduler) × (ready_to_run by_priority true (thread_of 3 5) two_ready ≡ some s')
        × IsSorted s'.sorted_ready_list
        × ((n : ℕ)
            → times n s'.sorted_ready_list
              ≡ (if (thread_of 3 5).tid == n then 1 else 0) + times n two_ready.sorted_ready_list))
ready_to_run-IsSorted_example =
    ready_to_run-IsSorted (thread_of 3 5) two_ready two_ready-IsSorted refl refl

find_next_to_run-ready_to_run_example :
    (u : Thread) × (s' : Scheduler) × ((ready_to_run by_priority true (thread_of 3 5) two_ready
        >>= find_next_to_run by_priority true)
      ≡ some (some u, s'))
    × Preferred (thread_of 3 5) two_ready.sorted_ready_list u s'.sorted_ready_list
find_next_to_run-ready_to_run_example =
    find_next_to_run-ready_to_run (thread_of 3 5) two_ready two_ready-IsSorted refl refl
