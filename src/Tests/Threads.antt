-- ===== src/Tests/Threads.antt =====
-- Threads that finish, yield and meet at a barrier.
use my_nachos.Base.{
  ℕ, ◌+◌, ◌≡◌, refl, true, false, none, some, List, [], ◌∷◌, if◌then◌else◌, arith, get_or,
}
use my_nachos.Base.Checked.{◌>>=◌, assert}
use my_nachos.Containers.Sequence.{member}
use my_nachos.Threads.Scheduler.{
  first_come, Thread, running, ready, is_in, Scheduler, take_next, find_next_to_run, remove_front,
}
use my_nachos.Threads.Life.{System, exists_in, finish}
use my_nachos.Threads.Life.Carcass.{finish-is_in}
use my_nachos.Threads.Life.Turns.{IsTurning, yields, order, yields-order}
use my_nachos.Threads.Condition.{Monitor, release}
use my_nachos.Threads.Condition.Barrier.{arrivals, arrive, waiters, arrivals-arrive, arrive-Wakes}

abbrev thread : ℕ → Thread
thread n = record { tid = n; priority = 8; remain_time = 0; status = ready }

-- Thread 0 runs, 1 and 2 are ready, 3 is blocked.
abbrev four : System
four = record {
  scheduler = record {
    ready_list = thread 1 ∷ thread 2 ∷ [];
    sorted_ready_list = [];
    queues = [];
    block_list = thread 3 ∷ [];
  };
  current = record (thread 0) { status = running };
  to_be_destroyed = none;
  threads = 0 ∷ 1 ∷ 2 ∷ 3 ∷ [];
  interrupts_on = true;
}

-- The scheduler when thread 1 has been chosen.
abbrev chosen : Scheduler
chosen = record four.scheduler { ready_list = thread 2 ∷ [] }

four-next : find_next_to_run first_come true four.scheduler ≡ some (some (thread 1), chosen)
unfolding find_next_to_run take_next remove_front assert
four-next = refl

finish-is_in_example :
    (k : System) × (finish first_come four ≡ some (true, k))
    × (k.current.tid ≡ 1)
    × (exists_in 0 k.threads ≡ false)
    × (is_in four.current k.scheduler.block_list ≡ true)
finish-is_in_example =
    finish-is_in first_come four (thread 1) chosen refl four-next (λ e. omega (arith, e)) refl

four-IsTurning : IsTurning four
four-IsTurning = record {
  different = (refl, (refl, (refl, tt)));
  awake = (refl, (refl, (refl, tt)));
  nobody = refl;
}

yields-order_example :
    (k : System) × (yields 2 four ≡ some k) × (k.current.tid ≡ get_or (order four) 1 0)
yields-order_example = yields-order 1 four four-IsTurning (omega arith)

abbrev four_waiting : Monitor
four_waiting = record {
  condition = record { wait_queue = 11 ∷ 12 ∷ 13 ∷ 14 ∷ []; barrier_num = 4 };
  lock_holder = none;
  semaphores = λ w. record { value = 0; queue = [] };
}

arrive-Wakes_example :
    (m : Monitor) × (arrive 9 (5, 15) four_waiting ≡ some m)
    × (m.lock_holder ≡ some 5)
    × (m.condition.wait_queue ≡ [])
    × ((u : ℕ)
        → (m.semaphores u).value
          ≡ (four_waiting.semaphores u).value
            + (if member u (11 ∷ 12 ∷ 13 ∷ 14 ∷ []) then 1 else 0))
arrive-Wakes_example =
    arrive-Wakes 9 5 15 four_waiting refl refl (refl, (refl, (refl, (refl, tt)))) (omega arith)

-- Six threads that arrive after the opening.
abbrev six_later : List (ℕ × ℕ)
six_later = (6, 16) ∷ (7, 17) ∷ (8, 18) ∷ (9, 19) ∷ (10, 20) ∷ (11, 21) ∷ []

arrivals-arrive_example :
    (m : Monitor) × ((arrive 9 (5, 15) four_waiting >>= λ k. release 5 k >>= arrivals 9 six_later)
      ≡ some m)
    × (m.condition.wait_queue ≡ waiters six_later)
    × (m.lock_holder ≡ none)
arrivals-arrive_example =
    arrivals-arrive 9 5 15 six_later four_waiting refl refl (refl, (refl, (refl, (refl, tt))))
      (omega arith) (refl, (refl, (refl, (refl, (refl, (refl, tt))))))
