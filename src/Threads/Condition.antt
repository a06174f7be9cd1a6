-- ===== src/Threads/Condition.antt =====
-- code/threads/synch.cc: `Condition`, with the barrier on it.
-- The lock is its holder: Acquire and Release are one step each here. A waiting thread's semaphore is known by a number, which
-- is an argument where it is allocated; that is how the queue, a list of semaphores, tells them apart.
pub mod Broadcast
pub mod Barrier
use my_nachos.Base.{
  ℕ, zero, suc, ◌+◌, Bool, true, false, Option, none, some, List, [], ◌∷◌, if◌then◌else◌, ◌==◌,
}
use my_nachos.Base.Checked.{◌>>=◌, ◌>>◌, assert}
use my_nachos.Containers.Sequence.{append_item}
use my_nachos.Threads.Lock.{Semaphore, v, is_held_by}

abbrev pub barrier_size : ℕ
barrier_size = 5

pub record Condition : Type 0 where
  pub wait_queue : List ℕ
  pub barrier_num : ℕ

-- A condition, the lock it is used with, and the semaphores.
pub record Monitor : Type 0 where
  pub condition : Condition
  pub lock_holder : Option ℕ
  pub semaphores : ℕ → Semaphore

-- Condition::Condition
abbrev pub new_condition : Condition
new_condition = record { wait_queue = []; barrier_num = 0 }

abbrev pub set_semaphore : ℕ → Semaphore → (ℕ → Semaphore) → ℕ → Semaphore
set_semaphore w s semaphores = λ u. if u == w then s else semaphores u

unfoldable pub set_queue : List ℕ → Monitor → Monitor
set_queue ws m = record m { condition = record m.condition { wait_queue = ws } }

abbrev pub nobody : Option ℕ → Bool
nobody none = true
nobody (some t) = false

-- Lock::Acquire when it returns.
unfoldable pub acquire : ℕ → Monitor → Option Monitor
acquire t m = assert (nobody m.lock_holder) >> some (record m { lock_holder = some t })

unfoldable pub release : ℕ → Monitor → Option Monitor
release t m = assert (is_held_by t m.lock_holder) >> some (record m { lock_holder = none })

-- Wait up to `waiter->P()`; `w` is the new semaphore.
unfoldable pub wait : ℕ → ℕ → Monitor → Option Monitor
wait t w m = do
  assert (is_held_by t m.lock_holder)
  ws ← append_item w m.condition.wait_queue
  release t (
      set_queue ws
        (record m { semaphores = set_semaphore w (record { value = 0; queue = [] }) m.semaphores }))

-- What Signal does with the queue.
abbrev pub wake_first : List ℕ → Monitor → Monitor
wake_first [] m = m
wake_first (w ∷ ws) m =
    set_queue ws (record m { semaphores = set_semaphore w (v (m.semaphores w)).0 m.semaphores })

unfoldable pub signal : ℕ → Monitor → Option Monitor
signal t m = do assert (is_held_by t m.lock_holder); some (wake_first m.condition.wait_queue m)

abbrev pub no_one : List ℕ → Bool
no_one [] = true
no_one (w ∷ ws) = false

unfoldable pub broadcast : ℕ → ℕ → Monitor → Option Monitor
broadcast zero t m = none
broadcast (suc n) t m =
    if no_one m.condition.wait_queue then some m else (signal t m >>= broadcast n t)

unfoldable pub barrier : ℕ → ℕ → ℕ → Monitor → Option Monitor
barrier n t w m =
    let m' : Monitor = record m {
      condition = record m.condition { barrier_num = m.condition.barrier_num + 1 };
    } in
    if m'.condition.barrier_num == barrier_size then broadcast n t m' else wait t w m'
