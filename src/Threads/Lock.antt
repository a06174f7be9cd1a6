-- ===== src/Threads/Lock.antt =====
-- code/threads/synch.cc: `Semaphore` and `Lock`, and threads that acquire and release one lock.
-- Between SetLevel(IntOff) and SetLevel(oldLevel) a thread is not interrupted, except that Sleep runs other threads;
-- everywhere else another thread may run. So what happens without interruption is one step: a pass of the loop in P up to
-- Sleep or to its end, V, and each assignment of the lock.
pub mod Counting
pub mod Fair
pub mod Exclusion
use my_nachos.Base.{
  ℕ, zero, suc, ◌+◌, ◌-◌, ◌<◌, ◌≡◌, Bool, true, false, Option, none, some, List, [], ◌∷◌, ◌++◌,
  if◌then◌else◌, ◌==◌,
}
use my_nachos.Base.Checked.{◌>>=◌, ◌>>◌, assert}

-- `queue` holds the waiting threads, by number.
pub record Semaphore : Type 0 where
  pub value : ℕ
  pub queue : List ℕ

-- The ASSERTs of the queue's list are not part of the model.
-- One pass of the loop of P by thread `t`: TRUE when the loop has ended and the value is taken, FALSE when the thread sleeps.
unfoldable pub p_pass : ℕ → Semaphore → Semaphore × Bool
p_pass t s =
    if s.value == 0
    then (record { value = s.value; queue = s.queue ++ (t ∷ []) }, false)
    else (record { value = s.value - 1; queue = s.queue }, true)

-- V, with the thread that it makes ready.
unfoldable pub v : Semaphore → Semaphore × Option ℕ
v s = elim s.queue [
  | [] ↦ (record { value = s.value + 1; queue = [] }, none)
  | t ∷ rest ↦ (record { value = s.value + 1; queue = rest }, some t)
]

-- Where a thread is: outside of the lock; about to test the value in P; asleep in P; past P; past Acquire; in Release,
-- before V.
pub data Stage : Type 0 where
  outside : Stage
  trying : Stage
  asleep : Stage
  entered : Stage
  owning : Stage
  leaving : Stage

-- The lock is its semaphore and its holder.
pub record System : Type 0 where
  pub semaphore : Semaphore
  pub lock_holder : Option ℕ
  pub stages : ℕ → Stage

abbrev pub put : ℕ → Stage → (ℕ → Stage) → ℕ → Stage
put t st stages = λ j. if j == t then st else stages j

abbrev pub new_lock : System
new_lock = record {
  semaphore = record { value = 1; queue = [] };
  lock_holder = none;
  stages = λ t. outside;
}

unfoldable pub acquire_pass : ℕ → System → System
acquire_pass t s =
    let (sem, taken) = p_pass t s.semaphore in
    record {
      semaphore = sem;
      lock_holder = s.lock_holder;
      stages = put t (if taken then entered else asleep) s.stages;
    }

-- `lockHolder = kernel->currentThread;`
unfoldable pub acquire_own : ℕ → System → System
acquire_own t s = record s { lock_holder = some t; stages = put t owning s.stages }

abbrev pub is_held_by : ℕ → Option ℕ → Bool
is_held_by t none = false
is_held_by t (some h) = h == t

-- The ASSERT and `lockHolder = NULL;`
unfoldable pub release_drop : ℕ → System → Option System
release_drop t s = do
  assert (is_held_by t s.lock_holder)
  some (record s { lock_holder = none; stages = put t leaving s.stages })

abbrev pub wake : Option ℕ → (ℕ → Stage) → ℕ → Stage
wake none stages = stages
wake (some t) stages = put t trying stages

unfoldable pub release_v : ℕ → System → System
release_v t s =
    let (sem, woken) = v s.semaphore in
    record {
      semaphore = sem;
      lock_holder = s.lock_holder;
      stages = wake woken (put t outside s.stages);
    }

-- The steps of `n` threads, in any order.
pub data Step (n : ℕ) (s : System) : System → Type 0 where
  call_acquire :
      (t : ℕ)
      → t < n
      → s.stages t ≡ outside
      → Step n s (record s { stages = put t trying s.stages })
  pass : (t : ℕ) → t < n → s.stages t ≡ trying → Step n s (acquire_pass t s)
  own : (t : ℕ) → t < n → s.stages t ≡ entered → Step n s (acquire_own t s)
  drop :
      (t : ℕ) (s' : System) → t < n → s.stages t ≡ owning → release_drop t s ≡ some s' → Step n s s'
  signal : (t : ℕ) → t < n → s.stages t ≡ leaving → Step n s (release_v t s)

pub data Reachable (n : ℕ) : System → Type 0 where
  start : Reachable n new_lock
  after : {s s' : System} → Reachable n s → Step n s s' → Reachable n s'
