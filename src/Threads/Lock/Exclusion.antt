-- ===== src/Threads/Lock/Exclusion.antt =====
-- code/threads/synch.cc: a lock excludes, its ASSERT passes, and no wake-up is lost.
use my_nachos.Base.{
  ℕ, zero, suc, ◌<◌, ◌≡◌, inl, inr, refl, sym, ap, true, none, some, arith, ==_self, ℕ_discrete,
}
use my_nachos.Base.Checked.{assert}
use my_nachos.Threads.Lock.{
  outside, owning, leaving, System, put, is_held_by, release_drop, Step, call_acquire, pass, own,
  drop, signal, Reachable, start, after,
}
use my_nachos.Threads.Lock.Counting.{inside_of, inside}
use my_nachos.Threads.Lock.Fair.{
  IsFair, alone, call_acquire-IsFair, acquire_own-IsFair, release_drop-IsFair, acquire_pass-IsFair,
  release_v-IsFair,
}

Step-IsFair : (n : ℕ) {s s' : System} → IsFair n s → Step n s s' → IsFair n s'
Step-IsFair n {s = s} fair (call_acquire t ht e) = call_acquire-IsFair n t s fair ht e
Step-IsFair n {s = s} fair (pass t ht e) = acquire_pass-IsFair n t s fair ht e
Step-IsFair n {s = s} fair (own t ht e) = acquire_own-IsFair n t s fair ht e
Step-IsFair n {s = s} {s' = s'} fair (drop t _ ht e run) =
    release_drop-IsFair n t s s' fair ht e run
Step-IsFair n {s = s} fair (signal t ht e) = release_v-IsFair n t s fair ht e

nobody_inside : (n : ℕ) → inside n (λ t. outside) ≡ 0
nobody_inside zero = refl
nobody_inside (suc n) = omega (arith, nobody_inside n)

-- In every state that `n` threads reach by acquiring and releasing a new lock, in any order of their steps: the semaphore's
-- value and the number of threads that have taken it add up to 1, the queue holds exactly the sleeping threads, each
-- once, a thread that owns the lock is its holder, and when the value is free and threads are asleep, some thread is
-- about to test the value.
pub Reachable-IsFair : (n : ℕ) (s : System) → Reachable n s → IsFair n s
Reachable-IsFair n s start = record {
  total = omega (arith, nobody_inside n);
  sleepers = λ t. refl;
  holder = λ t lt on. cc;
  awake = inr (inl refl);
}
Reachable-IsFair n s (after r step) = Step-IsFair n (Reachable-IsFair n _ r) step

-- Two threads never both own the lock: in every reachable state, threads below `n` that are past Acquire and have not
-- called Release are the same thread.
pub Reachable-exclusion :
    (n t u : ℕ) (s : System)
    → Reachable n s
    → t < n
    → u < n
    → s.stages t ≡ owning
    → s.stages u ≡ owning
    → t ≡ u
Reachable-exclusion n t u s r ht hu on_t on_u = elim (ℕ_discrete u t) [
  | yes same ↦ sym same
  | no other ↦ absurd (alone n t s (Reachable-IsFair n s r) ht (ap inside_of on_t) u hu other on_u)
]

-- The ASSERT of Release passes: in every reachable state, a thread past Acquire can release the lock.
pub release_drop-succeeds :
    (n t : ℕ) (s : System)
    → Reachable n s
    → t < n
    → s.stages t ≡ owning
    → (s' : System) × (release_drop t s ≡ some s') × Reachable n s'
unfolding release_drop assert
release_drop-succeeds n t s r ht on =
    let held : is_held_by t s.lock_holder ≡ true =
      rw ((Reachable-IsFair n s r).holder t ht on, ==_self t) refl in
    let run : release_drop t s
        ≡ some (record s { lock_holder = none; stages = put t leaving s.stages }) =
      rw held refl in
    (
      record s { lock_holder = none; stages = put t leaving s.stages },
      run,
      after r (drop t _ ht on run),
    )
