-- ===== src/Tests/Locks.antt =====
-- code/threads/synch.cc: one of two threads takes a new lock.
use my_nachos.Base.{ℕ, ◌≡◌, refl, some, arith}
use my_nachos.Threads.Lock.{
  p_pass, trying, owning, System, put, new_lock, acquire_pass, acquire_own, release_drop,
  call_acquire, pass, own, Reachable, start, after,
}
use my_nachos.Threads.Lock.Fair.{IsFair}
use my_nachos.Threads.Lock.Exclusion.{Reachable-IsFair, Reachable-exclusion, release_drop-succeeds}

abbrev called : System
called = record new_lock { stages = put 0 trying new_lock.stages }

abbrev taken : System
taken = acquire_own 0 (acquire_pass 0 called)

taken-Reachable : Reachable 2 taken
unfolding acquire_pass p_pass
taken-Reachable =
    after (after (after start (call_acquire 0 (omega arith) refl)) (pass 0 (omega arith) refl))
      (own 0 (omega arith) refl)

taken-owning : taken.stages 0 ≡ owning
unfolding acquire_own
taken-owning = refl

Reachable-IsFair_example : IsFair 2 taken
Reachable-IsFair_example = Reachable-IsFair 2 taken taken-Reachable

Reachable-exclusion_example : ◌≡◌ {A = ℕ} 0 0
Reachable-exclusion_example =
    Reachable-exclusion 2 0 0 taken taken-Reachable (omega arith) (omega arith) taken-owning
      taken-owning

release_drop-succeeds_example : (s' : System) × (release_drop 0 taken ≡ some s') × Reachable 2 s'
release_drop-succeeds_example =
    release_drop-succeeds 2 0 taken taken-Reachable (omega arith) taken-owning
