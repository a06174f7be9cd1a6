-- ===== src/Threads/Condition/Broadcast.antt =====
-- `Broadcast` wakes every waiter.
use my_nachos.Base.{
  ℕ, zero, suc, ◌+◌, ◌<◌, ◌≡◌, refl, ◌∙◌, true, false, some, List, [], ◌∷◌, if◌then◌else◌, ◌==◌,
  arith, length, ==_iff, Bool-cases, inl, inr,
}
use my_nachos.Base.Checked.{assert}
use my_nachos.Containers.Sequence.{member}
use my_nachos.Threads.Lock.{Semaphore, v, is_held_by}
use my_nachos.Threads.Condition.{Monitor, set_queue, wake_first, signal, broadcast}

-- No semaphore stands in the queue twice.
abbrev pub Different : List ℕ → Type 0
Different [] = Unit
Different (w ∷ ws) = (member w ws ≡ false) × Different ws

-- Each waiter has been signalled once, nobody else, and nobody waits any more.
pub record Wakes (ws : List ℕ) (m m' : Monitor) : Type 0 where
  pub queue_is : m'.condition.wait_queue ≡ []
  pub barrier_is : m'.condition.barrier_num ≡ m.condition.barrier_num
  pub holder_is : m'.lock_holder ≡ m.lock_holder
  pub value_is :
      (w : ℕ) → (m'.semaphores w).value ≡ (m.semaphores w).value + (if member w ws then 1 else 0)

v-queue : (n : ℕ) (q : List ℕ) → (v (record { value = n; queue = q })).0.value ≡ n + 1
unfolding v
v-queue n [] = refl
v-queue n (t ∷ q) = refl

v-value : (s : Semaphore) → (v s).0.value ≡ s.value + 1
v-value s = v-queue s.value s.queue

-- Broadcast on a queue with fuel for each waiter.
broadcast-queue :
    (n t : ℕ) (m : Monitor) (ws : List ℕ)
    → m.condition.wait_queue ≡ ws
    → is_held_by t m.lock_holder ≡ true
    → Different ws
    → length ws < n
    → (m' : Monitor) × (broadcast n t m ≡ some m') × Wakes ws m m'
unfolding broadcast signal assert set_queue
broadcast-queue zero t m ws here held d lt = absurd (omega arith)
broadcast-queue (suc n) t m [] here held d lt = (
  m,
  rw here refl,
  record { queue_is = here; barrier_is = refl; holder_is = refl; value_is = λ w. omega arith },
)
broadcast-queue (suc n) t m (w ∷ ws) here held (new, d) lt =
    let m₁ = wake_first (w ∷ ws) m in
    let (m', run, r) = broadcast-queue n t m₁ ws refl held d (omega arith) in
    (
      m',
      rw (here, held) run,
      record {
        queue_is = r.queue_is;
        barrier_is = r.barrier_is;
        holder_is = r.holder_is;
        value_is = λ u. r.value_is u ∙ once u;
      },
    )
  where
    once :
        (u : ℕ)
        → ((wake_first (w ∷ ws) m).semaphores u).value + (if member u ws then 1 else 0)
          ≡ (m.semaphores u).value + (if member u (w ∷ ws) then 1 else 0)
    once u = elim (Bool-cases (u == w)) [
      | inl e ↦
          let u_is = (==_iff u w).0 e in rw (e, u_is, new) (omega (arith, v-value (m.semaphores w)))
      | inr e ↦ rw e refl
    ]

-- Broadcast by the holder of the lock, on a queue where no semaphore stands twice and with fuel for each waiter, ends: no ASSERT
-- fails, nobody waits any more, the semaphore of each waiter has been raised by one and no other semaphore has changed its value.
pub broadcast-Wakes :
    (n t : ℕ) (m : Monitor)
    → is_held_by t m.lock_holder ≡ true
    → Different m.condition.wait_queue
    → length m.condition.wait_queue < n
    → (m' : Monitor) × (broadcast n t m ≡ some m') × Wakes m.condition.wait_queue m m'
broadcast-Wakes n t m held d lt = broadcast-queue n t m m.condition.wait_queue refl held d lt
