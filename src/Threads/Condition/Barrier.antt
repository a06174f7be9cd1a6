-- ===== src/Threads/Condition/Barrier.antt =====
-- `Barrier`: it opens for the fifth arrival, and never again.
use my_nachos.Base.{
  ℕ, suc, ◌+◌, ◌<◌, ◌≤◌, ◌≡◌, ◌≢◌, refl, sym, subst, ap, ◌∙◌, true, false, Option, none, some, List,
  [], ◌∷◌, ◌++◌, ◌⊎◌, if◌then◌else◌, ◌==◌, arith, length, ==_self, ==_of_ne, inl, inr,
}
use my_nachos.Base.Checked.{◌>>=◌, ◌>>◌, assert}
use my_nachos.Containers.Sequence.{member, append_item}
use my_nachos.Threads.Condition.{
  Monitor, barrier_size, set_semaphore, set_queue, acquire, release, wait, barrier, is_held_by,
}
use my_nachos.Threads.Condition.Broadcast.{Different, broadcast-Wakes}

-- A thread's arrival: it acquires the lock and calls Barrier, with the semaphore that is allocated if it waits.
abbrev pub arrive : ℕ → ℕ × ℕ → Monitor → Option Monitor
arrive n (t, w) m = acquire t m >>= barrier n t w

abbrev pub arrivals : ℕ → List (ℕ × ℕ) → Monitor → Option Monitor
arrivals n [] m = some m
arrivals n (a ∷ xs) m = arrive n a m >>= arrivals n xs

abbrev pub waiters : List (ℕ × ℕ) → List ℕ
waiters [] = []
waiters ((t, w) ∷ xs) = w ∷ waiters xs

-- The semaphores of the arrivals are new, and differ from each other.
abbrev pub AreNew : List ℕ → List ℕ → Type 0
AreNew ws [] = Unit
AreNew ws (u ∷ us) = (member u ws ≡ false) × AreNew (ws ++ (u ∷ [])) us

-- The arrivals wait, in their order, and the lock is free.
pub record Queued (xs : List (ℕ × ℕ)) (m m' : Monitor) : Type 0 where
  pub queue_is : m'.condition.wait_queue ≡ m.condition.wait_queue ++ waiters xs
  pub barrier_is : m'.condition.barrier_num ≡ m.condition.barrier_num + length xs
  pub holder_is : m'.lock_holder ≡ none

-- The state after an arrival that waits.
waiting : ℕ → Monitor → Monitor
waiting w m = record {
  condition = record {
    wait_queue = m.condition.wait_queue ++ (w ∷ []);
    barrier_num = m.condition.barrier_num + 1;
  };
  lock_holder = none;
  semaphores = set_semaphore w (record { value = 0; queue = [] }) m.semaphores;
}

arrive-waiting :
    (n t w : ℕ) (m : Monitor)
    → m.lock_holder ≡ none
    → member w m.condition.wait_queue ≡ false
    → m.condition.barrier_num + 1 ≢ barrier_size
    → arrive n (t, w) m ≡ some (waiting w m)
unfolding waiting acquire barrier wait release append_item set_queue assert
arrive-waiting n t w m free new ne =
    rw (free, ==_of_ne (m.condition.barrier_num + 1) barrier_size ne, ==_self t, new) refl

append_assoc : (xs : List ℕ) (w : ℕ) (ys : List ℕ) → (xs ++ (w ∷ [])) ++ ys ≡ xs ++ (w ∷ ys)
append_assoc [] w ys = refl
append_assoc (x ∷ xs) w ys = ap (x ∷◌) (append_assoc xs w ys)

-- Arrivals at a barrier with the lock free and new semaphores, when they are too few for the fifth arrival or more than four have been before:
-- no ASSERT fails, and every one of them waits, in their order.
arrivals-Queued :
    (n : ℕ) (xs : List (ℕ × ℕ)) (m : Monitor)
    → m.lock_holder ≡ none
    → AreNew m.condition.wait_queue (waiters xs)
    → (m.condition.barrier_num + length xs < barrier_size)
      ⊎ (barrier_size ≤ m.condition.barrier_num)
    → (m' : Monitor) × (arrivals n xs m ≡ some m') × Queued xs m m'
unfolding waiting
arrivals-Queued n [] m free new far = (
  m,
  refl,
  record {
    queue_is = sym (append_nil m.condition.wait_queue);
    barrier_is = omega arith;
    holder_is = free;
  },
)
  where
    append_nil : (xs : List ℕ) → xs ++ [] ≡ xs
    append_nil [] = refl
    append_nil (x ∷ xs) = ap (x ∷◌) (append_nil xs)
arrivals-Queued n ((t, w) ∷ xs) m free (new, rest) far =
    let (m', run, r) = arrivals-Queued n xs (waiting w m) refl rest (still far) in
    (
      m',
      rw (arrive-waiting n t w m free new (not_fifth far)) run,
      record {
        queue_is = r.queue_is ∙ append_assoc m.condition.wait_queue w (waiters xs);
        barrier_is = omega (arith, r.barrier_is);
        holder_is = r.holder_is;
      },
    )
  where
    still :
        (m.condition.barrier_num + suc (length xs) < barrier_size)
          ⊎ (barrier_size ≤ m.condition.barrier_num)
        → (m.condition.barrier_num + 1 + length xs < barrier_size)
          ⊎ (barrier_size ≤ m.condition.barrier_num + 1)
    still (inl lt) = inl (omega arith)
    still (inr le) = inr (omega arith)

    not_fifth :
        (m.condition.barrier_num + suc (length xs) < barrier_size)
          ⊎ (barrier_size ≤ m.condition.barrier_num)
        → m.condition.barrier_num + 1 ≢ barrier_size
    not_fifth (inl lt) e = omega arith
    not_fifth (inr le) e = omega arith

-- The fifth arrival, with the lock free, no semaphore twice in the queue and fuel for each waiter: no ASSERT fails, it holds the lock, nobody waits
-- any more, and the semaphore of each waiter has been raised by one, so that its P does not sleep.
pub arrive-Wakes :
    (n t w : ℕ) (m : Monitor)
    → m.lock_holder ≡ none
    → m.condition.barrier_num + 1 ≡ barrier_size
    → Different m.condition.wait_queue
    → length m.condition.wait_queue < n
    → (m' : Monitor) × (arrive n (t, w) m ≡ some m')
      × (m'.lock_holder ≡ some t)
      × (m'.condition.wait_queue ≡ [])
      × ((u : ℕ)
          → (m'.semaphores u).value
            ≡ (m.semaphores u).value + (if member u m.condition.wait_queue then 1 else 0))
unfolding acquire barrier assert
arrive-Wakes n t w m free fifth d lt =
    let m₁ : Monitor = record {
      condition = record {
        wait_queue = m.condition.wait_queue;
        barrier_num = m.condition.barrier_num + 1;
      };
      lock_holder = some t;
      semaphores = m.semaphores;
    } in
    let (m', run, r) = broadcast-Wakes n t m₁ (==_self t) d lt in
    let hit : (m.condition.barrier_num + 1 == barrier_size) ≡ true =
      rw fifth (==_self barrier_size) in
    (m', rw (free, hit) run, r.holder_is, r.queue_is, r.value_is)

-- The fifth arrival as above, its Release of the lock, and then any number of arrivals with new semaphores, five and more included: no ASSERT fails, the
-- later arrivals all wait, in their order, and nobody is left to open the barrier: it opens only once.
pub arrivals-arrive :
    (n t w : ℕ) (xs : List (ℕ × ℕ)) (m : Monitor)
    → m.lock_holder ≡ none
    → m.condition.barrier_num + 1 ≡ barrier_size
    → Different m.condition.wait_queue
    → length m.condition.wait_queue < n
    → AreNew [] (waiters xs)
    → (m' : Monitor) × ((arrive n (t, w) m >>= λ k. release t k >>= arrivals n xs) ≡ some m')
      × (m'.condition.wait_queue ≡ waiters xs)
      × (m'.lock_holder ≡ none)
unfolding acquire barrier release assert
arrivals-arrive n t w xs m free fifth d lt new =
    let m₁ : Monitor = record {
      condition = record {
        wait_queue = m.condition.wait_queue;
        barrier_num = m.condition.barrier_num + 1;
      };
      lock_holder = some t;
      semaphores = m.semaphores;
    } in
    let (m₂, run, r) = broadcast-Wakes n t m₁ (==_self t) d lt in
    let hit : (m.condition.barrier_num + 1 == barrier_size) ≡ true =
      rw fifth (==_self barrier_size) in
    let opened : arrive n (t, w) m ≡ some m₂ = rw (free, hit) run in
    let m₃ : Monitor = record m₂ { lock_holder = none } in
    let released : release t m₂ ≡ some m₃ =
      ap (λ o. assert (is_held_by t o) >> some m₃) r.holder_is ∙ rw (==_self t) refl in
    let (m', ran, q) =
      arrivals-Queued n xs m₃ refl (subst (λ ws. AreNew ws (waiters xs)) (sym r.queue_is) new)
        (inr (omega (arith, r.barrier_is, fifth))) in
    (
      m',
      ap (λ o. o >>= λ k. release t k >>= arrivals n xs) opened
          ∙ ap (λ o. o >>= arrivals n xs) released
          ∙ ran,
      q.queue_is ∙ ap (λ ws. ws ++ waiters xs) r.queue_is,
      q.holder_is,
    )
