-- ===== src/Threads/Lock/Fair.antt =====
-- code/threads/synch.cc: the invariant of a lock, and that every step keeps it.
use my_nachos.Base.{
  ℕ, ◌+◌, ◌-◌, ◌<◌, ◌≡◌, ◌≢◌, ◌⊎◌, inl, inr, refl, sym, ap, subst, ◌∙◌, true, Option, none, some,
  List, [], ◌∷◌, ◌++◌, if◌then◌else◌, ◌==◌, arith, ==_self, ==_of_ne, ℕ_discrete, Bool-cases,
}
use my_nachos.Base.Checked.{assert}
use my_nachos.Threads.Lock.{
  p_pass, v, Stage, outside, trying, asleep, entered, owning, leaving, System, put, acquire_pass,
  acquire_own, is_held_by, release_drop, release_v,
}
use my_nachos.Threads.Lock.Counting.{
  inside_of, asleep_of, inside, occurs, occurs-append, inside-put, inside-counts, inside-two,
  put_self, put_other, inside-put_same, sleeping,
}

-- The value is out with at most one thread, the queue is the sleeping threads, each once, who owns the lock is its
-- holder, and a free value with threads asleep has somebody about to test it.
pub record IsFair (n : ℕ) (s : System) : Type 0 where
  pub total : s.semaphore.value + inside n s.stages ≡ 1
  pub sleepers : (t : ℕ) → occurs t s.semaphore.queue ≡ asleep_of (s.stages t)
  pub holder : (t : ℕ) → t < n → s.stages t ≡ owning → s.lock_holder ≡ some t
  pub awake :
      (s.semaphore.value ≡ 0) ⊎ ((s.semaphore.queue ≡ []) ⊎ ((t : ℕ) × (s.stages t ≡ trying)))

-- A change that leaves the sleeping threads alone.
sleepers-put :
    (t : ℕ) (st : Stage) (stages : ℕ → Stage) (queue : List ℕ)
    → asleep_of (stages t) ≡ asleep_of st
    → ((u : ℕ) → occurs u queue ≡ asleep_of (stages u))
    → (u : ℕ) → occurs u queue ≡ asleep_of (put t st stages u)
sleepers-put t st stages queue same old u = elim (ℕ_discrete u t) [
  | yes e ↦ rw (e, put_self t st stages) (old t ∙ same)
  | no ne ↦ rw (put_other t u st stages ne) (old u)
]

-- A change to a stage that does not own.
holder-put :
    (n t : ℕ) (st : Stage) (stages : ℕ → Stage) (h : Option ℕ)
    → st ≢ owning
    → ((u : ℕ) → u < n → stages u ≡ owning → h ≡ some u)
    → (u : ℕ) → u < n
    → put t st stages u ≡ owning
    → h ≡ some u
holder-put n t st stages h ne old u lt e = elim (ℕ_discrete u t) [
  | yes same ↦ absurd (ne (sym (put_self t st stages) ∙ ap (put t st stages) (sym same) ∙ e))
  | no other ↦ old u lt (sym (put_other t u st stages other) ∙ e)
]

-- While a thread is inside, no other thread owns.
pub alone :
    (n t : ℕ) (s : System)
    → IsFair n s
    → t < n
    → inside_of (s.stages t) ≡ 1
    → (u : ℕ) → u < n
    → u ≢ t
    → s.stages u ≢ owning
alone n t s fair ht in_t u hu ne e =
    omega
      (arith, fair.total, inside-two n t u s.stages ht hu (λ x. ne (sym x)), in_t, ap inside_of e)

pub call_acquire-IsFair :
    (n t : ℕ) (s : System)
    → IsFair n s
    → t < n
    → s.stages t ≡ outside
    → IsFair n (record s { stages = put t trying s.stages })
call_acquire-IsFair n t s fair ht e = record {
  total = omega (arith, fair.total, inside-put n t trying s.stages ht, ap inside_of e);
  sleepers = sleepers-put t trying s.stages s.semaphore.queue (ap asleep_of e) fair.sleepers;
  holder = holder-put n t trying s.stages s.lock_holder (λ x. cc) fair.holder;
  awake = inr (inr (t, put_self t trying s.stages));
}

pub acquire_own-IsFair :
    (n t : ℕ) (s : System) → IsFair n s → t < n → s.stages t ≡ entered → IsFair n (acquire_own t s)
unfolding acquire_own
acquire_own-IsFair n t s fair ht e = record {
  total = omega (arith, fair.total, inside-put n t owning s.stages ht, ap inside_of e);
  sleepers = sleepers-put t owning s.stages s.semaphore.queue (ap asleep_of e) fair.sleepers;
  holder = λ u lt on. elim (ℕ_discrete u t) [
    | yes same ↦ ap some (sym same)
    | no other ↦ absurd (
        alone n t s fair ht (ap inside_of e) u lt other
          (sym (put_other t u owning s.stages other) ∙ on))
  ];
  awake = inl (omega (arith, fair.total, inside-counts n t s.stages ht, ap inside_of e));
}

pub release_drop-IsFair :
    (n t : ℕ) (s s' : System)
    → IsFair n s
    → t < n
    → s.stages t ≡ owning
    → release_drop t s ≡ some s'
    → IsFair n s'
unfolding release_drop assert
release_drop-IsFair n t s s' fair ht e run =
    let held : is_held_by t s.lock_holder ≡ true = rw (fair.holder t ht e, ==_self t) refl in
    let dropped : record s { lock_holder = none; stages = put t leaving s.stages } ≡ s' = cc in
    subst (IsFair n) dropped (record {
      total = omega (arith, fair.total, inside-put n t leaving s.stages ht, ap inside_of e);
      sleepers = sleepers-put t leaving s.stages s.semaphore.queue (ap asleep_of e) fair.sleepers;
      holder = λ u lt on. elim (ℕ_discrete u t) [
        | yes same ↦
            let x : leaving ≡ owning =
              sym (put_self t leaving s.stages) ∙ ap (put t leaving s.stages) (sym same) ∙ on in
            cc
        | no other ↦ absurd (
            alone n t s fair ht (ap inside_of e) u lt other
              (sym (put_other t u leaving s.stages other) ∙ on))
      ];
      awake = inl (omega (arith, fair.total, inside-counts n t s.stages ht, ap inside_of e));
    })

acquire_pass-sleeps :
    (n t : ℕ) (s : System)
    → IsFair n s
    → t < n
    → s.stages t ≡ trying
    → s.semaphore.value ≡ 0
    → IsFair n (record {
      semaphore = record { value = s.semaphore.value; queue = s.semaphore.queue ++ (t ∷ []) };
      lock_holder = s.lock_holder;
      stages = put t asleep s.stages;
    })
acquire_pass-sleeps n t s fair ht e zero_value = record {
  total = omega (arith, fair.total, inside-put n t asleep s.stages ht, ap inside_of e);
  sleepers = λ u. elim (ℕ_discrete u t) [
    | yes same ↦
        rw (same, put_self t asleep s.stages)
          (omega (
            arith,
            occurs-append t s.semaphore.queue (t ∷ []),
            fair.sleepers t,
            ap asleep_of e,
            own_place t,
          ))
    | no other ↦ rw (put_other t u asleep s.stages other) (
        omega (
          arith,
          occurs-append u s.semaphore.queue (t ∷ []),
          fair.sleepers u,
          other_place u (λ x. other (sym x)),
        ))
  ];
  holder = holder-put n t asleep s.stages s.lock_holder (λ x. cc) fair.holder;
  awake = inl zero_value;
}
  where
    own_place : (u : ℕ) → occurs u (u ∷ []) ≡ 1
    own_place u = rw (==_self u) refl

    other_place : (u : ℕ) → t ≢ u → occurs u (t ∷ []) ≡ 0
    other_place u ne = rw (==_of_ne t u ne) refl

acquire_pass-takes :
    (n t : ℕ) (s : System)
    → IsFair n s
    → t < n
    → s.stages t ≡ trying
    → s.semaphore.value ≢ 0
    → IsFair n (record {
      semaphore = record { value = s.semaphore.value - 1; queue = s.semaphore.queue };
      lock_holder = s.lock_holder;
      stages = put t entered s.stages;
    })
acquire_pass-takes n t s fair ht e free = record {
  total = omega (arith, fair.total, inside-put n t entered s.stages ht, ap inside_of e, free);
  sleepers = sleepers-put t entered s.stages s.semaphore.queue (ap asleep_of e) fair.sleepers;
  holder = holder-put n t entered s.stages s.lock_holder (λ x. cc) fair.holder;
  awake = inl (omega (arith, fair.total));
}

pub acquire_pass-IsFair :
    (n t : ℕ) (s : System) → IsFair n s → t < n → s.stages t ≡ trying → IsFair n (acquire_pass t s)
unfolding acquire_pass p_pass
acquire_pass-IsFair n t s fair ht e = elim (Bool-cases (s.semaphore.value == 0)) [
  | inl none_left ↦
      rw (none_left, p_pass) (acquire_pass-sleeps n t s fair ht e (ground (arith, none_left)))
  | inr some_left ↦
      rw (some_left, p_pass) (acquire_pass-takes n t s fair ht e (ground (arith, some_left)))
]

-- V with a thread waiting.
release_v-wakes :
    (n t x : ℕ) (rest : List ℕ) (s : System)
    → IsFair n s
    → t < n
    → s.stages t ≡ leaving
    → s.semaphore.queue ≡ x ∷ rest
    → IsFair n (record {
      semaphore = record { value = s.semaphore.value + 1; queue = rest };
      lock_holder = s.lock_holder;
      stages = put x trying (put t outside s.stages);
    })
release_v-wakes n t x rest s fair ht e waiting =
    let between : ℕ → Stage = put t outside s.stages in
    let slept = sleepers-put t outside s.stages s.semaphore.queue (ap asleep_of e) fair.sleepers in
    let split = λ (u : ℕ). sym (ap (occurs u) waiting) ∙ slept u in
    let first : ◌≡◌ {A = ℕ} (if x == x then 1 else 0) 1 = rw (==_self x) refl in
    let x_asleep : between x ≡ asleep = sleeping (between x) (omega (arith, split x, first)) in
    record {
      total = omega (
        arith,
        fair.total,
        inside-put n t outside s.stages ht,
        ap inside_of e,
        inside-put_same n x trying between (ap inside_of x_asleep),
      );
      sleepers = λ u. elim (ℕ_discrete u x) [
        | yes same ↦
            rw (same, put_self x trying between)
              (omega (arith, split x, first, ap asleep_of x_asleep))
        | no other ↦
            let miss : ◌≡◌ {A = ℕ} (if x == u then 1 else 0) 0 =
              rw (==_of_ne x u (λ y. other (sym y))) refl in
            rw (put_other x u trying between other) (omega (arith, split u, miss))
      ];
      holder =
          holder-put n x trying between s.lock_holder (λ y. cc)
            (holder-put n t outside s.stages s.lock_holder (λ y. cc) fair.holder);
      awake = inr (inr (x, put_self x trying between));
    }

release_v-idle :
    (n t : ℕ) (s : System)
    → IsFair n s
    → t < n
    → s.stages t ≡ leaving
    → s.semaphore.queue ≡ []
    → IsFair n (record {
      semaphore = record { value = s.semaphore.value + 1; queue = [] };
      lock_holder = s.lock_holder;
      stages = put t outside s.stages;
    })
release_v-idle n t s fair ht e nobody = record {
  total = omega (arith, fair.total, inside-put n t outside s.stages ht, ap inside_of e);
  sleepers =
      sleepers-put t outside s.stages [] (ap asleep_of e)
        (λ u. sym (ap (occurs u) nobody) ∙ fair.sleepers u);
  holder = holder-put n t outside s.stages s.lock_holder (λ y. cc) fair.holder;
  awake = inr (inl refl);
}

List-cases : (xs : List ℕ) → (xs ≡ []) ⊎ ((x : ℕ) × (rest : List ℕ) × (xs ≡ x ∷ rest))
List-cases [] = inl refl
List-cases (x ∷ rest) = inr (x, rest, refl)

pub release_v-IsFair :
    (n t : ℕ) (s : System) → IsFair n s → t < n → s.stages t ≡ leaving → IsFair n (release_v t s)
unfolding release_v v
release_v-IsFair n t s fair ht e = elim (List-cases s.semaphore.queue) [
  | inl nobody ↦ rw (nobody, v) (release_v-idle n t s fair ht e nobody)
  | inr (x, rest, waiting) ↦ rw (waiting, v) (release_v-wakes n t x rest s fair ht e waiting)
]
