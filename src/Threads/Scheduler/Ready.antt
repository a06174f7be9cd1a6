-- ===== src/Threads/Scheduler/Ready.antt =====
-- code/threads/scheduler.cc: which thread runs next.
use my_nachos.Base.{
  ℕ, ◌+◌, ◌≤◌, true, ◌≡◌, inl, inr, refl, ap, sym, subst, ◌∙◌, false, Option, none, some, List, [],
  ◌∷◌, if◌then◌else◌, ltb, ◌==◌, arith, Bool-cases,
}
use my_nachos.Base.Checked.{◌>>=◌, assert}
use my_nachos.Threads.Scheduler.{
  by_priority, Thread, ThreadStatus, ready, Scheduler, is_in, remove_thread, take_out,
  insert_sorted, enqueue, make_ready, ready_to_run, take_next, remove_front, find_next_to_run,
}

-- Every thread of a list has at least the priority `p`.
pub data AtLeast (p : ℕ) : List Thread → Type 0 where
  nothing : AtLeast p []
  more : {t : Thread} {ts : List Thread} → p ≤ t.priority → AtLeast p ts → AtLeast p (t ∷ ts)

pub data IsSorted : List Thread → Type 0 where
  empty : IsSorted []
  ahead : {t : Thread} {ts : List Thread} → AtLeast t.priority ts → IsSorted ts → IsSorted (t ∷ ts)

AtLeast-trans : (p q : ℕ) (ts : List Thread) → p ≤ q → AtLeast q ts → AtLeast p ts
AtLeast-trans p q [] h nothing = nothing
AtLeast-trans p q (t ∷ ts) h (more at rest) = more (omega arith) (AtLeast-trans p q ts h rest)

AtLeast-insert_sorted :
    (p : ℕ) (t : Thread) (ts : List Thread)
    → p ≤ t.priority
    → AtLeast p ts
    → AtLeast p (insert_sorted t ts)
unfolding insert_sorted
AtLeast-insert_sorted p t [] h nothing = more h nothing
AtLeast-insert_sorted p t (x ∷ xs) h (more at rest) =
    elim (Bool-cases (ltb t.priority x.priority)) [
      | inl lower ↦ rw lower (more h (more at rest))
      | inr higher ↦ rw higher (more at (AtLeast-insert_sorted p t xs h rest))
    ]

insert_sorted-IsSorted :
    (t : Thread) (ts : List Thread) → IsSorted ts → IsSorted (insert_sorted t ts)
unfolding insert_sorted
insert_sorted-IsSorted t [] empty = ahead nothing empty
insert_sorted-IsSorted t (x ∷ xs) (ahead least rest) =
    elim (Bool-cases (ltb t.priority x.priority)) [
      | inl lower ↦
          let le : t.priority ≤ x.priority = ground (arith, lower) in
          rw lower
            (ahead (more le (AtLeast-trans t.priority x.priority xs le least)) (ahead least rest))
      | inr higher ↦
          let le : x.priority ≤ t.priority = ground (arith, higher) in
          rw higher (
            ahead (AtLeast-insert_sorted x.priority t xs le least)
              (insert_sorted-IsSorted t xs rest))
    ]

-- How often a thread's number stands in a list.
abbrev pub times : ℕ → List Thread → ℕ
times n [] = 0
times n (x ∷ xs) = (if x.tid == n then 1 else 0) + times n xs

times-insert_sorted :
    (n : ℕ) (t : Thread) (ts : List Thread)
    → times n (insert_sorted t ts) ≡ (if t.tid == n then 1 else 0) + times n ts
unfolding insert_sorted
times-insert_sorted n t [] = refl
times-insert_sorted n t (x ∷ xs) = elim (Bool-cases (ltb t.priority x.priority)) [
  | inl lower ↦ rw lower refl
  | inr higher ↦ rw higher (omega (arith, times-insert_sorted n t xs))
]

pub is_in-status :
    (st : ThreadStatus) (t : Thread) (xs : List Thread)
    → is_in (record t { status = st }) xs ≡ is_in t xs
is_in-status st t [] = refl
is_in-status st t (x ∷ xs) = rw (is_in-status st t xs) refl

-- The scheduler after ReadyToRun under priorities.
made_ready : Thread → Scheduler → Scheduler
made_ready t s = record s {
  block_list = if is_in t s.block_list then remove_thread t s.block_list else s.block_list;
  sorted_ready_list = insert_sorted (record t { status = ready }) s.sorted_ready_list;
}

ready-made_ready :
    (t : Thread) (s : Scheduler)
    → is_in t s.sorted_ready_list ≡ false
    → is_in t (remove_thread t s.block_list) ≡ false
    → ready_to_run by_priority true t s ≡ some (made_ready t s)
unfolding made_ready ready_to_run make_ready enqueue assert take_out
ready-made_ready t s absent once = elim (Bool-cases (is_in t s.block_list)) [
  | inl there ↦ rw (there, once, is_in-status ready t s.sorted_ready_list, absent) refl
  | inr gone ↦ rw (gone, is_in-status ready t s.sorted_ready_list, absent) refl
]

-- Under priorities, ReadyToRun of a thread that is not on the sorted ready list and at most once on the block list: with interrupts
-- enabled the ASSERT on the level fails; with interrupts disabled every ASSERT passes, that thread and no other is added to the list, and the
-- list stays sorted.
pub ready_to_run-IsSorted :
    (t : Thread) (s : Scheduler)
    → IsSorted s.sorted_ready_list
    → is_in t s.sorted_ready_list ≡ false
    → is_in t (remove_thread t s.block_list) ≡ false
    → (ready_to_run by_priority false t s ≡ none)
      × ((s' : Scheduler) × (ready_to_run by_priority true t s ≡ some s')
          × IsSorted s'.sorted_ready_list
          × ((n : ℕ)
              → times n s'.sorted_ready_list
                ≡ (if t.tid == n then 1 else 0) + times n s.sorted_ready_list))
unfolding made_ready ready_to_run assert
ready_to_run-IsSorted t s sorted absent once =
    let t' : Thread = record t { status = ready } in
    (
      refl,
      (
        made_ready t s,
        ready-made_ready t s absent once,
        insert_sorted-IsSorted t' s.sorted_ready_list sorted,
        λ n. times-insert_sorted n t' s.sorted_ready_list,
      ),
    )

AtLeast-inserted :
    (p : ℕ) (t : Thread) (ts : List Thread)
    → AtLeast p (insert_sorted t ts)
    → (p ≤ t.priority) × AtLeast p ts
unfolding insert_sorted
AtLeast-inserted p t [] (more at rest) = (at, nothing)
AtLeast-inserted p t (x ∷ xs) least = elim (Bool-cases (ltb t.priority x.priority)) [
  | inl lower ↦
      first (subst (λ b. AtLeast p (if b then t ∷ x ∷ xs else x ∷ insert_sorted t xs)) lower least)
  | inr higher ↦
      later (subst (λ b. AtLeast p (if b then t ∷ x ∷ xs else x ∷ insert_sorted t xs)) higher least)
        (AtLeast-inserted p t xs)
]
  where
    first : AtLeast p (t ∷ x ∷ xs) → (p ≤ t.priority) × AtLeast p (x ∷ xs)
    first (more at rest) = (at, rest)

    later :
        AtLeast p (x ∷ insert_sorted t xs)
        → (AtLeast p (insert_sorted t xs) → (p ≤ t.priority) × AtLeast p xs)
        → (p ≤ t.priority) × AtLeast p (x ∷ xs)
    later (more at rest) below = let (le, others) = below rest in (le, more at others)

-- What FindNextToRun finds when `t` has been made ready among the threads `ts`.
pub record Preferred (t : Thread) (ts : List Thread) (u : Thread) (rest : List Thread)
    : Type 0 where
  pub before : u.priority ≤ t.priority
  pub least : AtLeast u.priority ts
  pub sorted : IsSorted rest
  pub others :
      (n : ℕ)
      → (if u.tid == n then 1 else 0) + times n rest ≡ (if t.tid == n then 1 else 0) + times n ts

Preferred-inserted :
    (t u : Thread) (ts rest : List Thread)
    → IsSorted ts
    → insert_sorted t ts ≡ u ∷ rest
    → Preferred t ts u rest
Preferred-inserted t u ts rest sorted e = go (subst IsSorted e (insert_sorted-IsSorted t ts sorted))
  where
    go : IsSorted (u ∷ rest) → Preferred t ts u rest
    go (ahead least tail_sorted) =
        let all : AtLeast u.priority (insert_sorted t ts) =
          subst (AtLeast u.priority) (sym e) (more le_refl least) in
        let (le, others) = AtLeast-inserted u.priority t ts all in
        record {
          before = le;
          least = others;
          sorted = tail_sorted;
          others = λ n. sym (ap (times n) e) ∙ times-insert_sorted n t ts;
        }
      where
        le_refl : u.priority ≤ u.priority
        le_refl = omega arith

inserted-cases :
    (t : Thread) (ts : List Thread)
    → (u : Thread) × (rest : List Thread) × (insert_sorted t ts ≡ u ∷ rest)
unfolding insert_sorted
inserted-cases t [] = (t, [], refl)
inserted-cases t (x ∷ xs) = elim (Bool-cases (ltb t.priority x.priority)) [
  | inl lower ↦ (t, x ∷ xs, rw lower refl)
  | inr higher ↦ (x, insert_sorted t xs, rw higher refl)
]

-- FindNextToRun after ReadyToRun, under priorities with interrupts disabled and the ready list sorted, of a thread that is not on that list and
-- at most once on the block list: every ASSERT passes; the thread found has the smallest priority number of that thread and the ready ones;
-- the others stay on the list, no thread is lost or doubled, and the list stays sorted.
pub find_next_to_run-ready_to_run :
    (t : Thread) (s : Scheduler)
    → IsSorted s.sorted_ready_list
    → is_in t s.sorted_ready_list ≡ false
    → is_in t (remove_thread t s.block_list) ≡ false
    → (u : Thread) × (s' : Scheduler) × ((ready_to_run by_priority true t s
          >>= find_next_to_run by_priority true)
        ≡ some (some u, s'))
      × Preferred t s.sorted_ready_list u s'.sorted_ready_list
unfolding made_ready find_next_to_run take_next remove_front assert
find_next_to_run-ready_to_run t s sorted absent once =
    let t' : Thread = record t { status = ready } in
    let (u, us, e) = inserted-cases t' s.sorted_ready_list in
    let found = Preferred-inserted t' u s.sorted_ready_list us sorted e in
    (
      u,
      record (made_ready t s) { sorted_ready_list = us },
      ap (λ r. r >>= find_next_to_run by_priority true) (ready-made_ready t s absent once)
          ∙ ap (λ ts. found_in ts) e,
      record {
        before = found.before;
        least = found.least;
        sorted = found.sorted;
        others = found.others;
      },
    )
  where
    found_in : List Thread → Option (Option Thread × Scheduler)
    found_in ts =
        let (v, rest) = remove_front ts in
        some (v, record (made_ready t s) { sorted_ready_list = rest })
