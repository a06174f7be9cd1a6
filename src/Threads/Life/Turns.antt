-- ===== src/Threads/Life/Turns.antt =====
-- Yield under first come first served: every ready thread gets its turn.
use my_nachos.Base.{
  ℕ, zero, suc, ◌+◌, ◌<◌, ◌≤◌, ◌≡◌, refl, sym, ap, ◌∙◌, subst, true, false, Option, none, some,
  List, [], ◌∷◌, ◌++◌, if◌then◌else◌, ◌==◌, arith, length, length-append, get_or, Bool-cases, inl,
  inr,
}
use my_nachos.Base.Checked.{◌>>=◌, assert}
use my_nachos.Threads.Scheduler.{
  first_come, Thread, running, ready, is_in, append, enqueue, make_ready, ready_to_run, take_next,
  find_next_to_run, remove_front,
}
use my_nachos.Threads.Scheduler.Ready.{is_in-status}
use my_nachos.Threads.Life.{System, run, check_to_be_destroyed, switch_to, yield}

-- No two threads of the list have the same number.
abbrev pub Different : List Thread → Type 0
Different [] = Unit
Different (t ∷ ts) = (is_in t ts ≡ false) × Different ts

abbrev pub Absent : List Thread → List Thread → Type 0
Absent bs [] = Unit
Absent bs (t ∷ ts) = (is_in t bs ≡ false) × Absent bs ts

abbrev pub tids : List Thread → List ℕ
tids [] = []
tids (t ∷ ts) = t.tid ∷ tids ts

-- The running thread and the ready ones are different, not blocked, and none waits to be deleted.
pub record IsTurning (k : System) : Type 0 where
  pub different : Different (k.current ∷ k.scheduler.ready_list)
  pub awake : Absent k.scheduler.block_list (k.current ∷ k.scheduler.ready_list)
  pub nobody : k.to_be_destroyed ≡ none

-- One thread after the other yields.
abbrev pub yields : ℕ → System → Option System
yields zero k = some k
yields (suc n) k = yield first_come k >>= yields n

not_first :
    (t x : Thread) (xs : List Thread)
    → is_in t (x ∷ xs) ≡ false
    → ((x.tid == t.tid) ≡ false) × (is_in t xs ≡ false)
not_first t x xs h = elim (Bool-cases (x.tid == t.tid)) [
  | inl e ↦
      let bad : true ≡ false = subst (λ b. (if b then true else is_in t xs) ≡ false) e h in
      absurd (cc)
  | inr e ↦ (e, subst (λ b. (if b then true else is_in t xs) ≡ false) e h)
]

is_in-append_other :
    (t c : Thread) (ts : List Thread)
    → is_in t ts ≡ false
    → (c.tid == t.tid) ≡ false
    → is_in t (ts ++ (c ∷ [])) ≡ false
is_in-append_other t c [] h ne = rw ne refl
is_in-append_other t c (x ∷ xs) h ne =
    let (nx, rest) = not_first t x xs h in rw nx (is_in-append_other t c xs rest ne)

flip : (a b : ℕ) → (a == b) ≡ false → (b == a) ≡ false
flip a b e = ground arith

Different-append :
    (c : Thread) (ts : List Thread) → Different ts → is_in c ts ≡ false → Different (ts ++ (c ∷ []))
Different-append c [] d h = (refl, tt)
Different-append c (x ∷ xs) (dx, d) h =
    let (nx, rest) = not_first c x xs h in
    (is_in-append_other x c xs dx (flip x.tid c.tid nx), Different-append c xs d rest)

Absent-append :
    (bs : List Thread) (c : Thread) (ts : List Thread)
    → Absent bs ts
    → is_in c bs ≡ false
    → Absent bs (ts ++ (c ∷ []))
Absent-append bs c [] a h = (h, tt)
Absent-append bs c (x ∷ xs) (ax, a) h = (ax, Absent-append bs c xs a h)

tids-append : (ts us : List Thread) → tids (ts ++ us) ≡ tids ts ++ tids us
tids-append [] us = refl
tids-append (t ∷ ts) us = ap (t.tid ∷◌) (tids-append ts us)

get_or-append : (xs ys : List ℕ) (i d : ℕ) → i < length xs → get_or (xs ++ ys) i d ≡ get_or xs i d
get_or-append [] ys i d h = absurd (omega arith)
get_or-append (x ∷ xs) ys zero d h = refl
get_or-append (x ∷ xs) ys (suc i) d h = get_or-append xs ys i d (omega arith)

-- The system after a thread has yielded to `t`, the first of the ready list.
turned : System → Thread → List Thread → System
turned k t ts = record k {
  scheduler = record k.scheduler { ready_list = ts ++ (record k.current { status = ready } ∷ []) };
  current = record t { status = running };
  interrupts_on = false;
}

yield-turned :
    (k : System) (t : Thread) (ts : List Thread)
    → k.scheduler.ready_list ≡ t ∷ ts
    → IsTurning k
    → yield first_come k ≡ some (turned k t ts)
unfolding yield find_next_to_run take_next remove_front ready_to_run make_ready enqueue append
    switch_to run check_to_be_destroyed assert turned
yield-turned k t ts here turning =
    let none_blocked = turning.awake.0 in
    let apart : is_in k.current (t ∷ ts) ≡ false =
      subst (λ xs. is_in k.current xs ≡ false) here turning.different.0 in
    let (nt, absent) = not_first k.current t ts apart in
    rw (here, none_blocked, is_in-status ready k.current ts, absent, turning.nobody) refl

turned-IsTurning :
    (k : System) (t : Thread) (ts : List Thread)
    → k.scheduler.ready_list ≡ t ∷ ts
    → IsTurning k
    → IsTurning (turned k t ts)
unfolding turned
turned-IsTurning k t ts here turning =
    let c : Thread = record k.current { status = ready } in
    let apart : is_in k.current (t ∷ ts) ≡ false =
      subst (λ xs. is_in k.current xs ≡ false) here turning.different.0 in
    let (nt, absent) = not_first k.current t ts apart in
    let (dt, d) = subst Different here turning.different.1 in
    let (at, a) = subst (Absent k.scheduler.block_list) here turning.awake.1 in
    record {
      different = (
        is_in-status running t (ts ++ (c ∷ []))
            ∙ is_in-append_other t c ts dt (flip t.tid k.current.tid nt),
        Different-append c ts d (is_in-status ready k.current ts ∙ absent),
      );
      awake = (
        is_in-status running t k.scheduler.block_list ∙ at,
        Absent-append k.scheduler.block_list c ts a
            (is_in-status ready k.current k.scheduler.block_list ∙ turning.awake.0),
      );
      nobody = turning.nobody;
    }

length-tids : (ts : List Thread) → length (tids ts) ≡ length ts
length-tids [] = refl
length-tids (t ∷ ts) = ap suc (length-tids ts)

-- The numbers of the threads in the order of their turns: the ready ones, then the running one.
abbrev pub order : System → List ℕ
order k = tids k.scheduler.ready_list ++ (k.current.tid ∷ [])

-- With nobody ready, Yield returns to its caller.
yield-alone :
    (k : System)
    → k.scheduler.ready_list ≡ []
    → (k' : System) × (yield first_come k ≡ some k') × (k'.current ≡ k.current)
unfolding yield find_next_to_run take_next remove_front assert
yield-alone k here = rw here (_, refl, refl)

order-turned :
    (k : System) (t : Thread) (ts : List Thread) (i : ℕ)
    → k.scheduler.ready_list ≡ t ∷ ts
    → i < length ts + 1
    → get_or (order (turned k t ts)) i 0 ≡ get_or (order k) (suc i) 0
unfolding turned
order-turned k t ts i here lt =
    let c : Thread = record k.current { status = ready } in
    let same : tids (ts ++ (c ∷ [])) ≡ tids ts ++ (k.current.tid ∷ []) = tids-append ts (c ∷ []) in
    get_or-append (tids (ts ++ (c ∷ []))) (t.tid ∷ []) i 0
      (omega (arith, length-tids (ts ++ (c ∷ [])), length-append ts (c ∷ [])))
    ∙ ap (λ xs. get_or xs i 0) same
    ∙ ap (λ rs. get_or (tids rs ++ (k.current.tid ∷ [])) (suc i) 0) (sym here)

turned-tid : (k : System) (t : Thread) (ts : List Thread) → (turned k t ts).current.tid ≡ t.tid
unfolding turned
turned-tid k t ts = refl

length-turned :
    (k : System) (t : Thread) (ts : List Thread) {i : ℕ}
    → i ≤ length ts + 1
    → i ≤ length (turned k t ts).scheduler.ready_list
unfolding turned
length-turned k t ts le = omega (arith, length-append ts (record k.current { status = ready } ∷ []))

-- Under first come first served, with the running and the ready threads all different, not blocked and nobody waiting to be
-- deleted: when one thread after the other yields, no ASSERT fails, and the yield after `i` others, `i` at most the number of ready threads,
-- brings the turn of the thread that stood at place `i` of the ready list, and the running thread again after all of them.
pub yields-order :
    (i : ℕ) (k : System)
    → IsTurning k
    → i ≤ length k.scheduler.ready_list
    → (k' : System) × (yields (suc i) k ≡ some k') × (k'.current.tid ≡ get_or (order k) i 0)
yields-order zero k turning le = go k.scheduler.ready_list refl
  where
    go :
        (rs : List Thread)
        → k.scheduler.ready_list ≡ rs
        → (k' : System) × (yields 1 k ≡ some k') × (k'.current.tid ≡ get_or (order k) 0 0)
    go [] here =
        let (k', run, same) = yield-alone k here in
        (
          k',
          rw run refl,
          ap (λ c. c.tid) same ∙ ap (λ rs. get_or (tids rs ++ (k.current.tid ∷ [])) 0 0) (sym here),
        )
    go (t ∷ ts) here = (
      turned k t ts,
      rw (yield-turned k t ts here turning) refl,
      turned-tid k t ts ∙ ap (λ rs. get_or (tids rs ++ (k.current.tid ∷ [])) 0 0) (sym here),
    )
yields-order (suc i) k turning le = go k.scheduler.ready_list refl (yields-order i)
  where
    go :
        (rs : List Thread)
        → k.scheduler.ready_list ≡ rs
        → ((k₁ : System)
            → IsTurning k₁
            → i ≤ length k₁.scheduler.ready_list
            → (k' : System) × (yields (suc i) k₁ ≡ some k')
              × (k'.current.tid ≡ get_or (order k₁) i 0))
        → (k' : System) × (yields (suc (suc i)) k ≡ some k')
          × (k'.current.tid ≡ get_or (order k) (suc i) 0)
    go [] here ih = absurd (omega (arith, ap (λ rs. length rs) here))
    go (t ∷ ts) here ih =
        let size = ap (λ rs. length rs) here in
        let (k', run, is) =
          ih (turned k t ts) (turned-IsTurning k t ts here turning)
            (length-turned k t ts (omega arith)) in
        (
          k',
          rw (yield-turned k t ts here turning) run,
          is ∙ order-turned k t ts i here (omega arith),
        )
