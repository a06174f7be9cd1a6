-- ===== src/Threads/Life/Carcass.antt =====
-- A thread that has finished stays on the block list when it is deleted.
use my_nachos.Base.{
  ℕ, ◌≡◌, ◌≢◌, refl, ap, ◌∙◌, true, false, not, none, some, List, [], ◌∷◌, ◌++◌, ◌==◌, ==_self,
  ==_of_ne, Bool-cases, inl, inr,
}
use my_nachos.Base.Checked.{◌>>=◌, assert}
use my_nachos.Threads.Scheduler.{
  Policy, first_come, by_priority, round_robin, feedback, Thread, running, blocked, Scheduler,
  is_in, append, take_next, find_next_to_run,
}
use my_nachos.Threads.Scheduler.Ready.{is_in-status}
use my_nachos.Threads.Life.{
  System, exists_in, remove_a_thread, block_a_thread, run, check_to_be_destroyed, switch_to,
  sleep_start, sleep_pass, sleep_to, finish,
}

removed-exists_in : (n : ℕ) (ts : List ℕ) → exists_in n (remove_a_thread n ts) ≡ false
removed-exists_in n [] = refl
removed-exists_in n (t ∷ ts) = elim (Bool-cases (n == t)) [
  | inl e ↦ rw e (removed-exists_in n ts)
  | inr e ↦ rw (e, e) (removed-exists_in n ts)
]

is_in-append_self :
    (t u : Thread) (ts : List Thread) → u.tid ≡ t.tid → is_in t (ts ++ (u ∷ [])) ≡ true
is_in-append_self t u [] e = rw (e, ==_self t.tid) refl
is_in-append_self t u (x ∷ xs) e = elim (Bool-cases (x.tid == t.tid)) [
  | inl i ↦ rw i refl
  | inr i ↦ rw i (is_in-append_self t u xs e)
]

-- The choice of the next thread does not look at the block list.
take_next-block_list :
    (p : Policy) (s : Scheduler) (ts : List Thread)
    → take_next p (record s { block_list = ts })
      ≡ ((take_next p s).0, record (take_next p s).1 { block_list = ts })
unfolding take_next
take_next-block_list first_come s ts = refl
take_next-block_list by_priority s ts = refl
take_next-block_list round_robin s ts = refl
take_next-block_list feedback s ts = refl

blocked_system : System → System
blocked_system k = record k {
  scheduler = record k.scheduler {
    block_list = k.scheduler.block_list ++ (record k.current { status = blocked } ∷ []);
  };
  interrupts_on = false;
}

-- Before its loop Sleep puts the thread on the block list.
start-blocked_system :
    (k : System)
    → is_in k.current k.scheduler.block_list ≡ false
    → sleep_start (record k { interrupts_on = false }) ≡ some (blocked_system k)
unfolding blocked_system sleep_start block_a_thread append assert
start-blocked_system k absent =
    rw (is_in-status blocked k.current k.scheduler.block_list, absent) refl

after_pass : System → Thread → Scheduler → System
after_pass k t s = record k {
  scheduler = s;
  current = record t { status = running };
  to_be_destroyed = none;
  threads = remove_a_thread k.current.tid k.threads;
}

-- The loop of Sleep in a thread that finishes, when there is a thread to run.
pass-after_pass :
    (p : Policy) (k : System) (t : Thread)
    → (take_next p k.scheduler).0 ≡ some t
    → k.interrupts_on ≡ false
    → k.current.tid ≢ t.tid
    → k.to_be_destroyed ≡ none
    → sleep_pass p true k ≡ some (true, after_pass k t (take_next p k.scheduler).1)
unfolding sleep_pass find_next_to_run switch_to run check_to_be_destroyed assert after_pass
pass-after_pass p k t next off other nobody =
    ap (λ b. find_next_to_run p (not b) k.scheduler >>= λ r. sleep_to true k r.0 r.1) off
    ∙ ap (λ o. sleep_to true k o (take_next p k.scheduler).1) next
    ∙ rw (off, nobody, ==_of_ne k.current.tid t.tid other) refl

-- Finish of a thread that is not on the block list, when FindNextToRun has another thread and no thread waits to be deleted: no
-- ASSERT fails, the other thread runs and the finished one is deleted, but it is on the block list.
pub finish-is_in :
    (p : Policy) (k : System) (t : Thread) (s : Scheduler)
    → is_in k.current k.scheduler.block_list ≡ false
    → find_next_to_run p true k.scheduler ≡ some (some t, s)
    → k.current.tid ≢ t.tid
    → k.to_be_destroyed ≡ none
    → (k' : System) × (finish p k ≡ some (true, k'))
      × (k'.current.tid ≡ t.tid)
      × (exists_in k.current.tid k'.threads ≡ false)
      × (is_in k.current k'.scheduler.block_list ≡ true)
unfolding finish blocked_system after_pass find_next_to_run assert
finish-is_in p k t s absent found other nobody =
    let next : (take_next p k.scheduler).0 ≡ some t = cc in
    let k₁ = blocked_system k in
    let ts = k.scheduler.block_list ++ (record k.current { status = blocked } ∷ []) in
    let choice = take_next-block_list p k.scheduler ts in
    let done = pass-after_pass p k₁ t (ap (λ r. r.0) choice ∙ next) refl other nobody in
    (
      after_pass k₁ t (take_next p k₁.scheduler).1,
      ap (λ o. o >>= sleep_pass p true) (start-blocked_system k absent) ∙ done,
      refl,
      removed-exists_in k.current.tid k.threads,
      ap (λ s. is_in k.current s.block_list) (ap (λ r. r.1) choice)
          ∙ is_in-append_self k.current (record k.current { status = blocked })
              k.scheduler.block_list refl,
    )
