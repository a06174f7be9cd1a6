-- ===== src/Threads/Life.antt =====
-- code/threads/thread.cc and code/threads/scheduler.cc: Fork, Yield, Sleep and Finish, and the switch between threads.
-- The code after SWITCH and the beginning of a new thread both call CheckToBeDestroyed, which the next thread does first:
-- a switch here ends when it has done so, with interrupts disabled. What the next thread does then, and its stack, are left out.
pub mod Carcass
pub mod Turns
use my_nachos.Base.{
  ℕ, zero, suc, Bool, true, false, not, Option, none, some, List, [], ◌∷◌, if◌then◌else◌, ltb, ◌==◌,
}
use my_nachos.Base.Checked.{◌>>=◌, ◌>>◌, assert}
use my_nachos.Threads.Scheduler.{
  Policy, by_priority, first_come, round_robin, feedback, Thread, ThreadStatus, running, blocked,
  Scheduler, append, ready_to_run, find_next_to_run,
}

-- The threads that exist are known by their numbers. `interrupts_on` is the level IntOn.
pub record System : Type 0 where
  pub scheduler : Scheduler
  pub current : Thread
  pub to_be_destroyed : Option Thread
  pub threads : List ℕ
  pub interrupts_on : Bool

abbrev pub exists_in : ℕ → List ℕ → Bool
exists_in n [] = false
exists_in n (t ∷ ts) = if n == t then true else exists_in n ts

-- Thread::removeAThread
abbrev pub remove_a_thread : ℕ → List ℕ → List ℕ
remove_a_thread n [] = []
remove_a_thread n (t ∷ ts) = let rest = remove_a_thread n ts in if n == t then rest else t ∷ rest

abbrev pub is_none : Option Thread → Bool
is_none none = true
is_none (some t) = false

-- Scheduler::blockAThread
unfoldable pub block_a_thread : Thread → Scheduler → Option Scheduler
block_a_thread t s = append (record t { status = blocked }) s.block_list >>= λ ts.
    some (record s { block_list = ts })

-- Scheduler::Run up to SWITCH.
unfoldable pub run : Thread → Bool → System → Option System
run next finishing k = do
  assert (not k.interrupts_on)
  doomed ←
      if finishing
      then (assert (is_none k.to_be_destroyed) >> some (some k.current))
      else some k.to_be_destroyed
  some (record k { to_be_destroyed = doomed; current = record next { status = running } })

-- CheckToBeDestroyed, with the ASSERT of the destructor.
abbrev pub destroy : Option Thread → System → Option System
destroy none k = some k
destroy (some t) k =
    assert (not (t.tid == k.current.tid))
    >> some (record k { to_be_destroyed = none; threads = remove_a_thread t.tid k.threads })

unfoldable pub check_to_be_destroyed : System → Option System
check_to_be_destroyed k = destroy k.to_be_destroyed k

unfoldable pub switch_to : Thread → Bool → System → Option System
switch_to next finishing k = run next finishing k >>= check_to_be_destroyed

-- What Yield and Sleep do with the answer of FindNextToRun, after which the scheduler is `s`.
abbrev pub yield_to : Policy → System → Option Thread → Scheduler → Option System
yield_to p k none s = some (record k { scheduler = s })
yield_to p k (some t) s = ready_to_run p true k.current s >>= λ s'.
    switch_to t false (record k { scheduler = s'; interrupts_on = false })

abbrev pub sleep_to : Bool → System → Option Thread → Scheduler → Option (Bool × System)
sleep_to finishing k none s = some (false, record k { scheduler = s })
sleep_to finishing k (some t) s =
    switch_to t finishing (record k { scheduler = s }) >>= λ k'. some (true, k')

-- Yield up to the switch, which sets the level off.
unfoldable pub yield : Policy → System → Option System
yield p k = find_next_to_run p true k.scheduler >>= λ r. yield_to p k r.0 r.1

-- Sleep before its loop.
unfoldable pub sleep_start : System → Option System
sleep_start k = do
  assert (not k.interrupts_on)
  s ← block_a_thread k.current k.scheduler
  some (record k { scheduler = s })

-- A pass of the loop of Sleep: FALSE when no thread is ready, and Idle is called.
unfoldable pub sleep_pass : Policy → Bool → System → Option (Bool × System)
sleep_pass p finishing k =
    find_next_to_run p (not k.interrupts_on) k.scheduler >>= λ r. sleep_to finishing k r.0 r.1

-- Finish up to the first pass of the loop in Sleep.
unfoldable pub finish : Policy → System → Option (Bool × System)
finish p k = sleep_start (record k { interrupts_on = false }) >>= sleep_pass p true

-- getReadyListFront under priorities.
unfoldable pub front_priority : Scheduler → ℕ → Bool
front_priority s priority = elim s.sorted_ready_list [
  | [] ↦ false
  | t ∷ ts ↦ ltb t.priority priority
]

-- Fork of a new thread by the current one, after the stack is allocated; ReadyToRun is called with the level set off.
unfoldable pub fork : Policy → Thread → System → Option System
fork p t k = ready_to_run p true t k.scheduler >>= λ s.
    let k' : System = record k { scheduler = s } in
    elim p [
      | by_priority ↦ if front_priority s k.current.priority then yield by_priority k' else some k'
      | first_come ↦ some k'
      | round_robin ↦ some k'
      | feedback ↦ some k'
    ]
