-- ===== src/Threads/Scheduler.antt =====
-- code/threads/scheduler.cc, and `SortedList::Insert` of code/lib/list.cc, on lists of threads.
-- A thread's priority starts at -1 under feedback queues and is kept one higher. `none` is a failed ASSERT.
pub mod Ready
use my_nachos.Base.{
  ℕ, zero, suc, ◌+◌, ◌-◌, ◌<◌, Bool, true, false, not, Option, none, some, List, [], ◌∷◌, ◌++◌,
  if◌then◌else◌, ltb, ◌==◌, get_or, set,
}
use my_nachos.Base.Checked.{◌>>=◌, ◌>>◌, assert}

-- typeno 0 to 3.
pub data Policy : Type 0 where
  first_come : Policy
  by_priority : Policy
  round_robin : Policy
  feedback : Policy

pub data ThreadStatus : Type 0 where
  just_created : ThreadStatus
  running : ThreadStatus
  ready : ThreadStatus
  blocked : ThreadStatus
  suspended : ThreadStatus

pub record Thread : Type 0 where
  pub tid : ℕ
  pub priority : ℕ
  pub remain_time : ℕ
  pub status : ThreadStatus

pub record Scheduler : Type 0 where
  pub ready_list : List Thread
  pub sorted_ready_list : List Thread
  pub queues : List (List Thread)
  pub block_list : List Thread

-- Threads are pointers, told apart by their numbers.
abbrev pub is_in : Thread → List Thread → Bool
is_in t [] = false
is_in t (x ∷ xs) = if x.tid == t.tid then true else is_in t xs

abbrev pub remove_thread : Thread → List Thread → List Thread
remove_thread t [] = []
remove_thread t (x ∷ xs) = let rest = remove_thread t xs in if x.tid == t.tid then xs else x ∷ rest

-- List::Append
unfoldable pub append : Thread → List Thread → Option (List Thread)
append t xs = do assert (not (is_in t xs)); some (xs ++ (t ∷ []))

-- List::Remove, which asserts that the item is in the list before and not after.
unfoldable pub take_out : Thread → List Thread → Option (List Thread)
take_out t xs = do
  assert (is_in t xs)
  assert (not (is_in t (remove_thread t xs)))
  some (remove_thread t xs)

-- SortedList::Insert after its first ASSERT, compared by priority: before the first thread that compares greater.
unfoldable pub insert_sorted : Thread → List Thread → List Thread
insert_sorted t [] = t ∷ []
insert_sorted t (x ∷ xs) =
    let rest = insert_sorted t xs in if ltb t.priority x.priority then t ∷ x ∷ xs else x ∷ rest

abbrev pub queue_num : ℕ
queue_num = 5

-- The part of ReadyToRun that chooses the list; `t` is marked ready.
unfoldable pub enqueue : Policy → Thread → Scheduler → Option Scheduler
enqueue first_come t s = append t s.ready_list >>= λ ts. some (record s { ready_list = ts })
enqueue by_priority t s = do
  assert (not (is_in t s.sorted_ready_list))
  some (record s { sorted_ready_list = insert_sorted t s.sorted_ready_list })
enqueue round_robin t s =
    append (record t { remain_time = 3 }) s.ready_list >>= λ ts. some (record s { ready_list = ts })
enqueue feedback t s =
    let level = (if t.priority == queue_num then t.priority else t.priority + 1) - 1 in
    let t' : Thread = record t { priority = level + 1; remain_time = 3 + level } in
    if ltb level queue_num
    then (append t' (get_or s.queues level []) >>= λ ts.
        some (record s { queues = set s.queues level ts }))
    else none

-- ReadyToRun after its ASSERT.
unfoldable pub make_ready : Policy → Thread → Scheduler → Option Scheduler
make_ready p t s =
    (if is_in t s.block_list then take_out t s.block_list else some s.block_list) >>= λ waiting.
    enqueue p (record t { status = ready }) (record s { block_list = waiting })

-- `off` is whether `getLevel()` is IntOff.
unfoldable pub ready_to_run : Policy → Bool → Thread → Scheduler → Option Scheduler
ready_to_run p off t s = assert off >> make_ready p t s

-- The first thread of the first queue that is not empty.
unfoldable pub first_queued : List (List Thread) → Option Thread × List (List Thread)
first_queued [] = (none, [])
first_queued ([] ∷ qs) = let (t, rest) = first_queued qs in (t, [] ∷ rest)
first_queued ((t ∷ ts) ∷ qs) = (some t, ts ∷ qs)

unfoldable pub remove_front : List Thread → Option Thread × List Thread
remove_front [] = (none, [])
remove_front (t ∷ ts) = (some t, ts)

-- FindNextToRun after its ASSERT. NULL is `none`.
unfoldable pub take_next : Policy → Scheduler → Option Thread × Scheduler
take_next first_come s =
    let (t, rest) = remove_front s.ready_list in (t, record s { ready_list = rest })
take_next by_priority s =
    let (t, rest) = remove_front s.sorted_ready_list in (t, record s { sorted_ready_list = rest })
take_next round_robin s =
    let (t, rest) = remove_front s.ready_list in (t, record s { ready_list = rest })
take_next feedback s = let (t, rest) = first_queued s.queues in (t, record s { queues = rest })

-- `off` is whether `getLevel()` is IntOff.
unfoldable pub find_next_to_run : Policy → Bool → Scheduler → Option (Option Thread × Scheduler)
find_next_to_run p off s = assert off >> some (take_next p s)

-- RemoveFront of an empty list fails its ASSERT.
unfoldable pub awake_a_thread : Scheduler → Option Scheduler
awake_a_thread s = elim s.block_list [
  | [] ↦ none
  | t ∷ rest ↦ append (record t { status = ready }) s.ready_list >>= λ ts.
      some (record s { block_list = rest; ready_list = ts })
]
