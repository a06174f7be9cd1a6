-- ===== src/Machine/Interrupt.antt =====
-- code/machine/interrupt.cc and code/machine/interrupt.h, with the clock of code/machine/stats.h, and code/machine/timer.cc.
-- The device handlers, the thread switch and the processor are operations of a record; a handler's calls of the
-- interrupt system are the requests it answers with, carried out in order. A failed ASSERT is `none`.
-- An overflow of the clock's int, which C++ leaves undefined, is `none` too. The debugging output is left out.
pub mod Due
pub mod Requests
pub mod Loop
pub mod Clock
pub mod Tick
pub mod Rearm
use my_nachos.Machine.Word.{sign_bit}
use my_nachos.Base.{
  ℕ, zero, suc, ◌+◌, ◌-◌, ◌%◌, Bool, true, false, not, ◌||◌, Option, none, some, List, [], ◌∷◌,
  if◌then◌else◌, ltb, leb,
}
use my_nachos.Base.Checked.{◌>>=◌, ◌>>◌, assert}

pub data IntStatus : Type 0 where
  int_off : IntStatus
  int_on : IntStatus

pub data MachineStatus : Type 0 where
  idle_mode : MachineStatus
  system_mode : MachineStatus
  user_mode : MachineStatus

pub data IntType : Type 0 where
  timer_int : IntType
  disk_int : IntType
  console_write_int : IntType
  console_read_int : IntType
  network_send_int : IntType
  network_recv_int : IntType

-- An object to call back is known by its number.
pub record PendingInterrupt : Type 0 where
  pub call_on_interrupt : ℕ
  pub when : ℕ
  pub type : IntType

abbrev pub user_tick : ℕ
user_tick = 1

abbrev pub system_tick : ℕ
system_tick = 10

abbrev pub timer_ticks : ℕ
timer_ticks = 100

pub record Statistics : Type 0 where
  pub total_ticks : ℕ
  pub idle_ticks : ℕ
  pub system_ticks : ℕ
  pub user_ticks : ℕ

pub record Interrupt : Type 0 where
  pub level : IntStatus
  pub pending : List PendingInterrupt
  pub in_handler : Bool
  pub yield_on_return : Bool
  pub status : MachineStatus
  pub stats : Statistics

-- A handler's call of Schedule or YieldOnReturn.
pub data Request : Type 0 where
  schedule_request : ℕ → ℕ → IntType → Request
  yield_request : Request

-- What the interrupt system calls, on a state `S` of everything else.
pub record Devices {ℓ} (S : Type ℓ) : Type ℓ where
  pub call_back : ℕ → MachineStatus → S → S × List Request
  pub delayed_load : S → S
  pub yield : Interrupt → S → Interrupt × S

-- Interrupt::Interrupt
unfoldable pub new_interrupt : Statistics → Interrupt
new_interrupt stats = record {
  level = int_off;
  pending = [];
  in_handler = false;
  yield_on_return = false;
  status = system_mode;
  stats = stats;
}

abbrev pub is_off : IntStatus → Bool
is_off int_off = true
is_off int_on = false

-- `PendingCompare(x, y) < 0`
abbrev pub occurs_before : PendingInterrupt → PendingInterrupt → Bool
occurs_before x y = ltb x.when y.when

-- SortedList::Insert with PendingCompare. The interrupt is newly allocated, so it is not in the list yet.
unfoldable pub insert : PendingInterrupt → List PendingInterrupt → List PendingInterrupt
insert x [] = x ∷ []
insert x (y ∷ ys) = let rest = insert x ys in if occurs_before x y then x ∷ y ∷ ys else y ∷ rest

unfoldable pub change_level : IntStatus → Interrupt → Interrupt
change_level now i = record i { level = now }

unfoldable pub schedule : ℕ → ℕ → IntType → Interrupt → Option Interrupt
schedule to_call from_now type i =
    let to_occur : PendingInterrupt = record {
      call_on_interrupt = to_call;
      when = i.stats.total_ticks + from_now;
      type = type;
    } in
    do
      assert (ltb (i.stats.total_ticks + from_now) sign_bit)
      assert (ltb 0 from_now)
      some (record i { pending = insert to_occur i.pending })

unfoldable pub ask_yield : Interrupt → Option Interrupt
ask_yield i = do assert i.in_handler; some (record i { yield_on_return = true })

unfoldable pub carry_out : List Request → Interrupt → Option Interrupt
carry_out [] i = some i
carry_out (schedule_request to_call from_now type ∷ rs) i =
    schedule to_call from_now type i >>= carry_out rs
carry_out (yield_request ∷ rs) i = ask_yield i >>= carry_out rs

-- `!pending->IsEmpty() && (pending->Front()->when <= stats->totalTicks)`
unfoldable pub more_due : Interrupt → Bool
more_due i = elim i.pending [ [] ↦ false | p ∷ ps ↦ leb p.when i.stats.total_ticks ]

-- The clock moved on to the next interrupt.
unfoldable pub advance_to : ℕ → Interrupt → Interrupt
advance_to time i = record i {
  stats = record i.stats {
    idle_ticks = i.stats.idle_ticks + (time - i.stats.total_ticks);
    total_ticks = time;
  };
}

unfoldable pub user_time : Interrupt → Interrupt
user_time i = record i {
  stats = record i.stats {
    total_ticks = i.stats.total_ticks + user_tick;
    user_ticks = i.stats.user_ticks + user_tick;
  };
}

abbrev pub tick_of : MachineStatus → ℕ
tick_of system_mode = system_tick
tick_of user_mode = user_tick
tick_of idle_mode = user_tick

-- The counters a tick later.
unfoldable pub ticked : MachineStatus → Interrupt → Interrupt
ticked system_mode i = record i {
  stats = record i.stats {
    total_ticks = i.stats.total_ticks + system_tick;
    system_ticks = i.stats.system_ticks + system_tick;
  };
}
ticked user_mode i = user_time i
ticked idle_mode i = user_time i

-- The first part of OneTick, for the status of the machine. The other counters are part of the total.
unfoldable pub advance_time : MachineStatus → Interrupt → Option Interrupt
advance_time m i = assert (ltb (i.stats.total_ticks + tick_of m) sign_bit) >> some (ticked m i)

module _ {ℓ} {S : Type ℓ} (devices : Devices S) where
  -- The handler of an interrupt that is off the list, and the calls it makes.
  unfoldable pub handle : PendingInterrupt → Interrupt → S → Option (Interrupt × S)
  handle p i s =
      let (s', rs) = devices.call_back p.call_on_interrupt i.status s in
      carry_out rs i >>= λ i'. some (i', s')

  -- The do-while loop of CheckIfDue.
  unfoldable pub fire : ℕ → Interrupt → S → Option (Interrupt × S)
  fire zero i s = none
  fire (suc n) i s = elim i.pending [
    | [] ↦ none
    | p ∷ ps ↦ handle p (record i { pending = ps }) s >>= λ r.
        if more_due r.0 then fire n r.0 r.1 else some r
  ]

  unfoldable pub fire_all : ℕ → Interrupt → S → Option (Bool × (Interrupt × S))
  fire_all n i s = fire n (record i { in_handler = true }) (devices.delayed_load s) >>= λ r.
      some (true, (record r.0 { in_handler = false }, r.1))

  -- The part of CheckIfDue after its ASSERT, with the loop and what surrounds it as a parameter.
  abbrev pub examine :
      (Interrupt → S → Option (Bool × (Interrupt × S)))
      → Bool
      → Interrupt
      → S
      → List PendingInterrupt
      → Option (Bool × (Interrupt × S))
  examine go advance_clock i s [] = some (false, (i, s))
  examine go advance_clock i s (p ∷ ps) =
      if ltb i.stats.total_ticks p.when
      then (if advance_clock then go (advance_to p.when i) s else some (false, (i, s)))
      else go i s

  unfoldable pub check_if_due : ℕ → Bool → Interrupt → S → Option (Bool × (Interrupt × S))
  check_if_due n advance_clock i s =
      assert (is_off i.level) >> examine (fire_all n) advance_clock i s i.pending

  -- The switch asked for by a handler, done as the kernel.
  unfoldable pub yield_now : MachineStatus → Interrupt → S → Interrupt × S
  yield_now old_status i s =
      let (i', s') = devices.yield (record i { yield_on_return = false; status = system_mode }) s in
      (record i' { status = old_status }, s')

  unfoldable pub one_tick : ℕ → Interrupt → S → Option (Interrupt × S)
  one_tick n i s = do
    i₁ ← advance_time i.status i
    r ← check_if_due n false (change_level int_off i₁) s
    let i' = change_level int_on r.1.0
    some (if i'.yield_on_return then yield_now i.status i' r.1.1 else (i', r.1.1))

  unfoldable pub set_level : ℕ → IntStatus → Interrupt → S → Option (IntStatus × (Interrupt × S))
  set_level n now i s = do
    assert (is_off now || not i.in_handler)
    (if is_off now || not (is_off i.level)
        then some (i.level, (change_level now i, s))
        else (one_tick n (change_level now i) s >>= λ r. some (i.level, r)))

  -- `none` inside is Halt, which does not return.
  unfoldable pub idle : ℕ → Interrupt → S → Option (Option (Interrupt × S))
  idle n i s = do
    r ← check_if_due n true (record i { status = idle_mode }) s
    some (if r.0 then some (record r.1.0 { status = system_mode }, r.1.1) else none)

-- code/machine/timer.cc. `disable` and `randomize` are the timer's fields, `random` the next RandomNumber().
pub record Timer : Type 0 where
  pub randomize : Bool
  pub disable : Bool

unfoldable pub set_interrupt : Timer → ℕ → ℕ → List Request
set_interrupt t self random =
    if t.disable
    then []
    else schedule_request self
        (if t.randomize then 1 + random % (timer_ticks + timer_ticks) else timer_ticks) timer_int
      ∷ []
