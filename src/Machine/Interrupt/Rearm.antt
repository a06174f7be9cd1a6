-- ===== src/Machine/Interrupt/Rearm.antt =====
-- `Timer::SetInterrupt`: the next timer interrupt.
use my_nachos.Base.{ℕ, ◌+◌, ◌%◌, Bool, true, false, [], ◌∷◌, if◌then◌else◌, arith}
use my_nachos.Machine.Interrupt.{Timer, set_interrupt, timer_ticks, schedule_request, timer_int}
use my_nachos.Machine.Interrupt.Clock.{InFuture}

-- A timer asks for an interrupt that lies in the future, at most 200 ticks ahead, whatever the random number.
pub set_interrupt-InFuture :
    (t : Timer) (self random : ℕ) → InFuture 200 (set_interrupt t self random)
unfolding set_interrupt
set_interrupt-InFuture t self random = go t.disable t.randomize
  where
    go :
        (d r : Bool)
        → InFuture 200 (
            if d
            then []
            else schedule_request self
                (if r then 1 + random % (timer_ticks + timer_ticks) else timer_ticks)
                timer_int
              ∷ [])
    go true r = tt
    go false true = (omega arith, (omega arith, tt))
    go false false = (omega arith, (omega arith, tt))
