-- ===== src/Machine/Mips/Safe.antt =====
-- code/machine: `Machine::OneInstruction` keeps the register file sound.
use my_nachos.Base.{ℕ, ◌<◌, ◌≡◌, Bool, true, false, Option, none, some, ◌≢◌}
use my_nachos.Machine.Mips.Execute.{Exception, Registers, load_reg}
use my_nachos.Machine.Mips.Processor.{Machine, Kernel, Translation, mapped, refused, stopped}

-- R0 holds 0, and the pending load goes to a general register.
pub record IsSafe (regs : Registers) : Type 0 where
  pub r0 : regs 0 ≡ 0
  pub target : regs load_reg < 32

-- What the rest of the simulator owes the processor: the kernel returns from an exception with sound registers, and the ASSERT of
-- Translate passes.
pub record Returns {ℓ} {S : Type ℓ} (k : Kernel S) : Type ℓ where
  pub handled :
      (e : Exception) (m : Machine S)
      → IsSafe m.registers
      → IsSafe (k.exception_handler e m).registers
  pub answers :
      (addr size : ℕ) (writing : Bool) (memory : ℕ → ℕ) (s : S)
      → (k.translate addr size writing memory s).2 ≢ stopped

-- An address, or an exception.
data Answer : Translation → Type 0 where
  at_address : {at : ℕ} → Answer (mapped at)
  with_exception : {e : Exception} → Answer (refused e)

module _ {ℓ} {S : Type ℓ} (k : Kernel S) (returns : Returns k) where
  -- A machine that is there, with sound registers.
  pub data Survives : Option (Machine S) → Type ℓ where
    survives : {m : Machine S} → IsSafe m.registers → Survives (some m)

  -- A read or a write that goes through keeps the registers.
  data Got (m : Machine S) : Option (Machine S × Option ℕ) → Type ℓ where
    loaded : {m' : Machine S} {v : ℕ} → m'.registers ≡ m.registers → Got m (some (m', some v))
    not_loaded : {m' : Machine S} → IsSafe m'.registers → Got m (some (m', none))

  data Put (m : Machine S) : Option (Machine S × Bool) → Type ℓ where
    stored : {m' : Machine S} → m'.registers ≡ m.registers → Put m (some (m', true))
    not_stored : {m' : Machine S} → IsSafe m'.registers → Put m (some (m', false))
