-- ===== src/Machine/Mips/Flow.antt =====
-- code/machine/mipssim.cc: the delay slots, of a load and of a branch.
use my_nachos.Base.{ℕ, ◌<◌, ◌≤◌, ◌≡◌, refl, if◌then◌else◌, ◌==◌, ==_of_ne, arith}
use my_nachos.Machine.Mips.Execute.{
  Registers, load_reg, load_value_reg, pc_reg, next_pc_reg, prev_pc_reg,
}
use my_nachos.Machine.Mips.Processor.{delayed_load, complete}

-- At the end of an instruction whose pending load goes to a general register: the next instruction is the one that was
-- next, after it comes pcAfter, and the pending load is in its register, unless that is R0; every other general register is
-- as the instruction left it, and the new load is pending, not done.
pub complete-flow :
    (regs : Registers) (pc_after r v j : ℕ)
    → regs load_reg < 32
    → 1 ≤ j
    → j < 32
    → (complete regs pc_after r v pc_reg ≡ regs next_pc_reg)
      × (complete regs pc_after r v next_pc_reg ≡ pc_after)
      × (complete regs pc_after r v prev_pc_reg ≡ regs pc_reg)
      × (complete regs pc_after r v load_reg ≡ r)
      × (complete regs pc_after r v load_value_reg ≡ v)
      × (complete regs pc_after r v j
          ≡ (if j == regs load_reg then regs load_value_reg else regs j))
unfolding complete delayed_load
complete-flow regs pc_after r v j h h1 h32 =
    let away = λ (j : ℕ) (far : 32 ≤ j). ==_of_ne j (regs load_reg) (ground arith) in
    (
      rw (away next_pc_reg (omega arith)) refl,
      refl,
      rw (away pc_reg (omega arith)) refl,
      refl,
      refl,
      rw
          (
            ==_of_ne j next_pc_reg (ground arith),
            ==_of_ne j pc_reg (ground arith),
            ==_of_ne j prev_pc_reg (ground arith),
            ==_of_ne j 0 (ground arith),
            ==_of_ne j load_value_reg (ground arith),
            ==_of_ne j load_reg (ground arith),
          )
          refl,
    )
