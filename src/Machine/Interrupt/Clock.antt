-- ===== src/Machine/Interrupt/Clock.antt =====
-- The clock and the pending interrupts over `CheckIfDue`, and what is asked of the devices.
use my_nachos.Machine.Word.{sign_bit}
use my_nachos.Base.{
  ℕ, suc, ◌+◌, ◌<◌, ◌≤◌, ◌≡◌, refl, sym, ap, ◌∙◌, subst, Bool, true, false, some, List, [], ◌∷◌,
  ltb, arith, ltb→lt, lt→ltb, length, Bool-cases, inl, inr,
}
use my_nachos.Base.Checked.{◌>>=◌, ◌>>◌, assert}
use my_nachos.Machine.Interrupt.{
  Interrupt, PendingInterrupt, Request, schedule_request, yield_request, Devices, int_off, is_off,
  insert, schedule, ask_yield, carry_out, MachineStatus, handle, examine, check_if_due,
}
use my_nachos.Machine.Interrupt.Due.{AtLeast, IsSorted, AtLeast-weaken, due, later}
use my_nachos.Machine.Interrupt.Requests.{now, Settled, SameRun, SameRun-trans, carry_out-Settled}
use my_nachos.Machine.Interrupt.Loop.{
  run_all, run_all-Settled, fired, checked, later-Settled, check_if_due-checked,
}

-- The pending interrupts are in order, the ticks are accounted for, and no handler runs.
pub record IsSound (i : Interrupt) : Type 0 where
  pub in_order : IsSorted i.pending
  pub accounts : now i ≡ i.stats.idle_ticks + i.stats.system_ticks + i.stats.user_ticks
  pub no_handler : i.in_handler ≡ false

-- Every interrupt is scheduled for later, at most `reach` ticks from now.
abbrev pub InFuture : ℕ → List Request → Type 0
InFuture reach [] = Unit
InFuture reach (schedule_request c f t ∷ rs) = (0 < f) × ((f ≤ reach) × InFuture reach rs)
InFuture reach (yield_request ∷ rs) = InFuture reach rs

carry_out-runs :
    (reach : ℕ) (rs : List Request) (i : Interrupt)
    → now i + reach < sign_bit
    → InFuture reach rs
    → i.in_handler ≡ true
    → (j : Interrupt) × (carry_out rs i ≡ some j)
unfolding carry_out schedule ask_yield assert
carry_out-runs reach [] i room ok inside = (i, refl)
carry_out-runs reach (schedule_request c f t ∷ rs) i room (pos, (near, ok)) inside =
    rw (lt→ltb (now i + f) sign_bit (omega arith), lt→ltb 0 f pos)
      (carry_out-runs reach rs
        (record i {
          pending = insert (record { call_on_interrupt = c; when = now i + f; type = t }) i.pending;
        })
        room ok inside)
carry_out-runs reach (yield_request ∷ rs) i room ok inside =
    subst
      (λ b.
        (j : Interrupt) × ((assert b >> some (record i { yield_on_return = true }) >>= carry_out rs)
          ≡ some j))
      (sym inside) (carry_out-runs reach rs (record i { yield_on_return = true }) room ok inside)

module _ {ℓ} {S : Type ℓ} (devices : Devices S) (reach : ℕ) where
  -- Handlers schedule for later, at most `reach` ticks ahead; a thread switch keeps the interrupts sound and does not set the clock back.
  pub record Obeys : Type ℓ where
    pub in_future : (c : ℕ) (m : MachineStatus) (s : S) → InFuture reach (devices.call_back c m s).1
    pub yields : (i : Interrupt) (s : S) → IsSound i → IsSound (devices.yield i s).0
    pub forwards : (i : Interrupt) (s : S) → now i ≤ now (devices.yield i s).0

  module _ (obeys : Obeys) where
    run_all-runs :
        (ps : List PendingInterrupt) (i : Interrupt) (s : S)
        → Settled i
        → now i + reach < sign_bit
        → i.in_handler ≡ true
        → (j : Interrupt) × ((s' : S) × ((run_all devices ps i s ≡ some (j, s'))
              × (Settled j × SameRun i j)))
    unfolding handle
    run_all-runs [] i s settled room inside =
        (i, (s, (refl, run_all-Settled devices [] i i s s settled refl)))
    run_all-runs (p ∷ ps) i s settled room inside =
        let (t, rs) = devices.call_back p.call_on_interrupt i.status s in
        let (k, done) =
          carry_out-runs reach rs i room (obeys.in_future p.call_on_interrupt i.status s) inside in
        let (sk, ik) = carry_out-Settled rs i k settled done in
        let room_k : now k + reach < sign_bit =
          subst (λ x. x.total_ticks + reach < sign_bit) (sym ik.stats_is) room in
        let (j, (s', (rest, (sj, kj)))) =
          run_all-runs ps k t sk room_k (ik.in_handler_is ∙ inside) in
        (j, (s', (rw done rest, (sj, SameRun-trans i k j ik kj))))

    -- What CheckIfDue leaves.
    pub record After (i j : Interrupt) : Type 0 where
      pub sound : IsSound j
      pub settled : Settled j
      pub forwards : now i ≤ now j

    pub fired-After :
        (i : Interrupt) (s : S)
        → IsSound i
        → now i + reach < sign_bit
        → (j : Interrupt) × ((s' : S) × ((fired devices i s ≡ some (true, (j, s'))) × After i j))
    fired-After i s sound room =
        let k : Interrupt = record i { in_handler = true; pending = later (now i) i.pending } in
        let (j, (s', (run, (settled, same)))) =
          run_all-runs (due (now i) i.pending) k (devices.delayed_load s)
            (later-Settled devices i sound.in_order) room refl in
        let j' : Interrupt = record j { in_handler = false } in
        let stats : j.stats ≡ i.stats = same.stats_is in
        (
          j',
          (
            s',
            (
              rw run refl,
              record {
                sound = record {
                  in_order = settled.in_order;
                  accounts =
                      subst (λ x. x.total_ticks ≡ x.idle_ticks + x.system_ticks + x.user_ticks)
                        (sym stats) sound.accounts;
                  no_handler = refl;
                };
                settled = record { none_due = settled.none_due; in_order = settled.in_order };
                forwards = subst (λ x. now i ≤ x.total_ticks) (sym stats) (omega arith);
              },
            ),
          ),
        )

    -- The branches of CheckIfDue(FALSE) after its ASSERT.
    examine-After :
        (i : Interrupt) (s : S) (ps : List PendingInterrupt)
        → i.pending ≡ ps
        → IsSound i
        → now i + reach < sign_bit
        → (b : Bool) × ((j : Interrupt) × ((s' : S) × ((examine devices (fired devices) false i s ps
                  ≡ some (b, (j, s')))
                × After i j)))
    examine-After i s [] here sound room = (
      false,
      (
        i,
        (
          s,
          (
            refl,
            record {
              sound = sound;
              settled = record {
                none_due = subst (AtLeast (suc (now i))) (sym here) tt;
                in_order = sound.in_order;
              };
              forwards = omega arith;
            },
          ),
        ),
      ),
    )
    examine-After i s (p ∷ ps) here sound room = elim (Bool-cases (ltb (now i) p.when)) [
      | inl e ↦
          let lt = ltb→lt (now i) p.when e in
          let sorted : IsSorted (p ∷ ps) = subst IsSorted here sound.in_order in
          rw e (
            false,
            (
              i,
              (
                s,
                (
                  refl,
                  record {
                    sound = sound;
                    settled = record {
                      none_due = subst (AtLeast (suc (now i))) (sym here) (
                        omega arith,
                        AtLeast-weaken (suc (now i)) p.when ps (omega arith) sorted.0,
                      );
                      in_order = sound.in_order;
                    };
                    forwards = omega arith;
                  },
                ),
              ),
            ),
          )
      | inr e ↦
          let (j, (s', (run, after))) = fired-After i s sound room in
          rw e (true, (j, (s', (run, after))))
    ]

    pub check_if_due-After :
        (n : ℕ) (i : Interrupt) (s : S)
        → IsSound i
        → now i + reach < sign_bit
        → i.level ≡ int_off
        → length i.pending ≤ n
        → (b : Bool) × ((j : Interrupt) × ((s' : S) × ((check_if_due devices n false i s
                  ≡ some (b, (j, s')))
                × After i j)))
    unfolding assert
    check_if_due-After n i s sound room off size =
        let (b, (j, (s', (run, after)))) = examine-After i s i.pending refl sound room in
        let passes : checked devices false i s ≡ some (b, (j, s')) =
          ap (λ l. assert (is_off l) >> examine devices (fired devices) false i s i.pending) off
          ∙ run in
        (
          b,
          (j, (s', (check_if_due-checked devices n false i s sound.in_order size ∙ passes, after))),
        )
