-- ===== src/Machine/Interrupt/Tick.antt =====
-- The clock and the pending interrupts over `OneTick` and `Idle`.
use my_nachos.Machine.Word.{sign_bit}
use my_nachos.Base.{
  ℕ, ◌<◌, ◌≤◌, ◌≡◌, refl, ap, ◌∙◌, Bool, true, false, Option, none, some, List, [], ◌∷◌,
  if◌then◌else◌, ltb, arith, ltb→lt, length, Bool-cases, inl, inr, ◌+◌, subst, lt→ltb,
}
use my_nachos.Base.Checked.{◌>>◌, assert}
use my_nachos.Machine.Interrupt.{
  Interrupt, PendingInterrupt, Devices, int_off, int_on, is_off, idle_mode, system_mode, user_mode,
  change_level, advance_time, user_time, yield_now, one_tick, idle, MachineStatus, advance_to,
  examine, check_if_due, ticked, tick_of,
}
use my_nachos.Machine.Interrupt.Requests.{now}
use my_nachos.Machine.Interrupt.Loop.{fired, check_if_due-checked}
use my_nachos.Machine.Interrupt.Clock.{IsSound, Obeys, fired-After, check_if_due-After}

module _ {ℓ} {S : Type ℓ} (devices : Devices S) (reach : ℕ) (obeys : Obeys devices reach) where
  -- The interrupts when OneTick calls CheckIfDue.
  ticked-IsSound :
      (m : MachineStatus) (i : Interrupt)
      → IsSound i
      → IsSound (change_level int_off (ticked m i))
        × (now i < now (change_level int_off (ticked m i)))
  unfolding change_level ticked user_time
  ticked-IsSound idle_mode i sound = (
    record {
      in_order = sound.in_order;
      accounts = omega (arith, sound.accounts);
      no_handler = sound.no_handler;
    },
    omega arith,
  )
  ticked-IsSound system_mode i sound = (
    record {
      in_order = sound.in_order;
      accounts = omega (arith, sound.accounts);
      no_handler = sound.no_handler;
    },
    omega arith,
  )
  ticked-IsSound user_mode i sound = (
    record {
      in_order = sound.in_order;
      accounts = omega (arith, sound.accounts);
      no_handler = sound.no_handler;
    },
    omega arith,
  )

  ticked-pending :
      (m : MachineStatus) (i : Interrupt) → (change_level int_off (ticked m i)).pending ≡ i.pending
  unfolding change_level ticked user_time
  ticked-pending idle_mode i = refl
  ticked-pending system_mode i = refl
  ticked-pending user_mode i = refl

  -- The end of OneTick, with the thread switch when a handler asked for it.
  yielded-IsSound :
      (m : MachineStatus) (i : Interrupt) (s : S)
      → IsSound i
      → IsSound (yield_now devices m i s).0 × (now i ≤ now (yield_now devices m i s).0)
  unfolding yield_now
  yielded-IsSound m i s sound =
      let i' : Interrupt = record i { yield_on_return = false; status = system_mode } in
      let sound' : IsSound i' = record {
        in_order = sound.in_order;
        accounts = sound.accounts;
        no_handler = sound.no_handler;
      } in
      let y = obeys.yields i' s sound' in
      (
        record { in_order = y.in_order; accounts = y.accounts; no_handler = y.no_handler },
        obeys.forwards i' s,
      )

  ended-IsSound :
      (b : Bool) (m : MachineStatus) (i : Interrupt) (s : S)
      → IsSound i
      → IsSound (if b then yield_now devices m i s else (i, s)).0
        × (now i ≤ now (if b then yield_now devices m i s else (i, s)).0)
  ended-IsSound true m i s sound = yielded-IsSound m i s sound
  ended-IsSound false m i s sound = (sound, omega arith)

  now-ticked : (m : MachineStatus) (i : Interrupt) → now (ticked m i) ≡ now i + tick_of m
  unfolding ticked user_time
  now-ticked idle_mode i = refl
  now-ticked system_mode i = refl
  now-ticked user_mode i = refl

  -- OneTick on sound interrupts, with fuel for each pending one, where handlers schedule for later and at most `reach` ticks ahead, the
  -- thread switch keeps the interrupts sound and does not set the clock back, and the clock is a tick and `reach` below 2 ^ 31: no ASSERT fails
  -- and the loop of handlers ends, the clock has gone forward, and the interrupts are sound: they are in the order of their times, the total
  -- ticks are the idle, system and user ticks together, and no handler runs.
  pub one_tick-IsSound :
      (n : ℕ) (i : Interrupt) (s : S)
      → IsSound i
      → length i.pending ≤ n
      → now i + tick_of i.status + reach < sign_bit
      → (j : Interrupt) × ((s' : S) × ((one_tick devices n i s ≡ some (j, s'))
            × (IsSound j × (now i < now j))))
  unfolding one_tick change_level advance_time assert
  one_tick-IsSound n i s sound size room =
      let i₁ = change_level int_off (ticked i.status i) in
      let (sound₁, forwards) = ticked-IsSound i.status i sound in
      let clock = now-ticked i.status i in
      let in_range = lt→ltb (now i + tick_of i.status) sign_bit (omega arith) in
      let (b, (j, (s', (run, after)))) =
        check_if_due-After devices reach obeys n i₁ s sound₁ (omega (arith, clock)) refl
          (omega (arith, ap (λ ps. length ps) (ticked-pending i.status i))) in
      let j₁ : Interrupt = record j { level = int_on } in
      let sound_j : IsSound j₁ = record {
        in_order = after.sound.in_order;
        accounts = after.sound.accounts;
        no_handler = after.sound.no_handler;
      } in
      let (y, on) = ended-IsSound j.yield_on_return i.status j₁ s' sound_j in
      rw (in_range, run) (_, (_, (refl, (y, omega (arith, forwards, after.forwards, on)))))

  -- The time at which Idle calls the handlers: now, or that of the first pending interrupt.
  abbrev pub wake_time : List PendingInterrupt → ℕ → ℕ
  wake_time [] time = time
  wake_time (p ∷ ps) time = if ltb time p.when then p.when else time

  -- How Idle ends, by what is pending when it begins: `none` inside is Halt.
  unfoldable pub Idles :
      List PendingInterrupt → Interrupt → Option (Option (Interrupt × S)) → Type ℓ
  Idles [] i o = o ≡ some none
  Idles (p ∷ ps) i o =
      (j : Interrupt) × ((s' : S) × ((o ≡ some (some (j, s')))
          × (IsSound j × ((now i ≤ now j) × (p.when ≤ now j)))))

  idle-fires :
      (p : PendingInterrupt) (ps : List PendingInterrupt) (i : Interrupt) (s : S)
      → IsSound i
      → wake_time (p ∷ ps) (now i) + reach < sign_bit
      → (j : Interrupt) × ((s' : S) × ((examine devices (fired devices) true i s (p ∷ ps)
              ≡ some (true, (j, s')))
            × (IsSound j × ((now i ≤ now j) × (p.when ≤ now j)))))
  unfolding advance_to
  idle-fires p ps i s sound room = elim (Bool-cases (ltb (now i) p.when)) [
    | inl e ↦
        let lt = ltb→lt (now i) p.when e in
        let moved : IsSound (advance_to p.when i) = record {
          in_order = sound.in_order;
          accounts = omega (arith, sound.accounts);
          no_handler = sound.no_handler;
        } in
        let (j, (s', (run, after))) =
          fired-After devices reach obeys (advance_to p.when i) s moved (ground (arith, e, room)) in
        rw e (j, (s', (run, (after.sound, (omega (arith, after.forwards), after.forwards)))))
    | inr e ↦
        let (j, (s', (run, after))) =
          fired-After devices reach obeys i s sound (ground (arith, e, room)) in
        rw e (j, (s', (run, (after.sound, (after.forwards, ground (arith, e, after.forwards))))))
  ]

  -- Idle on sound interrupts with interrupts disabled and fuel for each pending one, where handlers schedule for later and at most `reach` ticks
  -- ahead, and the time at which it calls them is `reach` below 2 ^ 31: with nothing pending it halts; else no ASSERT fails, the clock has come to the time of the first pending interrupt at least and has not gone
  -- back, and the interrupts are sound.
  pub idle-Idles :
      (n : ℕ) (i : Interrupt) (s : S)
      → IsSound i
      → i.level ≡ int_off
      → length i.pending ≤ n
      → wake_time i.pending (now i) + reach < sign_bit
      → Idles i.pending i (idle devices n i s)
  unfolding idle assert Idles
  idle-Idles n i s sound off size room = go i.pending refl
    where
      i₁ : Interrupt
      i₁ = record i { status = idle_mode }

      sound₁ : IsSound i₁
      sound₁ = record {
        in_order = sound.in_order;
        accounts = sound.accounts;
        no_handler = sound.no_handler;
      }

      due_check :
          (ps : List PendingInterrupt)
          → i.pending ≡ ps
          → check_if_due devices n true i₁ s ≡ examine devices (fired devices) true i₁ s ps
      due_check ps here =
          check_if_due-checked devices n true i₁ s sound.in_order size
          ∙ (ap (λ l. assert (is_off l) >> examine devices (fired devices) true i₁ s i.pending) off
              ∙ ap (λ qs. examine devices (fired devices) true i₁ s qs) here)

      go : (ps : List PendingInterrupt) → i.pending ≡ ps → Idles ps i (idle devices n i s)
      go [] here = rw (due_check [] here) refl
      go (p ∷ ps) here =
          let (j, (s', (run, (ok, times)))) =
            idle-fires p ps i₁ s sound₁
              (subst (λ qs. wake_time qs (now i) + reach < sign_bit) here room) in
          rw (due_check (p ∷ ps) here ∙ run) (
            _,
            (
              _,
              (
                refl,
                (
                  record {
                    in_order = ok.in_order;
                    accounts = ok.accounts;
                    no_handler = ok.no_handler;
                  },
                  times,
                ),
              ),
            ),
          )
