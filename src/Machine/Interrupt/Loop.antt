-- ===== src/Machine/Interrupt/Loop.antt =====
-- The loop of `Interrupt::CheckIfDue`: it ends, and fires what was due when it began.
use my_nachos.Base.{
  ℕ, zero, suc, ◌<◌, ◌≤◌, ◌≡◌, refl, sym, ap, ◌∙◌, subst, Bool, true, false, Option, some, List, [],
  ◌∷◌, ◌++◌, if◌then◌else◌, ltb, leb, arith, length, Bool-cases, Option-cases, inl, inr,
}
use my_nachos.Base.Checked.{◌>>=◌, ◌>>◌, assert, >>=-eq-some}
use my_nachos.Machine.Interrupt.{
  Interrupt, PendingInterrupt, Devices, is_off, carry_out, more_due, handle, fire, fire_all,
  advance_to, examine, check_if_due,
}
use my_nachos.Machine.Interrupt.Due.{
  AtLeast, IsSorted, due, later, due-later, due-due, later-AtLeast, length-due, due-later, due-due,
}
use my_nachos.Machine.Interrupt.Requests.{
  now, Settled, SameRun, SameRun-refl, SameRun-trans, carry_out-Settled, prepend, carry_out-prepend,
}

-- The same interrupts fire one after the other, whatever is scheduled meanwhile.
module _ {ℓ} {S : Type ℓ} (devices : Devices S) where
  abbrev pub run_all : List PendingInterrupt → Interrupt → S → Option (Interrupt × S)
  run_all [] i s = some (i, s)
  run_all (p ∷ ps) i s = handle devices p i s >>= λ r. run_all ps r.0 r.1

  pub handle-Settled :
      (p : PendingInterrupt) (i j : Interrupt) (s s' : S)
      → Settled i
      → handle devices p i s ≡ some (j, s')
      → Settled j × SameRun i j
  unfolding handle
  handle-Settled p i j s s' settled run =
      let (t, rs) = devices.call_back p.call_on_interrupt i.status s in
      let (k, done, rest) = >>=-eq-some (carry_out rs i) (λ i'. some (i', t)) run in
      let same : k ≡ j = cc in
      subst (λ x. Settled x × SameRun i x) same (carry_out-Settled rs i k settled done)

  pub run_all-Settled :
      (ps : List PendingInterrupt) (i j : Interrupt) (s s' : S)
      → Settled i
      → run_all ps i s ≡ some (j, s')
      → Settled j × SameRun i j
  run_all-Settled [] i j s s' settled run =
      let same : i ≡ j = cc in subst (λ k. Settled k × SameRun i k) same (settled, SameRun-refl i)
  run_all-Settled (p ∷ ps) i j s s' settled run =
      let ((k, t), first, rest) =
        >>=-eq-some (handle devices p i s) (λ r. run_all ps r.0 r.1) run in
      let (sk, ik) = handle-Settled p i k s t settled first in
      let (sj, kj) = run_all-Settled ps k j t s' sk rest in (sj, SameRun-trans i k j ik kj)

  prepended_pair : List PendingInterrupt → Option (Interrupt × S) → Option (Interrupt × S)
  prepended_pair ps o = o >>= λ r. some (prepend ps r.0, r.1)

  handle-prepend :
      (p : PendingInterrupt) (ps : List PendingInterrupt) (i : Interrupt) (s : S)
      → due (now i) ps ≡ ps
      → handle devices p (prepend ps i) s ≡ prepended_pair ps (handle devices p i s)
  unfolding handle prepended_pair
  handle-prepend p ps i s d =
      let (t, rs) = devices.call_back p.call_on_interrupt i.status s in
      rw (carry_out-prepend rs ps i d)
        (elim (Option-cases (carry_out rs i)) [ inl e ↦ rw e refl | inr (j, e) ↦ rw e refl ])

  none_more : (i : Interrupt) → Settled i → more_due i ≡ false
  unfolding more_due
  none_more i settled = go i.pending settled.none_due
    where
      go :
          (ps : List PendingInterrupt)
          → AtLeast (suc (now i)) ps
          → (elim ps [ [] ↦ false | p ∷ qs ↦ leb p.when (now i) ]) ≡ false
      go [] a = refl
      go (p ∷ qs) (h, a) = ground (arith, h)

  more_due-prepend :
      (q : PendingInterrupt) (qs : List PendingInterrupt) (i : Interrupt)
      → more_due (prepend (q ∷ qs) i) ≡ leb q.when (now i)
  unfolding more_due
  more_due-prepend q qs i = refl

  rest_due :
      (t : ℕ) (q : PendingInterrupt) (ps : List PendingInterrupt)
      → due t (q ∷ ps) ≡ q ∷ ps
      → (leb q.when t ≡ true) × (due t ps ≡ ps)
  rest_due t q ps d = elim (Bool-cases (leb q.when t)) [
    | inl e ↦
        let both : q ∷ due t ps ≡ q ∷ ps =
          subst (λ b. (if b then q ∷ due t ps else []) ≡ q ∷ ps) e d in
        let same : due t ps ≡ ps = cc in (e, same)
    | inr e ↦
        let bad : [] ≡ q ∷ ps = subst (λ b. (if b then q ∷ due t ps else []) ≡ q ∷ ps) e d in
        absurd (cc)
  ]

  fire-run_all :
      (n : ℕ) (p : PendingInterrupt) (ps : List PendingInterrupt) (i : Interrupt) (s : S)
      → Settled i
      → due (now i) ps ≡ ps
      → length ps < n
      → fire devices n (prepend (p ∷ ps) i) s ≡ run_all (p ∷ ps) i s
  unfolding fire prepended_pair
  fire-run_all zero p ps i s settled d lt = absurd (omega arith)
  fire-run_all (suc n) p ps i s settled d lt =
      rw (handle-prepend p ps i s d) (elim (Option-cases (handle devices p i s)) [
        | inl e ↦ rw e refl
        | inr ((j, t), e) ↦
            rw e (
              continue (fire-run_all n) j t (handle-Settled p i j s t settled e) ps d (omega arith))
      ])
    where
      continue :
          ((q : PendingInterrupt) (qs : List PendingInterrupt) (j : Interrupt) (t : S)
            → Settled j
            → due (now j) qs ≡ qs
            → length qs < n
            → fire devices n (prepend (q ∷ qs) j) t ≡ run_all (q ∷ qs) j t)
          → (j : Interrupt) (t : S) → Settled j × SameRun i j
          → (qs : List PendingInterrupt) → due (now i) qs ≡ qs
          → length qs ≤ n
          → (if more_due (prepend qs j)
              then fire devices n (prepend qs j) t
              else some (prepend qs j, t))
            ≡ run_all qs j t
      continue ih j t (sj, ij) [] d' lt' = rw (none_more j sj) refl
      continue ih j t (sj, ij) (q ∷ qs) d' lt' =
          let clock : now j ≡ now i = ap (λ x. x.total_ticks) ij.stats_is in
          let (is_due, rest) =
            rest_due (now j) q qs (subst (λ x. due x (q ∷ qs) ≡ q ∷ qs) (sym clock) d') in
          rw (more_due-prepend q qs j, is_due) (ih q qs j t sj rest (omega arith))

  -- The handlers of what is due, called with the later interrupts pending.
  abbrev pub fired : Interrupt → S → Option (Bool × (Interrupt × S))
  fired i s =
      run_all (due (now i) i.pending)
        (record i { in_handler = true; pending = later (now i) i.pending }) (devices.delayed_load s)
      >>= λ r. some (true, (record r.0 { in_handler = false }, r.1))

  -- CheckIfDue with the list of what fires fixed when it begins.
  abbrev pub checked : Bool → Interrupt → S → Option (Bool × (Interrupt × S))
  checked advance_clock i s =
      assert (is_off i.level) >> examine devices fired advance_clock i s i.pending

  pub later-Settled :
      (i : Interrupt)
      → IsSorted i.pending
      → Settled (record i { in_handler = true; pending = later (now i) i.pending })
  later-Settled i sorted =
      let (none_due, in_order) = later-AtLeast (now i) i.pending sorted in
      record { none_due = none_due; in_order = in_order }

  fire_all-fired :
      (n : ℕ) (p : PendingInterrupt) (ps : List PendingInterrupt) (i : Interrupt) (s : S)
      → i.pending ≡ p ∷ ps
      → leb p.when (now i) ≡ true
      → IsSorted i.pending
      → length i.pending ≤ n
      → fire_all devices n i s ≡ fired i s
  unfolding fire_all
  fire_all-fired n p ps i s here first sorted size =
      let t = now i in
      let k : Interrupt = record i { in_handler = true; pending = later t i.pending } in
      let front : due t i.pending ≡ p ∷ due t ps = rw (here, first) refl in
      let whole : record i { in_handler = true } ≡ prepend (p ∷ due t ps) k =
        ap (λ qs. record i { in_handler = true; pending = qs })
          (sym (due-later t i.pending) ∙ ap (λ qs. qs ++ later t i.pending) front) in
      let run =
        fire-run_all n p (due t ps) k (devices.delayed_load s) (later-Settled i sorted)
          (due-due t ps) (omega (arith, length-due t ps, ap (λ qs. length qs) here)) in
      ap (λ o. o >>= λ r. some (true, (record r.0 { in_handler = false }, r.1)))
        (ap (λ j. fire devices n j (devices.delayed_load s)) whole
          ∙ run
          ∙ ap (λ qs. run_all qs k (devices.delayed_load s)) (sym front))

  -- CheckIfDue on pending interrupts in order, with fuel for one turn of the loop for each of them, is `checked`: the loop ends,
  -- it calls the handlers of exactly the interrupts that were due when it began, or became due when the clock was moved on, in the order of
  -- the list, whatever the handlers schedule meanwhile, and when an ASSERT fails or a time past 2 ^ 31 is asked for, the one has no result and
  -- neither has the other.
  pub check_if_due-checked :
      (n : ℕ) (advance_clock : Bool) (i : Interrupt) (s : S)
      → IsSorted i.pending
      → length i.pending ≤ n
      → check_if_due devices n advance_clock i s ≡ checked advance_clock i s
  unfolding check_if_due advance_to
  check_if_due-checked n advance_clock i s sorted size =
      ap (λ o. assert (is_off i.level) >> o) (go i.pending refl)
    where
      go :
          (qs : List PendingInterrupt)
          → i.pending ≡ qs
          → examine devices (fire_all devices n) advance_clock i s qs
            ≡ examine devices fired advance_clock i s qs
      go [] here = refl
      go (p ∷ ps) here = elim (Bool-cases (ltb (now i) p.when)) [
        | inl e ↦ rw e (
            ap (λ o. if advance_clock then o else some (false, (i, s)))
              (fire_all-fired n p ps (advance_to p.when i) s here (ground arith) sorted size))
        | inr e ↦ rw e (fire_all-fired n p ps i s here (ground (arith, e)) sorted size)
      ]
