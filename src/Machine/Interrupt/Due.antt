-- ===== src/Machine/Interrupt/Due.antt =====
-- `Interrupt::CheckIfDue`: which interrupts fire, in which order, and that the loop ends.
use my_nachos.Base.{
  ℕ, suc, ◌<◌, ◌≤◌, ◌≡◌, refl, ap, subst, false, List, [], ◌∷◌, ◌++◌, if◌then◌else◌, ltb, leb,
  arith, ltb→lt, length, Bool-cases, inl, inr,
}
use my_nachos.Machine.Interrupt.{PendingInterrupt, insert}

abbrev pub AtLeast : ℕ → List PendingInterrupt → Type 0
AtLeast n [] = Unit
AtLeast n (p ∷ ps) = (n ≤ p.when) × AtLeast n ps

-- The pending interrupts in the order of their times.
abbrev pub IsSorted : List PendingInterrupt → Type 0
IsSorted [] = Unit
IsSorted (p ∷ ps) = AtLeast p.when ps × IsSorted ps

-- The interrupts at the front that are due by a time, and the others.
abbrev pub due : ℕ → List PendingInterrupt → List PendingInterrupt
due now [] = []
due now (p ∷ ps) = let rest = due now ps in if leb p.when now then p ∷ rest else []

abbrev pub later : ℕ → List PendingInterrupt → List PendingInterrupt
later now [] = []
later now (p ∷ ps) = let rest = later now ps in if leb p.when now then rest else p ∷ ps

pub AtLeast-weaken : (m n : ℕ) (ps : List PendingInterrupt) → m ≤ n → AtLeast n ps → AtLeast m ps
AtLeast-weaken m n [] h a = tt
AtLeast-weaken m n (p ∷ ps) h (b, a) = (omega arith, AtLeast-weaken m n ps h a)

pub AtLeast-insert :
    (n : ℕ) (p : PendingInterrupt) (ps : List PendingInterrupt)
    → n ≤ p.when
    → AtLeast n ps
    → AtLeast n (insert p ps)
unfolding insert
AtLeast-insert n p [] h a = (h, tt)
AtLeast-insert n p (q ∷ qs) h (b, a) = elim (Bool-cases (ltb p.when q.when)) [
  | inl e ↦ rw e (h, (b, a))
  | inr e ↦ rw e (b, AtLeast-insert n p qs h a)
]

pub insert-IsSorted :
    (p : PendingInterrupt) (ps : List PendingInterrupt) → IsSorted ps → IsSorted (insert p ps)
unfolding insert
insert-IsSorted p [] s = (tt, tt)
insert-IsSorted p (q ∷ qs) (a, s) = elim (Bool-cases (ltb p.when q.when)) [
  | inl e ↦
      let lt = ltb→lt p.when q.when e in
      rw e ((omega arith, AtLeast-weaken p.when q.when qs (omega arith) a), (a, s))
  | inr e ↦ rw e (AtLeast-insert q.when p qs (ground arith) a, insert-IsSorted p qs s)
]

-- A later interrupt goes after the ones that are due.
pub insert-after :
    (now : ℕ) (p : PendingInterrupt) (ps qs : List PendingInterrupt)
    → now < p.when
    → due now ps ≡ ps
    → insert p (ps ++ qs) ≡ ps ++ insert p qs
unfolding insert
insert-after now p [] qs h d = refl
insert-after now p (q ∷ ps) qs h d = elim (Bool-cases (leb q.when now)) [
  | inl e ↦
      let both : q ∷ due now ps ≡ q ∷ ps =
        subst (λ b. (if b then q ∷ due now ps else []) ≡ q ∷ ps) e d in
      let d' : due now ps ≡ ps = cc in
      let not_before : ltb p.when q.when ≡ false = ground (arith, e, h) in
      rw not_before (ap (q ∷◌) (insert-after now p ps qs h d'))
  | inr e ↦
      let bad : [] ≡ q ∷ ps = subst (λ b. (if b then q ∷ due now ps else []) ≡ q ∷ ps) e d in
      absurd (cc)
]

pub due-later : (now : ℕ) (ps : List PendingInterrupt) → due now ps ++ later now ps ≡ ps
due-later now [] = refl
due-later now (p ∷ ps) = elim (Bool-cases (leb p.when now)) [
  | inl e ↦ rw e (ap (p ∷◌) (due-later now ps))
  | inr e ↦ rw e refl
]

pub due-due : (now : ℕ) (ps : List PendingInterrupt) → due now (due now ps) ≡ due now ps
due-due now [] = refl
due-due now (p ∷ ps) = elim (Bool-cases (leb p.when now)) [
  | inl e ↦ rw (e, e) (ap (p ∷◌) (due-due now ps))
  | inr e ↦ rw e refl
]

pub later-AtLeast :
    (now : ℕ) (ps : List PendingInterrupt)
    → IsSorted ps
    → AtLeast (suc now) (later now ps) × IsSorted (later now ps)
later-AtLeast now [] s = (tt, tt)
later-AtLeast now (p ∷ ps) (a, s) = elim (Bool-cases (leb p.when now)) [
  | inl e ↦ rw e (later-AtLeast now ps s)
  | inr e ↦
      let h : suc now ≤ p.when = ground (arith, e) in
      rw e ((h, AtLeast-weaken (suc now) p.when ps h a), (a, s))
]

pub length-due : (now : ℕ) (ps : List PendingInterrupt) → length (due now ps) ≤ length ps
length-due now [] = omega arith
length-due now (p ∷ ps) = elim (Bool-cases (leb p.when now)) [
  | inl e ↦ rw e (omega (arith, length-due now ps))
  | inr e ↦ rw e (omega arith)
]
