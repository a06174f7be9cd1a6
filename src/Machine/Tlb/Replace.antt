-- ===== src/Machine/Tlb/Replace.antt =====
-- code/machine/machine.cc: which entry is replaced.
use my_nachos.Base.{
  ℕ, zero, suc, ◌+◌, ◌≤◌, ◌<◌, ◌≡◌, ◌≢◌, refl, sym, ap, Bool, true, false, not, List, [], ◌∷◌,
  if◌then◌else◌, leb, ltb, ◌==◌, get_or, length, arith, Bool-cases, inl, inr, ==_of_ne, ltb→lt,
  get_or-set_self, get_or-set_ne, length-set,
}
use my_nachos.Machine.Tlb.{
  Policy, fifo, lru, TranslationEntry, reset_entry, flag_of, with_flag, int_max, find_least,
  find_one_to_replace, newest, update_flag,
}

-- The flag of the entry at a place.
abbrev pub flag_at : Policy → List TranslationEntry → ℕ → ℕ
flag_at p t j = flag_of p (get_or t j reset_entry)

-- The flags are ints.
abbrev pub AreInts : Policy → List TranslationEntry → Type 0
AreInts p t = (j : ℕ) → j < length t → flag_at p t j ≤ int_max

-- The place that the loop ends with: targeti when no flag is below targetv, and else one with the least flag.
data Least (p : Policy) (es : List TranslationEntry) (i targetv targeti : ℕ) : ℕ → Type 0 where
  kept : ((j : ℕ) → j < length es → targetv ≤ flag_at p es j) → Least p es i targetv targeti targeti
  found :
      {r : ℕ} (k : ℕ)
      → r ≡ i + k
      → k < length es
      → flag_at p es k < targetv
      → ((j : ℕ) → j < length es → flag_at p es k ≤ flag_at p es j)
      → Least p es i targetv targeti r

all-cons :
    (p : Policy) (v : ℕ) (e : TranslationEntry) (es : List TranslationEntry)
    → v ≤ flag_of p e
    → ((j : ℕ) → j < length es → v ≤ flag_at p es j)
    → (j : ℕ) → j < length (e ∷ es)
    → v ≤ flag_at p (e ∷ es) j
all-cons p v e es h all zero lt = h
all-cons p v e es h all (suc j) lt = all j (omega arith)

find_least-Least :
    (p : Policy) (es : List TranslationEntry) (i targetv targeti : ℕ)
    → Least p es i targetv targeti (find_least p es i targetv targeti)
unfolding find_least
find_least-Least p [] i targetv targeti = kept (λ j h. absurd (omega arith))
find_least-Least p (e ∷ es) i targetv targeti = elim (Bool-cases (ltb (flag_of p e) targetv)) [
  | inl lower ↦ rw lower (below lower (find_least-Least p es (i + 1) (flag_of p e) i))
  | inr higher ↦ rw higher (above higher (find_least-Least p es (i + 1) targetv targeti))
]
  where
    below :
        {r : ℕ}
        → ltb (flag_of p e) targetv ≡ true
        → Least p es (i + 1) (flag_of p e) i r
        → Least p (e ∷ es) i targetv targeti r
    below lower (kept all) =
        found 0 (omega arith) (omega arith) (ltb→lt _ _ lower)
          (all-cons p (flag_of p e) e es (omega arith) all)
    below lower (found k at h less all) =
        found (suc k) (omega arith) (omega arith) (omega (arith, less, ltb→lt _ _ lower))
          (all-cons p (flag_at p es k) e es (omega (arith, less)) all)

    above :
        {r : ℕ}
        → ltb (flag_of p e) targetv ≡ false
        → Least p es (i + 1) targetv targeti r
        → Least p (e ∷ es) i targetv targeti r
    above higher (kept all) = kept (all-cons p targetv e es (ground (arith, higher)) all)
    above higher (found k at h less all) =
        found (suc k) (omega arith) (omega arith) less
          (all-cons p (flag_at p es k) e es (ground (arith, higher, less)) all)

-- In a table with int flags and at least one entry, `findOneToReplace` gives a place of the table, and the flag there is
-- least.
pub find_one_to_replace-least :
    (p : Policy) (t : List TranslationEntry) (j : ℕ)
    → AreInts p t
    → j < length t
    → (find_one_to_replace p t < length t) × (flag_at p t (find_one_to_replace p t) ≤ flag_at p t j)
unfolding find_one_to_replace
find_one_to_replace-least p t j ints h = go (find_least-Least p t 0 int_max 0)
  where
    go : {r : ℕ} → Least p t 0 int_max 0 r → (r < length t) × (flag_at p t r ≤ flag_at p t j)
    go (kept all) = (omega arith, omega (arith, ints 0 (omega arith), all j h))
    go {r = r} (found k at lt less all) = let e : r ≡ k = omega arith in rw e (lt, all j h)

-- The flag that the loop goes on with.
next_num-ge : (c : Bool) (f num : ℕ) → num ≤ (if c then (if leb f num then num else f) else num)
next_num-ge c f num = ground arith

next_num-flag :
    (c : Bool) (f num : ℕ) → c ≡ true → f ≤ (if c then (if leb f num then num else f) else num)
next_num-flag c f num h = ground arith

newest-ge : (p : Policy) (es : List TranslationEntry) (i pos num : ℕ) → num ≤ newest p es i pos num
unfolding newest
newest-ge p [] i pos num = omega arith
newest-ge p (e ∷ es) i pos num = omega (
  arith,
  next_num-ge (if e.valid then not (i == pos) else false) (flag_of p e) num,
  newest-ge p es (i + 1) pos (
      if (if e.valid then not (i == pos) else false)
      then (if leb (flag_of p e) num then num else flag_of p e)
      else num),
)

newest-bounds :
    (p : Policy) (es : List TranslationEntry) (i pos num k : ℕ)
    → k < length es
    → (get_or es k reset_entry).valid ≡ true
    → i + k ≢ pos
    → flag_at p es k ≤ newest p es i pos num
unfolding newest
newest-bounds p [] i pos num k h v n = absurd (omega arith)
newest-bounds p (e ∷ es) i pos num zero h v n =
    let apart = ==_of_ne i pos (λ x. n (omega arith)) in
    let counts : (if e.valid then not (i == pos) else false) ≡ true = cc in
    omega (
      arith,
      next_num-flag (if e.valid then not (i == pos) else false) (flag_of p e) num counts,
      newest-ge p es (i + 1) pos (
          if (if e.valid then not (i == pos) else false)
          then (if leb (flag_of p e) num then num else flag_of p e)
          else num),
    )
newest-bounds p (e ∷ es) i pos num (suc k) h v n =
    newest-bounds p es (i + 1) pos _ k (omega arith) v (λ x. n (omega arith))

length-update_flag :
    (p : Policy) (t : List TranslationEntry) (pos : ℕ) → length (update_flag p t pos) ≡ length t
unfolding update_flag
length-update_flag p t pos = length-set t pos _

flag_of-with_flag : (p : Policy) (f : ℕ) (e : TranslationEntry) → flag_of p (with_flag p f e) ≡ f
flag_of-with_flag fifo f e = refl
flag_of-with_flag lru f e = refl

-- After the flag of a place is updated, it is above the flag of every other valid entry, and the other entries are as before.
pub update_flag-newest :
    (p : Policy) (t : List TranslationEntry) (pos j : ℕ)
    → pos < length t
    → j < length t
    → j ≢ pos
    → (get_or t j reset_entry).valid ≡ true
    → (flag_at p (update_flag p t pos) j < flag_at p (update_flag p t pos) pos)
      × (get_or (update_flag p t pos) j reset_entry ≡ get_or t j reset_entry)
unfolding update_flag
update_flag-newest p t pos j hp hj n v =
    let e : TranslationEntry = with_flag p (newest p t 0 pos 0 + 1) (get_or t pos reset_entry) in
    let self = get_or-set_self t pos e reset_entry hp in
    let other = get_or-set_ne t pos j e reset_entry (λ x. n (sym x)) in
    let most = newest-bounds p t 0 pos 0 j hj v (λ x. n (omega arith)) in
    (
      rw (self, other, flag_of-with_flag p (newest p t 0 pos 0 + 1) (get_or t pos reset_entry))
          (omega (arith, most)),
      other,
    )

-- The entry that was loaded or used last is not the next to be replaced: in a table with another valid entry, whose
-- flags are ints after the update, `findOneToReplace` gives another place.
pub find_one_to_replace-update_flag :
    (p : Policy) (t : List TranslationEntry) (pos j : ℕ)
    → pos < length t
    → j < length t
    → j ≢ pos
    → (get_or t j reset_entry).valid ≡ true
    → AreInts p (update_flag p t pos)
    → find_one_to_replace p (update_flag p t pos) ≢ pos
find_one_to_replace-update_flag p t pos j hp hj n v ints same =
    let above = (update_flag-newest p t pos j hp hj n v).0 in
    let lt : j < length (update_flag p t pos) = rw (length-update_flag p t pos) hj in
    let least = (find_one_to_replace-least p (update_flag p t pos) j ints lt).1 in
    omega (arith, above, least, ap (flag_at p (update_flag p t pos)) same)
