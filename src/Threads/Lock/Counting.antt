-- ===== src/Threads/Lock/Counting.antt =====
-- The threads of a lock, counted by where they are.
use my_nachos.Base.{
  ℕ, zero, suc, ◌+◌, ◌≤◌, ◌<◌, ◌≡◌, ◌≢◌, refl, sym, ap, List, [], ◌∷◌, ◌++◌, if◌then◌else◌, ◌==◌,
  arith, ==_self, ==_of_ne, ℕ_discrete, dec_lt,
}
use my_nachos.Threads.Lock.{Stage, outside, trying, asleep, entered, owning, leaving, put}

-- 1 for a thread that has taken the value and not given it back.
abbrev pub inside_of : Stage → ℕ
inside_of outside = 0
inside_of trying = 0
inside_of asleep = 0
inside_of entered = 1
inside_of owning = 1
inside_of leaving = 1

abbrev pub asleep_of : Stage → ℕ
asleep_of outside = 0
asleep_of trying = 0
asleep_of asleep = 1
asleep_of entered = 0
asleep_of owning = 0
asleep_of leaving = 0

abbrev pub inside : ℕ → (ℕ → Stage) → ℕ
inside zero stages = 0
inside (suc n) stages = inside n stages + inside_of (stages n)

abbrev pub occurs : ℕ → List ℕ → ℕ
occurs t [] = 0
occurs t (x ∷ xs) = (if x == t then 1 else 0) + occurs t xs

pub occurs-append : (t : ℕ) (xs ys : List ℕ) → occurs t (xs ++ ys) ≡ occurs t xs + occurs t ys
occurs-append t [] ys = omega arith
occurs-append t (x ∷ xs) ys = omega (arith, occurs-append t xs ys)

inside-put_above :
    (n t : ℕ) (st : Stage) (stages : ℕ → Stage)
    → n ≤ t
    → inside n (put t st stages) ≡ inside n stages
inside-put_above zero t st stages h = refl
inside-put_above (suc n) t st stages h =
    rw (==_of_ne n t (λ e. omega arith), inside-put_above n t st stages (omega arith)) refl

pub inside-put :
    (n t : ℕ) (st : Stage) (stages : ℕ → Stage)
    → t < n
    → inside n (put t st stages) + inside_of (stages t) ≡ inside n stages + inside_of st
inside-put zero t st stages h = absurd (omega arith)
inside-put (suc n) t st stages h = elim (ℕ_discrete n t) [
  | yes e ↦ rw (e, ==_self t) (omega (arith, inside-put_above t t st stages (omega arith)))
  | no ne ↦ rw (==_of_ne n t ne) (omega (arith, inside-put n t st stages (omega arith)))
]

-- A thread inside is counted.
pub inside-counts : (n t : ℕ) (stages : ℕ → Stage) → t < n → inside_of (stages t) ≤ inside n stages
inside-counts n t stages h = omega (arith, inside-put n t outside stages h)

-- Two of them are counted twice.
pub inside-two :
    (n t u : ℕ) (stages : ℕ → Stage)
    → t < n
    → u < n
    → t ≢ u
    → inside_of (stages t) + inside_of (stages u) ≤ inside n stages
inside-two n t u stages ht hu ne =
    let less = inside-counts n u (put t outside stages) hu in
    let same : put t outside stages u ≡ stages u = rw (==_of_ne u t (λ e. ne (sym e))) refl in
    omega (arith, inside-put n t outside stages ht, less, ap inside_of same)

pub put_self : (t : ℕ) (st : Stage) (stages : ℕ → Stage) → put t st stages t ≡ st
put_self t st stages = rw (==_self t) refl

pub put_other : (t u : ℕ) (st : Stage) (stages : ℕ → Stage) → u ≢ t → put t st stages u ≡ stages u
put_other t u st stages ne = rw (==_of_ne u t ne) refl

pub inside-put_same :
    (n t : ℕ) (st : Stage) (stages : ℕ → Stage)
    → inside_of (stages t) ≡ inside_of st
    → inside n (put t st stages) ≡ inside n stages
inside-put_same n t st stages same = elim (dec_lt t n) [
  | yes lt ↦ omega (arith, inside-put n t st stages lt, same)
  | no far ↦ inside-put_above n t st stages (omega arith)
]

pub sleeping : (st : Stage) → asleep_of st ≢ 0 → st ≡ asleep
sleeping asleep h = refl
sleeping outside h = absurd (h refl)
sleeping trying h = absurd (h refl)
sleeping entered h = absurd (h refl)
sleeping owning h = absurd (h refl)
sleeping leaving h = absurd (h refl)
