-- ===== src/Filesys/Name.antt =====
-- File names as the C library compares and copies them: `strncmp(a, b, n) == 0` and `strncpy`.
-- A string is the list of its bytes; past its end every read gives the terminating 0.
use my_nachos.Base.{
  ℕ, zero, suc, Bool, true, false, List, [], ◌∷◌, if◌then◌else◌, ◌==◌, ◌≡◌, refl, arith, length,
  ◌≤◌,
}

abbrev pub first_char : List ℕ → ℕ
first_char [] = 0
first_char (c ∷ s) = c

abbrev pub rest : List ℕ → List ℕ
rest [] = []
rest (c ∷ s) = s

unfoldable pub strncmp_eq : List ℕ → List ℕ → ℕ → Bool
strncmp_eq a b zero = true
strncmp_eq a b (suc n) =
    let later = strncmp_eq (rest a) (rest b) n in
    if first_char a == first_char b then (if first_char a == 0 then true else later) else false

unfoldable pub strncpy : List ℕ → List ℕ → ℕ → List ℕ
strncpy dest src zero = dest
strncpy dest src (suc n) =
    first_char src ∷ strncpy (rest dest) (if first_char src == 0 then [] else rest src) n

pub strncmp_refl : (a : List ℕ) (n : ℕ) → strncmp_eq a a n ≡ true
unfolding strncmp_eq
strncmp_refl a zero = refl
strncmp_refl a (suc n) = ground (arith, strncmp_refl (rest a) n)

pub strncmp_sym : (a b : List ℕ) (n : ℕ) → strncmp_eq a b n ≡ strncmp_eq b a n
unfolding strncmp_eq
strncmp_sym a b zero = refl
strncmp_sym a b (suc n) = ground (arith, strncmp_sym (rest a) (rest b) n)

-- Strings that compare equal compare alike with any third.
pub strncmp_trans :
    (a b c : List ℕ) (n : ℕ) → strncmp_eq a b n ≡ true → strncmp_eq a c n ≡ strncmp_eq b c n
unfolding strncmp_eq
strncmp_trans a b c zero h = refl
strncmp_trans a b c (suc n) h = ground (arith, strncmp_trans (rest a) (rest b) (rest c) n)

-- A copy compares as its source does.
pub strncmp-strncpy :
    (dest src q : List ℕ) (n : ℕ) → strncmp_eq (strncpy dest src n) q n ≡ strncmp_eq src q n
unfolding strncmp_eq strncpy
strncmp-strncpy dest src q zero = refl
strncmp-strncpy dest src q (suc n) = ground (
  arith,
  strncmp-strncpy (rest dest) (rest src) (rest q) n,
  strncmp-strncpy (rest dest) [] (rest q) n,
)

pub length-strncpy :
    (dest src : List ℕ) (n : ℕ) → n ≤ length dest → length (strncpy dest src n) ≡ length dest
unfolding strncpy
length-strncpy dest src zero h = refl
length-strncpy [] src (suc n) h = absurd (omega arith)
length-strncpy (c ∷ dest) src (suc n) h =
    omega
      (arith, length-strncpy dest (if first_char src == 0 then [] else rest src) n (omega arith))
