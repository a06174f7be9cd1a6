-- ===== src/Containers/Hash/Buckets.antt =====
-- Items found by key in one bucket, and in all the buckets one after the other.
use my_nachos.Base.{
  ℕ, zero, suc, ◌+◌, ◌<◌, ◌≡◌, ◌≢◌, refl, sym, ap, ◌∙◌, subst, true, false, Option, none, some,
  List, [], ◌∷◌, ◌++◌, if◌then◌else◌, ◌==◌, arith, ==_self, ==_of_ne, ==_iff, length, length-append,
  get_or, set, replicate, Bool-cases, inl, inr,
}
use my_nachos.Containers.Sequence.{member}
use my_nachos.Containers.Hash.{find_in}

abbrev pub or_else : Option ℕ → Option ℕ → Option ℕ
or_else none o = o
or_else (some x) o = some x

abbrev pub concat : List (List ℕ) → List ℕ
concat [] = []
concat (xs ∷ bs) = xs ++ concat bs

pub or_else-none : (o : Option ℕ) → or_else o none ≡ o
or_else-none none = refl
or_else-none (some x) = refl

pub or_else_assoc : (a b c : Option ℕ) → or_else (or_else a b) c ≡ or_else a (or_else b c)
or_else_assoc none b c = refl
or_else_assoc (some x) b c = refl

pub length-concat-set :
    (bs : List (List ℕ)) (j : ℕ) (ys : List ℕ)
    → j < length bs
    → length (concat (set bs j ys)) + length (get_or bs j []) ≡ length (concat bs) + length ys
length-concat-set [] j ys lt = absurd (omega arith)
length-concat-set (xs ∷ bs) zero ys lt =
    omega (arith, length-append ys (concat bs), length-append xs (concat bs))
length-concat-set (xs ∷ bs) (suc j) ys lt = omega (
  arith,
  length-concat-set bs j ys (omega arith),
  length-append xs (concat bs),
  length-append xs (concat (set bs j ys)),
)

module _ (get_key : ℕ → ℕ) where
  -- No two items have the same key.
  abbrev pub Keyed : List ℕ → Type 0
  Keyed [] = Unit
  Keyed (x ∷ xs) = (find_in get_key (get_key x) xs ≡ none) × Keyed xs

  -- No item of the first list has its key in the second.
  abbrev pub Apart : List ℕ → List ℕ → Type 0
  Apart [] ys = Unit
  Apart (x ∷ xs) ys = (find_in get_key (get_key x) ys ≡ none) × Apart xs ys

  pub find_in-append :
      (k : ℕ) (xs ys : List ℕ)
      → find_in get_key k (xs ++ ys) ≡ or_else (find_in get_key k xs) (find_in get_key k ys)
  find_in-append k [] ys = refl
  find_in-append k (x ∷ xs) ys = elim (Bool-cases (k == get_key x)) [
    | inl e ↦ rw e refl
    | inr e ↦ rw e (find_in-append k xs ys)
  ]

  pub find_in-key : (k x : ℕ) (xs : List ℕ) → find_in get_key k xs ≡ some x → k ≡ get_key x
  find_in-key k x [] found = absurd (cc)
  find_in-key k x (y ∷ ys) found = elim (Bool-cases (k == get_key y)) [
    | inl e ↦
        let same : some y ≡ some x =
          subst (λ b. (if b then some y else find_in get_key k ys) ≡ some x) e found in
        let key : k ≡ get_key y = (==_iff k (get_key y)).0 e in
        let y_is : y ≡ x = cc in key ∙ ap get_key y_is
    | inr e ↦
        find_in-key k x ys
          (subst (λ b. (if b then some y else find_in get_key k ys) ≡ some x) e found)
  ]

  -- A key that is not found is not the first item's, and not found in the rest.
  pub find_in-none :
      (k y : ℕ) (ys : List ℕ)
      → find_in get_key k (y ∷ ys) ≡ none
      → ((k == get_key y) ≡ false) × (find_in get_key k ys ≡ none)
  find_in-none k y ys f = elim (Bool-cases (k == get_key y)) [
    | inl e ↦
        let bad : some y ≡ none =
          subst (λ b. (if b then some y else find_in get_key k ys) ≡ none) e f in
        absurd (cc)
    | inr e ↦ (e, subst (λ b. (if b then some y else find_in get_key k ys) ≡ none) e f)
  ]

  pub find_in-member :
      (x : ℕ) (xs : List ℕ) → find_in get_key (get_key x) xs ≡ none → member x xs ≡ false
  find_in-member x [] f = refl
  find_in-member x (y ∷ ys) f =
      let (ne, rest) = find_in-none (get_key x) y ys f in
      elim (Bool-cases (x == y)) [
        | inl e ↦
            let same : (get_key x == get_key y) ≡ true =
              rw (ap get_key ((==_iff x y).0 e)) (==_self (get_key y)) in
            let bad : true ≡ false = sym same ∙ ne in absurd (cc)
        | inr e ↦ rw e (find_in-member x ys rest)
      ]

  pub Keyed-append : (xs ys : List ℕ) → Keyed xs → Keyed ys → Apart xs ys → Keyed (xs ++ ys)
  Keyed-append [] ys u v apart = v
  Keyed-append (x ∷ xs) ys (f, u) v (a, apart) =
      (find_in-append (get_key x) xs ys ∙ rw (f, a) refl, Keyed-append xs ys u v apart)

  -- A key that is found nowhere in a list is no item's of it.
  pub Apart-one : (x : ℕ) (xs : List ℕ) → find_in get_key (get_key x) xs ≡ none → Apart xs (x ∷ [])
  Apart-one x [] f = tt
  Apart-one x (y ∷ ys) f =
      let (ne, rest) = find_in-none (get_key x) y ys f in
      (rw (==_of_ne (get_key y) (get_key x) (λ e. differ y ne e)) refl, Apart-one x ys rest)
    where
      differ : (z : ℕ) → (get_key x == get_key z) ≡ false → get_key z ≡ get_key x → ⊥
      differ z ne e =
          let same : (get_key x == get_key z) ≡ true = rw e (==_self (get_key x)) in
          let bad : true ≡ false = sym same ∙ ne in absurd (cc)

  module _ (home : ℕ → ℕ) where
    -- Every item's key has bucket `i` for its home.
    abbrev pub AllAt : ℕ → List ℕ → Type 0
    AllAt i [] = Unit
    AllAt i (x ∷ xs) = (home (get_key x) ≡ i) × AllAt i xs

    -- The buckets from `i` on hold what has its home there, no key twice.
    abbrev pub Located : ℕ → List (List ℕ) → Type 0
    Located i [] = Unit
    Located i (xs ∷ bs) = AllAt i xs × (Keyed xs × Located (suc i) bs)

    pub AllAt-append : (i : ℕ) (xs ys : List ℕ) → AllAt i xs → AllAt i ys → AllAt i (xs ++ ys)
    AllAt-append i [] ys a b = b
    AllAt-append i (x ∷ xs) ys (h, a) b = (h, AllAt-append i xs ys a b)

    pub AllAt-find : (i k : ℕ) (xs : List ℕ) → AllAt i xs → home k ≢ i → find_in get_key k xs ≡ none
    AllAt-find i k [] a ne = refl
    AllAt-find i k (x ∷ xs) (h, a) ne =
        rw (==_of_ne k (get_key x) (λ e. ne (ap home e ∙ h))) (AllAt-find i k xs a ne)

    pub Located-get :
        (i j : ℕ) (bs : List (List ℕ))
        → Located i bs
        → AllAt (i + j) (get_or bs j []) × Keyed (get_or bs j [])
    Located-get i j [] l = (tt, tt)
    Located-get i zero (xs ∷ bs) (a, (u, l)) = (subst (λ n. AllAt n xs) (omega arith) a, u)
    Located-get i (suc j) (xs ∷ bs) (a, (u, l)) =
        subst (λ n. AllAt n (get_or bs j []) × Keyed (get_or bs j [])) (omega arith)
          (Located-get (suc i) j bs l)

    pub Located-set :
        (i j : ℕ) (bs : List (List ℕ)) (ys : List ℕ)
        → Located i bs
        → AllAt (i + j) ys
        → Keyed ys
        → Located i (set bs j ys)
    Located-set i j [] ys l b v = tt
    Located-set i zero (xs ∷ bs) ys (a, (u, l)) b v =
        (subst (λ n. AllAt n ys) (omega arith) b, (v, l))
    Located-set i (suc j) (xs ∷ bs) ys (a, (u, l)) b v =
        (a, (u, Located-set (suc i) j bs ys l (subst (λ n. AllAt n ys) (omega arith) b) v))

    pub Located-replicate : (i n : ℕ) → Located i (replicate n [])
    Located-replicate i zero = tt
    Located-replicate i (suc n) = (tt, (tt, Located-replicate (suc i) n))

    -- A key with its home before the buckets is not found in them.
    pub concat-below :
        (i k : ℕ) (bs : List (List ℕ))
        → Located i bs
        → home k < i
        → find_in get_key k (concat bs) ≡ none
    concat-below i k [] l lt = refl
    concat-below i k (xs ∷ bs) (a, (u, l)) lt =
        find_in-append k xs (concat bs)
        ∙ rw (AllAt-find i k xs a (λ e. omega arith), concat-below (suc i) k bs l (omega arith))
            refl

    -- A key is found among all the items where it is found in its home.
    pub concat-find :
        (i j k : ℕ) (bs : List (List ℕ))
        → Located i bs
        → home k ≡ i + j
        → find_in get_key k (concat bs) ≡ find_in get_key k (get_or bs j [])
    concat-find i j k [] l e = refl
    concat-find i zero k (xs ∷ bs) (a, (u, l)) e =
        find_in-append k xs (concat bs)
        ∙ rw (concat-below (suc i) k bs l (omega arith)) (or_else-none (find_in get_key k xs))
    concat-find i (suc j) k (xs ∷ bs) (a, (u, l)) e =
        find_in-append k xs (concat bs)
        ∙ rw (AllAt-find i k xs a (λ d. omega arith)) (concat-find (suc i) j k bs l (omega arith))

    AllAt-Apart :
        (i : ℕ) (xs : List ℕ) (bs : List (List ℕ))
        → AllAt i xs
        → Located (suc i) bs
        → Apart xs (concat bs)
    AllAt-Apart i [] bs a l = tt
    AllAt-Apart i (x ∷ xs) bs (h, a) l =
        (concat-below (suc i) (get_key x) bs l (omega arith), AllAt-Apart i xs bs a l)

    pub Keyed-concat : (i : ℕ) (bs : List (List ℕ)) → Located i bs → Keyed (concat bs)
    Keyed-concat i [] l = tt
    Keyed-concat i (xs ∷ bs) (a, (u, l)) =
        Keyed-append xs (concat bs) u (Keyed-concat (suc i) bs l) (AllAt-Apart i xs bs a l)
