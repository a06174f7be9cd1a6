-- ===== src/Containers/Hash/Remove.antt =====
-- `Remove`: the item with a key taken out of its bucket.
use my_nachos.Base.{
  ℕ, ◌+◌, ◌-◌, ◌<◌, ◌≡◌, refl, sym, ap, ◌∙◌, subst, true, false, Option, none, some, List, [], ◌∷◌,
  if◌then◌else◌, ◌==◌, arith, ==_self, ==_iff, ==_of_ne, length, length-set, get_or, set,
  get_or-set_self, get_or-set_ne, ℕ_discrete, Bool-cases, inl, inr,
}
use my_nachos.Base.Checked.{assert}
use my_nachos.Containers.Sequence.{member, remove_first, remove_item}
use my_nachos.Containers.Hash.{HashTable, bucket, find_in, find, remove}
use my_nachos.Containers.Hash.Buckets.{
  concat, Keyed, AllAt, find_in-key, find_in-none, find_in-member, Located-get, Located-set,
  length-concat-set,
}
use my_nachos.Containers.Hash.Place.{
  home, home_lt, held, IsHashed, hash_value_lem, find_lem, is_in_table_lem,
}
use my_nachos.Containers.Hash.Rehash.{IsValid}

length-remove_first :
    (x : ℕ) (xs : List ℕ) → member x xs ≡ true → length (remove_first x xs) + 1 ≡ length xs
length-remove_first x [] m = absurd (cc)
length-remove_first x (y ∷ ys) m = elim (Bool-cases (x == y)) [
  | inl e ↦ rw e (omega arith)
  | inr e ↦ rw e (
      omega (
        arith,
        length-remove_first x ys (subst (λ b. (if b then true else member x ys) ≡ true) e m),
      ))
]

module _ (get_key : ℕ → ℕ) where
  found-member : (k x : ℕ) (xs : List ℕ) → find_in get_key k xs ≡ some x → member x xs ≡ true
  found-member k x [] f = absurd (cc)
  found-member k x (y ∷ ys) f = elim (Bool-cases (k == get_key y)) [
    | inl e ↦
        let same : some y ≡ some x =
          subst (λ b. (if b then some y else find_in get_key k ys) ≡ some x) e f in
        let y_is : x ≡ y = cc in rw (y_is, ==_self y) refl
    | inr e ↦
        let rest =
          found-member k x ys
            (subst (λ b. (if b then some y else find_in get_key k ys) ≡ some x) e f) in
        elim (Bool-cases (x == y)) [ inl i ↦ rw i refl | inr i ↦ rw i rest ]
  ]

  -- A key that is not found is still not found.
  remove_first-none :
      (k x : ℕ) (xs : List ℕ)
      → find_in get_key k xs ≡ none
      → find_in get_key k (remove_first x xs) ≡ none
  remove_first-none k x [] f = refl
  remove_first-none k x (y ∷ ys) f =
      let (ne, rest) = find_in-none get_key k y ys f in
      elim (Bool-cases (x == y)) [
        | inl i ↦ rw i rest
        | inr i ↦ rw (i, ne) (remove_first-none k x ys rest)
      ]

  remove_first-Keyed : (x : ℕ) (xs : List ℕ) → Keyed get_key xs → Keyed get_key (remove_first x xs)
  remove_first-Keyed x [] u = tt
  remove_first-Keyed x (y ∷ ys) (f, u) = elim (Bool-cases (x == y)) [
    | inl i ↦ rw i u
    | inr i ↦ rw i (remove_first-none (get_key y) x ys f, remove_first-Keyed x ys u)
  ]

  remove_first-AllAt :
      (h : ℕ → ℕ) (i x : ℕ) (xs : List ℕ)
      → AllAt get_key h i xs
      → AllAt get_key h i (remove_first x xs)
  remove_first-AllAt h i x [] a = tt
  remove_first-AllAt h i x (y ∷ ys) (e, a) = elim (Bool-cases (x == y)) [
    | inl j ↦ rw j a
    | inr j ↦ rw j (e, remove_first-AllAt h i x ys a)
  ]

  -- The key of the item that is gone is not found, every other key is found as it was.
  remove_first-find :
      (k x j : ℕ) (xs : List ℕ)
      → Keyed get_key xs
      → find_in get_key k xs ≡ some x
      → find_in get_key j (remove_first x xs) ≡ (if j == k then none else find_in get_key j xs)
  remove_first-find k x j [] u f = absurd (cc)
  remove_first-find k x j (y ∷ ys) (g, u) f = elim (Bool-cases (k == get_key y)) [
    | inl e ↦
        let same : some y ≡ some x =
          subst (λ b. (if b then some y else find_in get_key k ys) ≡ some x) e f in
        let y_is : x ≡ y = cc in
        let key : k ≡ get_key y = (==_iff k (get_key y)).0 e in
        rw (y_is, ==_self y, key)
          (elim (Bool-cases (j == get_key y)) [
            | inl i ↦ rw i (ap (λ m. find_in get_key m ys) ((==_iff j (get_key y)).0 i) ∙ g)
            | inr i ↦ rw i refl
          ])
    | inr e ↦
        let below = subst (λ b. (if b then some y else find_in get_key k ys) ≡ some x) e f in
        let apart : (x == y) ≡ false = ==_of_ne x y (λ i.
          let key = find_in-key get_key k x ys below in
          let bad : true ≡ false = sym (rw (key, i) (==_self (get_key y))) ∙ e in absurd (cc)) in
        rw apart (elim (Bool-cases (j == get_key y)) [
          | inl i ↦
              let j_is = (==_iff j (get_key y)).0 i in
              let other : (j == k) ≡ false = ==_of_ne j k (λ d.
                let bad : true ≡ false = sym (rw (sym d ∙ j_is) (==_self (get_key y))) ∙ e in
                absurd (cc)) in
              rw (i, other) refl
          | inr i ↦ rw i (remove_first-find k x j ys u below)
        ])
  ]

module _ (get_key hash : ℕ → ℕ) where
  -- The table with one item fewer, which its key does not find any more; every other key finds what it found.
  pub record Shrunk (k : ℕ) (t t' : HashTable) : Type 0 where
    pub valid : IsValid get_key hash t'
    pub num_items_is : t'.num_items + 1 ≡ t.num_items
    pub find_is :
        (j : ℕ) → find get_key hash j t' ≡ (if j == k then some none else find get_key hash j t)

  -- What Remove does when Find has returned the first argument for the key.
  unfoldable pub Removes : Option ℕ → ℕ → HashTable → Option (ℕ × HashTable) → Type 0
  Removes none k t o = o ≡ none
  Removes (some x) k t o = (t' : HashTable) × (o ≡ some (x, t')) × Shrunk k t t'

  abbrev removed : ℕ → ℕ → HashTable → HashTable
  removed k x t =
      let b = home get_key hash t k in
      record t {
        buckets = set t.buckets b (remove_first x (bucket t b));
        num_items = t.num_items - 1;
      }

  module _ (k x : ℕ) (t : HashTable) (valid : IsValid get_key hash t)
      (here : held get_key hash t k ≡ some x) where
    keyed :
        (j : ℕ)
        → AllAt get_key
            (home get_key hash t)
            (0 + home get_key hash t j)
            (bucket t (home get_key hash t j))
          × Keyed get_key (bucket t (home get_key hash t j))
    keyed j =
        Located-get get_key (home get_key hash t) 0 (home get_key hash t j) t.buckets
          valid.hashed.located

    inside : (j : ℕ) → home get_key hash t j < length t.buckets
    inside j = omega (arith, home_lt get_key hash t valid.hashed j, valid.hashed.count_is)

    removed-IsHashed : IsHashed get_key hash (removed k x t)
    removed-IsHashed =
        let b = home get_key hash t k in
        let (all, u) = keyed k in
        record {
          count_is = valid.hashed.count_is ∙ sym (length-set t.buckets b _);
          some_buckets = valid.hashed.some_buckets;
          located =
              Located-set get_key (home get_key hash t) 0 b t.buckets (remove_first x (bucket t b))
                valid.hashed.located
                (remove_first-AllAt get_key (home get_key hash t) (0 + b) x (bucket t b) all)
                (remove_first-Keyed get_key x (bucket t b) u);
        }

    removed-held :
        (j : ℕ)
        → held get_key hash (removed k x t) j ≡ (if j == k then none else held get_key hash t j)
    removed-held j = elim (ℕ_discrete (home get_key hash t k) (home get_key hash t j)) [
      | yes e ↦
          let same : get_or
                (set t.buckets (home get_key hash t k)
                  (remove_first x (bucket t (home get_key hash t k))))
                (home get_key hash t j) []
              ≡ remove_first x (bucket t (home get_key hash t j)) =
            subst
              (λ b.
                get_or (set t.buckets b (remove_first x (bucket t b))) (home get_key hash t j) []
                ≡ remove_first x (bucket t (home get_key hash t j)))
              (sym e) (get_or-set_self t.buckets (home get_key hash t j) _ [] (inside j)) in
          let here' : find_in get_key k (bucket t (home get_key hash t j)) ≡ some x =
            subst (λ b. find_in get_key k (bucket t b) ≡ some x) e here in
          ap (find_in get_key j) same
          ∙ remove_first-find get_key k x j (bucket t (home get_key hash t j)) (keyed j).1 here'
      | no ne ↦
          let other : (j == k) ≡ false =
            ==_of_ne j k (λ i. ne (sym (ap (home get_key hash t) i))) in
          ap (find_in get_key j)
            (get_or-set_ne t.buckets (home get_key hash t k) (home get_key hash t j) _ [] ne)
          ∙ sym (ap (λ b. if b then none else held get_key hash t j) other)
    ]

    there : member x (bucket t (home get_key hash t k)) ≡ true
    there = found-member get_key k x (bucket t (home get_key hash t k)) here

    removed-length : length (concat (removed k x t).buckets) + 1 ≡ length (concat t.buckets)
    removed-length = omega (
      arith,
      length-concat-set t.buckets (home get_key hash t k)
          (remove_first x (bucket t (home get_key hash t k))) (inside k),
      length-remove_first x (bucket t (home get_key hash t k)) there,
    )

    removed-Shrunk : Shrunk k t (removed k x t)
    removed-Shrunk = record {
      valid = record {
        hashed = removed-IsHashed;
        items_are = omega (arith, valid.items_are, removed-length);
      };
      num_items_is = omega (arith, valid.items_are, removed-length);
      find_is = λ j.
          find_lem get_key hash (removed k x t) removed-IsHashed j
          ∙ ap some (removed-held j)
          ∙ apart j;
    }
      where
        apart :
            (j : ℕ)
            → some (if j == k then none else held get_key hash t j)
              ≡ (if j == k then some none else find get_key hash j t)
        apart j = elim (Bool-cases (j == k)) [
          | inl e ↦ rw e refl
          | inr e ↦ rw (e, find_lem get_key hash t valid.hashed j) refl
        ]

    -- The bucket holds no second copy of the item, so the ASSERT in List::Remove passes.
    remove_item_lem :
        remove_item x (bucket t (home get_key hash t k))
        ≡ some (remove_first x (bucket t (home get_key hash t k)))
    unfolding remove_item
    remove_item_lem =
        let xs = bucket t (home get_key hash t k) in
        let key = find_in-key get_key k x xs here in
        let gone : find_in get_key (get_key x) (remove_first x xs) ≡ none =
          remove_first-find get_key k x (get_key x) xs (keyed k).1 here
          ∙ rw (key, ==_self (get_key x)) refl in
        rw (there, find_in-member get_key x (remove_first x xs) gone) refl

    remove_lem : remove get_key hash k t ≡ some (x, removed k x t)
    unfolding remove assert
    remove_lem =
        rw
          (
            hash_value_lem get_key hash t valid.hashed k,
            here,
            remove_item_lem,
            is_in_table_lem get_key hash (removed k x t) removed-IsHashed k,
            removed-held k,
            ==_self k,
          )
          refl

  -- Remove on a valid table, for whichever item Find returns for the key beforehand: when there is none, an ASSERT fails;
  -- when there is one, no ASSERT fails, Remove returns it, and the table stays valid with one item fewer, where the key is
  -- not found and Find returns what it did for every other key.
  pub remove-Removes :
      (k : ℕ) (t : HashTable)
      → IsValid get_key hash t
      → (r : Option ℕ) → find get_key hash k t ≡ some r
      → Removes r k t (remove get_key hash k t)
  unfolding remove Removes
  remove-Removes k t valid none found =
      let is : some (held get_key hash t k) ≡ some none =
        sym (find_lem get_key hash t valid.hashed k) ∙ found in
      let missing : held get_key hash t k ≡ none = cc in
      rw (hash_value_lem get_key hash t valid.hashed k, missing) refl
  remove-Removes k t valid (some x) found =
      let is : some (held get_key hash t k) ≡ some (some x) =
        sym (find_lem get_key hash t valid.hashed k) ∙ found in
      let here : held get_key hash t k ≡ some x = cc in
      (removed k x t, remove_lem k x t valid here, removed-Shrunk k x t valid here)
