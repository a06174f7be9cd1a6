-- ===== src/Containers/Hash/Rehash.antt =====
-- `ReHash`: the items of all the buckets placed in a larger table, and the sanity checks on the way.
use my_nachos.Base.{
  ℕ, zero, suc, ◌+◌, ◌*◌, ◌%◌, ◌<◌, ◌≡◌, refl, sym, ap, ◌∙◌, false, none, some, List, [], ◌∷◌, ◌++◌,
  if◌then◌else◌, ◌==◌, arith, ==_self, length, length-append, length-replicate, get_or-replicate,
  Bool-cases, Option-cases, inl, inr,
}
use my_nachos.Base.Checked.{◌>>=◌, assert}
use my_nachos.Containers.Hash.{
  HashTable, increase_size_by, init_buckets, find_in, check_items, check_buckets, sanity_check,
  place, place_items, place_buckets, rehash,
}
use my_nachos.Containers.Hash.Buckets.{
  or_else, or_else-none, or_else_assoc, concat, Keyed, Located, AllAt, Located-replicate,
  Keyed-concat, concat-find, find_in-none,
}
use my_nachos.Containers.Hash.Place.{
  home, held, IsHashed, hash_value_lem, placed, place_lem, placed-IsHashed, placed-held,
  placed-length,
}

module _ (get_key hash : ℕ → ℕ) where
  pub record IsValid (t : HashTable) : Type 0 where
    pub hashed : IsHashed get_key hash t
    pub items_are : t.num_items ≡ length (concat t.buckets)

  -- No item of the list has its key in the table.
  abbrev pub Absent : HashTable → List ℕ → Type 0
  Absent t [] = Unit
  Absent t (x ∷ xs) = (held get_key hash t (get_key x) ≡ none) × Absent t xs

  -- What holds of the table after the items of a list are placed.
  pub record Filled (xs : List ℕ) (t t' : HashTable) : Type 0 where
    pub hashed : IsHashed get_key hash t'
    pub held_is :
        (k : ℕ) → held get_key hash t' k ≡ or_else (held get_key hash t k) (find_in get_key k xs)
    pub length_is : length (concat t'.buckets) ≡ length (concat t.buckets) + length xs
    pub num_items_is : t'.num_items ≡ t.num_items
    pub num_buckets_is : t'.num_buckets ≡ t.num_buckets

  -- The items after the first are still absent when the first is placed.
  Absent-placed :
      (x : ℕ) (t : HashTable) (ys : List ℕ)
      → IsHashed get_key hash t
      → held get_key hash t (get_key x) ≡ none
      → find_in get_key (get_key x) ys ≡ none
      → Absent t ys
      → Absent (placed get_key hash x t) ys
  Absent-placed x t [] valid new f a = tt
  Absent-placed x t (y ∷ ys) valid new f (ay, a) =
      let (ne, rest) = find_in-none get_key (get_key x) y ys f in
      (
        placed-held get_key hash x t valid new (get_key y)
            ∙ ap (λ o. or_else o (if get_key y == get_key x then some x else none)) ay
            ∙ ap (λ b. if b then some x else none) (flip (get_key x) (get_key y) ne),
        Absent-placed x t ys valid new rest a,
      )
    where
      flip : (a b : ℕ) → (a == b) ≡ false → (b == a) ≡ false
      flip a b e = ground arith

  pub place_items-Filled :
      (xs : List ℕ) (t : HashTable)
      → IsHashed get_key hash t
      → Keyed get_key xs
      → Absent t xs
      → (t' : HashTable) × (place_items get_key hash xs t ≡ some t') × Filled xs t t'
  unfolding place_items
  place_items-Filled [] t valid u a = (
    t,
    refl,
    record {
      hashed = valid;
      held_is = λ k. sym (or_else-none (held get_key hash t k));
      length_is = omega arith;
      num_items_is = refl;
      num_buckets_is = refl;
    },
  )
  place_items-Filled (x ∷ xs) t valid (f, u) (new, a) =
      let t₁ = placed get_key hash x t in
      let (t', done, r) =
        place_items-Filled xs t₁ (placed-IsHashed get_key hash x t valid new) u
          (Absent-placed x t xs valid new f a) in
      rw (place_lem get_key hash x t valid new) (
        t',
        done,
        record {
          hashed = r.hashed;
          held_is = λ k.
              r.held_is k
              ∙ ap (λ o. or_else o (find_in get_key k xs))
                  (placed-held get_key hash x t valid new k)
              ∙ or_else_assoc (held get_key hash t k) (if k == get_key x then some x else none)
                  (find_in get_key k xs)
              ∙ ap (or_else (held get_key hash t k)) (first_or k);
          length_is = omega (arith, r.length_is, placed-length get_key hash x t valid new);
          num_items_is = r.num_items_is;
          num_buckets_is = r.num_buckets_is;
        },
      )
    where
      first_or :
          (k : ℕ)
          → or_else (if k == get_key x then some x else none) (find_in get_key k xs)
            ≡ find_in get_key k (x ∷ xs)
      first_or k = elim (Bool-cases (k == get_key x)) [ inl e ↦ rw e refl | inr e ↦ rw e refl ]

  place_items-append :
      (xs ys : List ℕ) (t : HashTable)
      → place_items get_key hash (xs ++ ys) t
        ≡ (place_items get_key hash xs t >>= place_items get_key hash ys)
  unfolding place_items
  place_items-append [] ys t = refl
  place_items-append (x ∷ xs) ys t = elim (Option-cases (place get_key hash x t)) [
    | inl e ↦ rw e refl
    | inr (t', e) ↦ rw e (place_items-append xs ys t')
  ]

  -- Bucket after bucket is the same as all the items one after the other.
  place_buckets-concat :
      (bs : List (List ℕ)) (t : HashTable)
      → place_buckets get_key hash bs t ≡ place_items get_key hash (concat bs) t
  unfolding place_buckets place_items
  place_buckets-concat [] t = refl
  place_buckets-concat (xs ∷ bs) t = elim (Option-cases (place_items get_key hash xs t)) [
    | inl e ↦ rw (place_items-append xs (concat bs) t, e) refl
    | inr (t', e) ↦ rw (place_items-append xs (concat bs) t, e) (place_buckets-concat bs t')
  ]

  module _ (t : HashTable) (valid : IsHashed get_key hash t) where
    check_items-passes :
        (i : ℕ) (xs : List ℕ)
        → AllAt get_key (home get_key hash t) i xs
        → check_items get_key hash i xs t ≡ some tt
    unfolding check_items assert
    check_items-passes i [] a = refl
    check_items-passes i (x ∷ xs) (h, a) =
        rw (hash_value_lem get_key hash t valid (get_key x), h, ==_self i)
          (check_items-passes i xs a)

    check_buckets-counts :
        (i : ℕ) (bs : List (List ℕ))
        → Located get_key (home get_key hash t) i bs
        → check_buckets get_key hash i bs t ≡ some (length (concat bs))
    unfolding check_buckets
    check_buckets-counts i [] l = refl
    check_buckets-counts i (xs ∷ bs) (a, (u, l)) =
        rw (check_items-passes i xs a, check_buckets-counts (suc i) bs l)
          (ap some (sym (length-append xs (concat bs))))

  -- SanityCheck passes on a valid table.
  pub sanity_check-passes : (t : HashTable) → IsValid t → sanity_check get_key hash t ≡ some tt
  unfolding sanity_check assert
  sanity_check-passes t valid =
      rw
        (
          check_buckets-counts t valid.hashed 0 t.buckets valid.hashed.located,
          valid.items_are,
          ==_self (length (concat t.buckets)),
        )
        refl

  -- A new, larger table is empty.
  empty-IsHashed : (n : ℕ) (t : HashTable) → 0 < n → IsHashed get_key hash (init_buckets n t)
  unfolding init_buckets
  empty-IsHashed n t pos = record {
    count_is = sym (length-replicate n []);
    some_buckets = pos;
    located = Located-replicate get_key (home get_key hash (init_buckets n t)) 0 n;
  }

  empty-held : (n : ℕ) (t : HashTable) (k : ℕ) → held get_key hash (init_buckets n t) k ≡ none
  unfolding init_buckets
  empty-held n t k = ap (find_in get_key k) (get_or-replicate n (hash k % n) [])

  empty-Absent : (n : ℕ) (t : HashTable) (xs : List ℕ) → Absent (init_buckets n t) xs
  empty-Absent n t [] = tt
  empty-Absent n t (x ∷ xs) = (empty-held n t (get_key x), empty-Absent n t xs)

  empty-length : (n : ℕ) (t : HashTable) → length (concat (init_buckets n t).buckets) ≡ 0
  unfolding init_buckets
  empty-length zero t = refl
  empty-length (suc n) t = empty-length n t

  -- What ReHash keeps.
  pub record Rehashed (t t' : HashTable) : Type 0 where
    pub valid : IsValid t'
    pub held_is : (k : ℕ) → held get_key hash t' k ≡ held get_key hash t k
    pub num_items_is : t'.num_items ≡ t.num_items
    pub num_buckets_is : t'.num_buckets ≡ t.num_buckets * increase_size_by

  pub rehash-Rehashed :
      (t : HashTable)
      → IsValid t
      → (t' : HashTable) × (rehash get_key hash t ≡ some t') × Rehashed t t'
  unfolding rehash init_buckets
  rehash-Rehashed t valid =
      let n = t.num_buckets * increase_size_by in
      let t₀ = init_buckets n t in
      let all = concat t.buckets in
      let pos : 0 < n = omega (arith, valid.hashed.some_buckets) in
      let (t', done, r) =
        place_items-Filled all t₀ (empty-IsHashed n t pos)
          (Keyed-concat get_key (home get_key hash t) 0 t.buckets valid.hashed.located)
          (empty-Absent n t all) in
      let valid' : IsValid t' = record {
        hashed = r.hashed;
        items_are =
            r.num_items_is
            ∙ same_items n
            ∙ valid.items_are
            ∙ omega (arith, r.length_is, empty-length n t);
      } in
      rw
        (
          sanity_check-passes t valid,
          place_buckets-concat t.buckets t₀,
          done,
          sanity_check-passes t' valid',
        )
        (
          t',
          refl,
          record {
            valid = valid';
            held_is = λ k.
                r.held_is k
                ∙ ap (λ o. or_else o (find_in get_key k all)) (empty-held n t k)
                ∙ concat-find get_key (home get_key hash t) 0 (home get_key hash t k) k t.buckets
                    valid.hashed.located (omega arith);
            num_items_is = r.num_items_is ∙ same_items n;
            num_buckets_is = r.num_buckets_is ∙ same_buckets n;
          },
        )
    where
      same_items : (n : ℕ) → (init_buckets n t).num_items ≡ t.num_items
      same_items n = refl

      same_buckets : (n : ℕ) → (init_buckets n t).num_buckets ≡ n
      same_buckets n = refl
