-- ===== src/Containers/Hash/Place.antt =====
-- An item put at the end of the bucket its key hashes to.
use native.Mathlib.Nat.{mod-lt}
use my_nachos.Base.{
  ℕ, ◌+◌, ◌%◌, ◌<◌, ◌≡◌, refl, sym, ap, ◌∙◌, subst, false, Option, none, some, [], ◌∷◌, ◌++◌,
  if◌then◌else◌, ◌==◌, arith, lt→ltb, ==_of_ne, length, length-append, length-set, get_or, set,
  get_or-set_self, get_or-set_ne, ℕ_discrete,
}
use my_nachos.Base.Checked.{assert}
use my_nachos.Containers.Sequence.{append_item}
use my_nachos.Containers.Hash.{
  HashTable, bucket, hash_value, find_in, is_some, find, is_in_table, place,
}
use my_nachos.Containers.Hash.Buckets.{
  or_else, or_else-none, concat, length-concat-set, find_in-append, find_in-member, Keyed-append,
  Apart-one, Located, AllAt-append, Located-get, Located-set,
}

module _ (get_key hash : ℕ → ℕ) where
  abbrev pub home : HashTable → ℕ → ℕ
  home t k = hash k % t.num_buckets

  -- The item with a key, where its home has one.
  abbrev pub held : HashTable → ℕ → Option ℕ
  held t k = find_in get_key k (bucket t (home t k))

  pub record IsHashed (t : HashTable) : Type 0 where
    pub count_is : t.num_buckets ≡ length t.buckets
    pub some_buckets : 0 < t.num_buckets
    pub located : Located get_key (home t) 0 t.buckets

  -- The item there is, or else the item `x` for its own key.
  abbrev pub held_with : ℕ → HashTable → ℕ → Option ℕ
  held_with x t k = or_else (held t k) (if k == get_key x then some x else none)

  module _ (t : HashTable) (valid : IsHashed t) where
    pub home_lt : (k : ℕ) → home t k < t.num_buckets
    home_lt k = mod-lt (hash k) valid.some_buckets

    pub hash_value_lem : (k : ℕ) → hash_value hash k t ≡ some (home t k)
    unfolding hash_value assert
    hash_value_lem k = rw (lt→ltb (home t k) t.num_buckets (home_lt k)) refl

    pub find_lem : (k : ℕ) → find get_key hash k t ≡ some (held t k)
    unfolding find
    find_lem k = rw (hash_value_lem k) refl

    pub is_in_table_lem : (k : ℕ) → is_in_table get_key hash k t ≡ some (is_some (held t k))
    unfolding is_in_table
    is_in_table_lem k = rw (find_lem k) refl

  -- The table with an item at the end of its home.
  abbrev pub placed : ℕ → HashTable → HashTable
  placed x t =
      let b = home t (get_key x) in record t { buckets = set t.buckets b (bucket t b ++ (x ∷ [])) }

  module _ (x : ℕ) (t : HashTable) (valid : IsHashed t) (new : held t (get_key x) ≡ none) where
    inside : home t (get_key x) < length t.buckets
    inside = omega (arith, home_lt t valid (get_key x), valid.count_is)

    pub place_lem : place get_key hash x t ≡ some (placed x t)
    unfolding place append_item
    place_lem =
        rw
          (
            hash_value_lem t valid (get_key x),
            find_in-member get_key x (bucket t (home t (get_key x))) new,
          )
          refl

    pub placed-IsHashed : IsHashed (placed x t)
    placed-IsHashed =
        let b = home t (get_key x) in
        let (all, keyed) = Located-get get_key (home t) 0 b t.buckets valid.located in
        record {
          count_is = valid.count_is ∙ sym (length-set t.buckets b _);
          some_buckets = valid.some_buckets;
          located =
              Located-set get_key (home t) 0 b t.buckets (bucket t b ++ (x ∷ [])) valid.located
                (AllAt-append get_key (home t) (0 + b) (bucket t b) (x ∷ []) all (omega arith, tt))
                (Keyed-append get_key (bucket t b) (x ∷ []) keyed (refl, tt)
                  (Apart-one get_key x (bucket t b) new));
        }

    pub placed-held : (k : ℕ) → held (placed x t) k ≡ held_with x t k
    placed-held k = elim (ℕ_discrete (home t (get_key x)) (home t k)) [
      | yes e ↦
          let same : get_or
                (set t.buckets (home t (get_key x)) (bucket t (home t (get_key x)) ++ (x ∷ [])))
                (home t k) []
              ≡ bucket t (home t k) ++ (x ∷ []) =
            subst
              (λ b.
                get_or (set t.buckets b (bucket t b ++ (x ∷ []))) (home t k) []
                ≡ bucket t (home t k) ++ (x ∷ []))
              (sym e)
              (get_or-set_self t.buckets (home t k) (bucket t (home t k) ++ (x ∷ [])) []
                (omega (arith, home_lt t valid k, valid.count_is))) in
          ap (find_in get_key k) same ∙ find_in-append get_key k (bucket t (home t k)) (x ∷ [])
      | no ne ↦
          let other : (k == get_key x) ≡ false =
            ==_of_ne k (get_key x) (λ i. ne (sym (ap (home t) i))) in
          ap (find_in get_key k) (get_or-set_ne t.buckets (home t (get_key x)) (home t k) _ [] ne)
          ∙ sym (
              ap (λ b. or_else (held t k) (if b then some x else none)) other
              ∙ or_else-none (held t k))
    ]

    pub placed-length : length (concat (placed x t).buckets) ≡ length (concat t.buckets) + 1
    placed-length =
        let b = home t (get_key x) in
        omega (
          arith,
          length-concat-set t.buckets b (bucket t b ++ (x ∷ [])) inside,
          length-append (bucket t b) (x ∷ []),
        )
