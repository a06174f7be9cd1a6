-- ===== src/Containers/Hash/Insert.antt =====
-- `Insert`, with the growth of the table when its buckets are full.
use my_nachos.Base.{
  ℕ, ◌+◌, ◌*◌, ◌/◌, ◌≡◌, refl, sym, ap, ◌∙◌, Option, none, some, if◌then◌else◌, ◌==◌, arith, leb,
  length, ==_self, ==_iff, Bool-cases, inl, inr,
}
use my_nachos.Base.Checked.{assert}
use my_nachos.Containers.Hash.{HashTable, resize_ratio, increase_size_by, find, rehash, insert}
use my_nachos.Containers.Hash.Buckets.{or_else, or_else-none}
use my_nachos.Containers.Hash.Place.{
  held, IsHashed, find_lem, is_in_table_lem, placed, place_lem, placed-IsHashed, placed-held,
  placed-length,
}
use my_nachos.Containers.Hash.Rehash.{IsValid, rehash-Rehashed}

module _ (get_key hash : ℕ → ℕ) where
  -- The number of buckets when an item is put into the table: four times as many when there are three items or more to a bucket.
  abbrev pub grown_buckets : HashTable → ℕ
  grown_buckets t =
      if leb resize_ratio (t.num_items / t.num_buckets)
      then t.num_buckets * increase_size_by
      else t.num_buckets

  -- The table with one more item, which is found by its key; every other key finds what it found.
  pub record Grown (x : ℕ) (t t' : HashTable) : Type 0 where
    pub valid : IsValid get_key hash t'
    pub num_items_is : t'.num_items ≡ t.num_items + 1
    pub num_buckets_is : t'.num_buckets ≡ grown_buckets t
    pub buckets_are : length t'.buckets ≡ grown_buckets t
    pub find_is :
        (k : ℕ)
        → find get_key hash k t' ≡ (if k == get_key x then some (some x) else find get_key hash k t)

  -- What Insert does when Find has returned the first argument for the item's key.
  unfoldable pub Inserts : Option ℕ → ℕ → HashTable → Option HashTable → Type 0
  Inserts (some y) x t o = o ≡ none
  Inserts none x t o = (t' : HashTable) × (o ≡ some t') × Grown x t t'

  -- The table that a new item is placed in.
  fits :
      (t : HashTable)
      → IsValid get_key hash t
      → (t₁ : HashTable) × ((if leb resize_ratio (t.num_items / t.num_buckets)
            then rehash get_key hash t
            else some t)
          ≡ some t₁)
        × (IsValid get_key hash t₁
            × (((k : ℕ) → held get_key hash t₁ k ≡ held get_key hash t k)
                × ((t₁.num_items ≡ t.num_items) × (t₁.num_buckets ≡ grown_buckets t))))
  fits t valid = elim (Bool-cases (leb resize_ratio (t.num_items / t.num_buckets))) [
    | inl e ↦
        let (t₁, done, r) = rehash-Rehashed get_key hash t valid in
        rw e (t₁, done, (r.valid, (r.held_is, (r.num_items_is, r.num_buckets_is))))
    | inr e ↦ rw e (t, refl, (valid, ((λ k. refl), (refl, refl))))
  ]

  placed-Grown :
      (x : ℕ) (t t₁ : HashTable)
      → IsValid get_key hash t
      → IsValid get_key hash t₁
      → ((k : ℕ) → held get_key hash t₁ k ≡ held get_key hash t k)
      → t₁.num_items ≡ t.num_items
      → t₁.num_buckets ≡ grown_buckets t
      → held get_key hash t (get_key x) ≡ none
      → Grown x t (record (placed get_key hash x t₁) { num_items = t₁.num_items + 1 })
  placed-Grown x t t₁ valid v₁ same count more new =
      let new₁ = same (get_key x) ∙ new in
      let p = placed-IsHashed get_key hash x t₁ v₁.hashed new₁ in
      let hashed' : IsHashed get_key hash
          (record (placed get_key hash x t₁) { num_items = t₁.num_items + 1 }) =
        record { count_is = p.count_is; some_buckets = p.some_buckets; located = p.located } in
      record {
        valid = record {
          hashed = hashed';
          items_are = omega (arith, v₁.items_are, placed-length get_key hash x t₁ v₁.hashed new₁);
        };
        num_items_is = ap (λ n. n + 1) count;
        num_buckets_is = more;
        buckets_are = sym p.count_is ∙ more;
        find_is = λ k.
            find_lem get_key hash _ hashed' k
            ∙ ap some (
                placed-held get_key hash x t₁ v₁.hashed new₁ k
                ∙ ap (λ o. or_else o (if k == get_key x then some x else none)) (same k))
            ∙ at k;
      }
    where
      at :
          (k : ℕ)
          → some (or_else (held get_key hash t k) (if k == get_key x then some x else none))
            ≡ (if k == get_key x then some (some x) else find get_key hash k t)
      at k = elim (Bool-cases (k == get_key x)) [
        | inl e ↦ let key : k ≡ get_key x = (==_iff k (get_key x)).0 e in rw (e, key, new) refl
        | inr e ↦
            rw (e, or_else-none (held get_key hash t k), find_lem get_key hash t valid.hashed k)
              refl
      ]

  -- Insert on a valid table, for whichever item Find returns for the new item's key beforehand: when there is one, an ASSERT
  -- fails; when there is none, no ASSERT fails, the table has four times its buckets if there were three items or more to a
  -- bucket and as many as before if not, and the table stays valid with one more item, the new item is found by its key, and Find returns what it did for every other key.
  pub insert-Inserts :
      (x : ℕ) (t : HashTable)
      → IsValid get_key hash t
      → (r : Option ℕ) → find get_key hash (get_key x) t ≡ some r
      → Inserts r x t (insert get_key hash x t)
  unfolding insert Inserts assert
  insert-Inserts x t valid (some y) found =
      let is : some (held get_key hash t (get_key x)) ≡ some (some y) =
        sym (find_lem get_key hash t valid.hashed (get_key x)) ∙ found in
      let here : held get_key hash t (get_key x) ≡ some y = cc in
      rw (is_in_table_lem get_key hash t valid.hashed (get_key x), here) refl
  insert-Inserts x t valid none found =
      let is : some (held get_key hash t (get_key x)) ≡ some none =
        sym (find_lem get_key hash t valid.hashed (get_key x)) ∙ found in
      let new : held get_key hash t (get_key x) ≡ none = cc in
      let (t₁, done, (v₁, (same, (count, more)))) = fits t valid in
      let new₁ = same (get_key x) ∙ new in
      let grown = placed-Grown x t t₁ valid v₁ same count more new in
      let there : held get_key hash (placed get_key hash x t₁) (get_key x) ≡ some x =
        placed-held get_key hash x t₁ v₁.hashed new₁ (get_key x)
        ∙ rw (new₁, ==_self (get_key x)) refl in
      rw
        (
          is_in_table_lem get_key hash t valid.hashed (get_key x),
          new,
          done,
          place_lem get_key hash x t₁ v₁.hashed new₁,
          is_in_table_lem get_key hash _ grown.valid.hashed (get_key x),
          there,
        )
        (_, refl, grown)
