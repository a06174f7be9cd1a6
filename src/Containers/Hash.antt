-- ===== src/Containers/Hash.antt =====
-- code/lib/hash.cc and code/lib/hash.h. A bucket is the sequence of its items.
-- `get_key` and `hash` are the functions a table is made with. A failed ASSERT is `none`.
pub mod Buckets
pub mod Place
pub mod Rehash
pub mod Insert
pub mod Remove
use my_nachos.Base.{
  ℕ, zero, suc, ◌+◌, ◌-◌, ◌*◌, ◌/◌, ◌%◌, Bool, true, false, not, Option, none, some, List, [], ◌∷◌,
  if◌then◌else◌, ltb, leb, ◌==◌, length, get_or, set, replicate,
}
use my_nachos.Base.Checked.{◌>>=◌, ◌>>◌, assert}
use my_nachos.Containers.Sequence.{append_item, remove_item}

abbrev pub initial_buckets : ℕ
initial_buckets = 4

abbrev pub resize_ratio : ℕ
resize_ratio = 3

abbrev pub increase_size_by : ℕ
increase_size_by = 4

pub record HashTable : Type 0 where
  pub buckets : List (List ℕ)
  pub num_buckets : ℕ
  pub num_items : ℕ

abbrev pub bucket : HashTable → ℕ → List ℕ
bucket t b = get_or t.buckets b []

unfoldable pub init_buckets : ℕ → HashTable → HashTable
init_buckets size t = record t { num_buckets = size; buckets = replicate size [] }

-- HashTable::HashTable
unfoldable pub new_table : HashTable
new_table = init_buckets initial_buckets (record { buckets = []; num_buckets = 0; num_items = 0 })

unfoldable pub is_empty : HashTable → Bool
is_empty t = t.num_items == 0

module _ (hash : ℕ → ℕ) where
  unfoldable pub hash_value : ℕ → HashTable → Option ℕ
  hash_value key t =
      let result = hash key % t.num_buckets in assert (ltb result t.num_buckets) >> some result

module _ (get_key : ℕ → ℕ) where
  -- FindInBucket, on the items of the bucket. `none` is NULL.
  abbrev pub find_in : ℕ → List ℕ → Option ℕ
  find_in key [] = none
  find_in key (x ∷ xs) = if key == get_key x then some x else find_in key xs

abbrev pub is_some : Option ℕ → Bool
is_some none = false
is_some (some x) = true

module _ (get_key hash : ℕ → ℕ) where
  unfoldable pub find : ℕ → HashTable → Option (Option ℕ)
  find key t = hash_value hash key t >>= λ b. some (find_in get_key key (bucket t b))

  unfoldable pub is_in_table : ℕ → HashTable → Option Bool
  is_in_table key t = find key t >>= λ r. some (is_some r)

  -- The items of bucket `i`, each of which must hash to it.
  unfoldable pub check_items : ℕ → List ℕ → HashTable → Option (Unit {0})
  check_items i [] t = some tt
  check_items i (x ∷ xs) t = do
    b ← hash_value hash (get_key x) t
    assert (i == b)
    check_items i xs t

  -- The buckets from bucket `i` on, and how many items they have.
  unfoldable pub check_buckets : ℕ → List (List ℕ) → HashTable → Option ℕ
  check_buckets i [] t = some 0
  check_buckets i (xs ∷ bs) t = do
    check_items i xs t
    found ← check_buckets (suc i) bs t
    some (length xs + found)

  unfoldable pub sanity_check : HashTable → Option (Unit {0})
  sanity_check t = do found ← check_buckets 0 t.buckets t; assert (t.num_items == found)

  -- `buckets[HashValue(getKey(item))]->Append(item)`
  unfoldable pub place : ℕ → HashTable → Option HashTable
  place x t = do
    b ← hash_value hash (get_key x) t
    ys ← append_item x (bucket t b)
    some (record t { buckets = set t.buckets b ys })

  -- The items of an old bucket, taken from the front until it is empty.
  unfoldable pub place_items : List ℕ → HashTable → Option HashTable
  place_items [] t = some t
  place_items (x ∷ xs) t = place x t >>= place_items xs

  unfoldable pub place_buckets : List (List ℕ) → HashTable → Option HashTable
  place_buckets [] t = some t
  place_buckets (xs ∷ bs) t = place_items xs t >>= place_buckets bs

  unfoldable pub rehash : HashTable → Option HashTable
  rehash t = do
    sanity_check t
    t' ← place_buckets t.buckets (init_buckets (t.num_buckets * increase_size_by) t)
    sanity_check t'
    some t'

  unfoldable pub insert : ℕ → HashTable → Option HashTable
  insert x t = do
    present ← is_in_table (get_key x) t
    assert (not present)
    t₁ ← if leb resize_ratio (t.num_items / t.num_buckets) then rehash t else some t
    t₂ ← place x t₁
    let t₃ : HashTable = record t₂ { num_items = t₂.num_items + 1 }
    there ← is_in_table (get_key x) t₃
    assert there
    some t₃

  -- Finds the item, then takes it out of its bucket.
  unfoldable pub remove : ℕ → HashTable → Option (ℕ × HashTable)
  remove key t = do
    b ← hash_value hash key t
    x ← find_in get_key key (bucket t b)
    ys ← remove_item x (bucket t b)
    let t' : HashTable = record t { buckets = set t.buckets b ys; num_items = t.num_items - 1 }
    there ← is_in_table key t'
    assert (not there)
    some (x, t')
