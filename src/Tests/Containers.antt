-- ===== src/Tests/Containers.antt =====
-- The containers at concrete lists and tables.
use my_nachos.Base.{ℕ, ◌≡◌, refl, none, some, [], ◌∷◌, if◌then◌else◌, ◌==◌, ltb, arith}
use my_nachos.Containers.Sequence.{append_item}
use my_nachos.Base.Checked.{◌>>=◌, assert}
use my_nachos.Containers.Linked.{LinkedList}
use my_nachos.Containers.Linked.Adding.{Represents}
use my_nachos.Containers.Linked.Refine.{
  insert_call, perform, specified, Allocates, Refines, perform-Refines,
}
use my_nachos.Containers.Hash.{
  HashTable, find, insert, remove, hash_value, rehash, sanity_check, check_buckets, check_items,
  place_buckets, place_items, place, init_buckets, is_in_table,
}
use my_nachos.Containers.Hash.Rehash.{IsValid}
use my_nachos.Containers.Hash.Insert.{Inserts, insert-Inserts}
use my_nachos.Containers.Hash.Remove.{Removes, remove-Removes}

-- The items 20 at address 3 and 40 at address 9.
abbrev two_elements : LinkedList
two_elements = record {
  memory = λ p.
      if p == 3
      then some (record { item = 20; next = 9 })
      else (if p == 9 then some (record { item = 40; next = 0 }) else none);
  first = 3;
  last = 9;
  num_in_list = 2;
}

two_elements-Represents : Represents two_elements (20 ∷ 40 ∷ [])
unfolding Represents
two_elements-Represents = (
  record { address = 3; content = 20 } ∷ record { address = 9; content = 40 } ∷ [],
  record {
    chain = (omega arith, refl, (omega arith, refl, tt));
    distinct = (((λ e. omega (arith, e)), tt), (tt, tt));
    first_is = refl;
    last_is = refl;
    count_is = refl;
  },
  refl,
)

perform-Refines_example :
    Refines
      (specified ltb (insert_call 5 30) (20 ∷ 40 ∷ []))
      (perform ltb 10 (insert_call 5 30) two_elements)
unfolding Allocates
perform-Refines_example =
    perform-Refines ltb 10 two_elements (20 ∷ 40 ∷ []) two_elements-Represents (omega arith)
      (insert_call 5 30) (omega arith, refl)

specified_test : specified ltb (insert_call 5 30) (20 ∷ 40 ∷ []) ≡ some (20 ∷ 30 ∷ 40 ∷ [], none)
unfolding specified
specified_test = refl

abbrev same : ℕ → ℕ
same x = x

-- Twelve items in four buckets: the next Insert moves them to sixteen.
abbrev full_table : HashTable
full_table = record {
  buckets = (0 ∷ 4 ∷ 8 ∷ []) ∷ (1 ∷ 5 ∷ 9 ∷ []) ∷ (2 ∷ 6 ∷ 10 ∷ []) ∷ (3 ∷ 7 ∷ 11 ∷ []) ∷ [];
  num_buckets = 4;
  num_items = 12;
}

full_table-IsValid : IsValid same same full_table
full_table-IsValid = record {
  hashed = record {
    count_is = refl;
    some_buckets = omega arith;
    located = (
      (refl, (refl, (refl, tt))),
      (
        (refl, (refl, (refl, tt))),
        (
          (refl, (refl, (refl, tt))),
          (
            (refl, (refl, (refl, tt))),
            (
              (refl, (refl, (refl, tt))),
              (
                (refl, (refl, (refl, tt))),
                ((refl, (refl, (refl, tt))), ((refl, (refl, (refl, tt))), tt)),
              ),
            ),
          ),
        ),
      ),
    );
  };
  items_are = refl;
}

missing_12 : find same same 12 full_table ≡ some none
unfolding find hash_value assert
missing_12 = refl

here_6 : find same same 6 full_table ≡ some (some 6)
unfolding find hash_value assert
here_6 = refl

insert-Inserts_example : Inserts same same none 12 full_table (insert same same 12 full_table)
insert-Inserts_example = insert-Inserts same same 12 full_table full_table-IsValid none missing_12

remove-Removes_example : Removes same same (some 6) 6 full_table (remove same same 6 full_table)
remove-Removes_example = remove-Removes same same 6 full_table full_table-IsValid (some 6) here_6

insert_test : (insert same same 12 full_table >>= λ t. some t.num_buckets) ≡ some 16
unfolding insert rehash sanity_check check_buckets check_items place_buckets place_items place
    init_buckets is_in_table find hash_value assert append_item
insert_test = refl
