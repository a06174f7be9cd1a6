-- ===== src/Containers/Linked/Adding.antt =====
-- `List::Append` and `List::Prepend` on a list whose elements are known.
use my_nachos.Base.{
  ℕ, ◌+◌, ◌<◌, ◌≡◌, refl, sym, ap, ◌∙◌, Bool, true, false, not, none, some, List, [], ◌∷◌, ◌++◌,
  if◌then◌else◌, arith, ==_self, ==_of_ne, suc_ne_zero, length, length-append,
}
use my_nachos.Base.Checked.{assert}
use my_nachos.Containers.Linked.{
  LinkedList, put, new_element, set_next, is_empty, is_in_list, assert_in, assert_not_in,
  link_first, link_last, counted, append, prepend,
}
use my_nachos.Containers.Sequence.{member}
use my_nachos.Containers.Linked.Cells.{
  Cell, items, head_or, last_from, Chain, Fresh, Distinct, Chain-put, Chain-Fresh, Chain-append,
  Distinct-append, last_from-append, last_from-Fresh, deref_lem, is_in-member, relink_last,
  items-append, member-append,
}

pub record Holds (l : LinkedList) (cs : List Cell) : Type 0 where
  pub chain : Chain l.memory cs 0
  pub distinct : Distinct cs
  pub first_is : l.first ≡ head_or cs 0
  pub last_is : l.last ≡ last_from 0 cs
  pub count_is : l.num_in_list ≡ length cs

unfoldable pub Represents : LinkedList → List ℕ → Type 0
Represents l xs = (cs : List Cell) × Holds l cs × (items cs ≡ xs)

module _ (n : ℕ) (l : LinkedList) (cs : List Cell) (holds : Holds l cs) (fuel : length cs < n) where
  pub is_in_list-member : (x : ℕ) → is_in_list n l x ≡ some (member x (items cs))
  unfolding is_in_list
  is_in_list-member x = rw holds.first_is (is_in-member n l.memory cs x holds.chain fuel)

  pub assert_in-member : (x : ℕ) → assert_in n l x ≡ assert (member x (items cs))
  unfolding assert_in
  assert_in-member x = rw (is_in_list-member x) refl

  pub assert_not_in-member : (x : ℕ) → assert_not_in n l x ≡ assert (not (member x (items cs)))
  unfolding assert_not_in
  assert_not_in-member x = rw (is_in_list-member x) refl

-- The state after `new`, which is no element's yet.
abbrev pub allocated : ℕ → ℕ → LinkedList → LinkedList
allocated e x l = record l { memory = put e (new_element x) l.memory }

module _ (e x : ℕ) (l : LinkedList) (cs : List Cell) (holds : Holds l cs)
    (unused : l.memory e ≡ none) where
  pub unused-Fresh : Fresh e cs
  unused-Fresh = Chain-Fresh l.memory cs 0 e unused holds.chain

  pub allocated-Holds : Holds (allocated e x l) cs
  allocated-Holds = record {
    chain = Chain-put l.memory cs 0 e (new_element x) unused-Fresh holds.chain;
    distinct = holds.distinct;
    first_is = holds.first_is;
    last_is = holds.last_is;
    count_is = holds.count_is;
  }

abbrev pub cell_at : ℕ → ℕ → Cell
cell_at e x = record { address = e; content = x }

-- The branch of Append that links the element, with the count raised.
pub linked_last :
    (e x : ℕ) (l : LinkedList) (cs : List Cell)
    → Holds l cs
    → 0 < e
    → l.memory e ≡ none
    → (l' : LinkedList) × ((if is_empty (allocated e x l)
          then some (record (allocated e x l) { first = e; last = e })
          else link_last e (allocated e x l))
        ≡ some l')
      × Holds (counted l') (cs ++ (cell_at e x ∷ []))
unfolding is_empty link_last counted set_next
linked_last e x l [] holds pos unused = rw holds.count_is (
  _,
  refl,
  record {
    chain = (pos, rw (==_self e) refl, tt);
    distinct = (tt, tt);
    first_is = refl;
    last_is = refl;
    count_is = refl;
  },
)
linked_last e x l (c ∷ cs) holds pos unused =
    let fresh = unused-Fresh e x l (c ∷ cs) holds unused in
    let before = allocated-Holds e x l (c ∷ cs) holds unused in
    let (b, got, k) =
      relink_last (put e (new_element x) l.memory) c cs 0 e before.chain holds.distinct in
    let ne = last_from-Fresh e c cs fresh in
    rw (holds.count_is, holds.last_is, suc_ne_zero (length cs), got)
      (
        _,
        refl,
        record {
          chain =
              Chain-append _ (c ∷ cs) (cell_at e x ∷ []) 0 k
                (pos, rw (==_of_ne e (last_from c.address cs) ne, ==_self e) refl, tt);
          distinct = Distinct-append (c ∷ cs) (cell_at e x) holds.distinct fresh;
          first_is = holds.first_is;
          last_is = sym (last_from-append c.address cs (cell_at e x));
          count_is = (omega (arith, length-append cs (cell_at e x ∷ [])));
        },
      )

pub linked_first :
    (e x : ℕ) (l : LinkedList) (cs : List Cell)
    → Holds l cs
    → 0 < e
    → l.memory e ≡ none
    → (l' : LinkedList) × ((if is_empty (allocated e x l)
          then some (record (allocated e x l) { first = e; last = e })
          else link_first e (allocated e x l))
        ≡ some l')
      × Holds (counted l') (cell_at e x ∷ cs)
unfolding is_empty link_first counted set_next
linked_first e x l [] holds pos unused = rw holds.count_is (
  _,
  refl,
  record {
    chain = (pos, rw (==_self e) refl, tt);
    distinct = (tt, tt);
    first_is = refl;
    last_is = refl;
    count_is = refl;
  },
)
linked_first e x l (c ∷ cs) holds pos unused =
    let fresh = unused-Fresh e x l (c ∷ cs) holds unused in
    let before = allocated-Holds e x l (c ∷ cs) holds unused in
    let h = put e (new_element x) l.memory in
    rw
      (
        holds.count_is,
        holds.first_is,
        suc_ne_zero (length cs),
        deref_lem h e (new_element x) pos (rw (==_self e) refl),
      )
      (
        _,
        refl,
        record {
          chain = (pos, rw (==_self e) refl, Chain-put h (c ∷ cs) 0 e _ fresh before.chain);
          distinct = (fresh, holds.distinct);
          first_is = refl;
          last_is = holds.last_is;
          count_is = (omega arith);
        },
      )

module _ (n e x : ℕ) (l : LinkedList) (cs : List Cell) (holds : Holds l cs) (pos : 0 < e)
    (unused : l.memory e ≡ none) (fuel : length cs + 1 < n) where
  tested :
      (b : Bool) → member x (items cs) ≡ b → assert_not_in n (allocated e x l) x ≡ assert (not b)
  tested b is =
      assert_not_in-member n (allocated e x l) cs (allocated-Holds e x l cs holds unused)
        (omega arith) x
      ∙ ap (λ c. assert (not c)) is

  pub append-refuses : member x (items cs) ≡ true → append n e x l ≡ none
  unfolding append assert
  append-refuses is = rw (tested true is) refl

  pub prepend-refuses : member x (items cs) ≡ true → prepend n e x l ≡ none
  unfolding prepend assert
  prepend-refuses is = rw (tested true is) refl

  pub append-Holds :
      member x (items cs) ≡ false
      → (l' : LinkedList) × (append n e x l ≡ some l') × Holds l' (cs ++ (cell_at e x ∷ []))
  unfolding append assert
  append-Holds is =
      let (l', linked, holds') = linked_last e x l cs holds pos unused in
      let all = cs ++ (cell_at e x ∷ []) in
      let there : member x (items all) ≡ true =
        rw (items-append cs (cell_at e x ∷ [])) (member-append x (items cs)) in
      let size : length all < n = omega (arith, length-append cs (cell_at e x ∷ [])) in
      (
        counted l',
        rw (tested false is, linked, assert_in-member n (counted l') all holds' size x, there) refl,
        holds',
      )

  pub prepend-Holds :
      member x (items cs) ≡ false
      → (l' : LinkedList) × (prepend n e x l ≡ some l') × Holds l' (cell_at e x ∷ cs)
  unfolding prepend assert
  prepend-Holds is =
      let (l', linked, holds') = linked_first e x l cs holds pos unused in
      (
        counted l',
        rw
            (
              tested false is,
              linked,
              assert_in-member n (counted l') (cell_at e x ∷ cs) holds' (omega arith) x,
              ==_self x,
            )
            refl,
        holds',
      )
