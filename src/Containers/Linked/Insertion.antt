-- ===== src/Containers/Linked/Insertion.antt =====
-- `SortedList::Insert` on a list whose elements are known.
use my_nachos.Base.{
  ℕ, ◌+◌, ◌<◌, ◌≡◌, refl, sym, ap, subst, ◌∙◌, Bool, true, false, not, Option, none, some, List, [],
  ◌∷◌, if◌then◌else◌, ◌==◌, arith, ==_self, suc_ne_zero, length, Bool-cases, inl, inr,
}
use my_nachos.Base.Checked.{assert}
use my_nachos.Containers.Linked.{
  Memory, LinkedList, deref, is_empty, counted, link_first, link_last, assert_not_in,
}
use my_nachos.Containers.Linked.Sorted.{insert_after, finish, insert_into, insert}
use my_nachos.Containers.Sequence.{member}
use my_nachos.Containers.Linked.Cells.{Cell, items, Fresh, deref_lem}
use my_nachos.Containers.Linked.Inserting.{
  insert_cell, length-insert_cell, Fresh-insert_cell, Distinct-insert_cell, member-insert_cell,
  Linked, Ends, insert_after-Ends,
}
use my_nachos.Containers.Linked.Adding.{
  Holds, assert_in-member, assert_not_in-member, allocated, allocated-Holds, unused-Fresh, cell_at,
  linked_first, linked_last,
}

module _ (before : ℕ → ℕ → Bool) where
  finish-Holds :
      (n x : ℕ) (l : LinkedList) (cs : List Cell)
      → Holds (counted l) cs
      → length cs < n
      → member x (items cs) ≡ true
      → finish n x l ≡ some (counted l)
  unfolding finish assert
  finish-Holds n x l cs holds lt m = rw (assert_in-member n (counted l) cs holds lt x, m) refl

  -- The links at both ends, for a list that is not empty.
  not_empty : (l : LinkedList) (c : Cell) (cs : List Cell) → Holds l (c ∷ cs) → is_empty l ≡ false
  unfolding is_empty
  not_empty l c cs holds = rw holds.count_is (suc_ne_zero (length cs))

  empty_yet : (l : LinkedList) → Holds l [] → is_empty l ≡ true
  unfolding is_empty
  empty_yet l holds = rw holds.count_is refl

  inserted-Holds :
      (e x : ℕ) (l : LinkedList) (c : Cell) (cs : List Cell) (h : Memory)
      → Holds l (c ∷ cs)
      → Fresh e (c ∷ cs)
      → Linked before l e c cs (insert_cell before (cell_at e x) cs) h
      → Holds (counted (record l { memory = h })) (c ∷ insert_cell before (cell_at e x) cs)
  unfolding counted
  inserted-Holds e x l c cs h holds f r =
      let d = cell_at e x in
      let (fc, u) = holds.distinct in
      record {
        chain = r.chain;
        distinct = (
          Fresh-insert_cell before c.address d cs (λ i. f.0 (sym i)) fc,
          Distinct-insert_cell before d cs f.1 u,
        );
        first_is = holds.first_is;
        last_is = holds.last_is ∙ sym r.last_is;
        count_is = omega (arith, holds.count_is, length-insert_cell before d cs);
      }

  insert_into-Holds :
      (n e x : ℕ) (l : LinkedList) (c : Cell) (cs : List Cell)
      → Holds l (c ∷ cs)
      → 0 < e
      → l.memory e ≡ none
      → length cs + 2 < n
      → (l' : LinkedList) × (insert_into before n e x (allocated e x l) ≡ some l')
        × Holds l' (insert_cell before (cell_at e x) (c ∷ cs))
  unfolding insert_into Ends
  insert_into-Holds n e x l c cs holds pos unused lt =
      let fresh = unused-Fresh e x l (c ∷ cs) holds unused in
      let l₁ = allocated e x l in
      let now = allocated-Holds e x l (c ∷ cs) holds unused in
      let (posc, atc, k) = now.chain in
      let empty_not : is_empty l₁ ≡ false = not_empty l₁ c cs now in
      rw (ap (deref l₁.memory) now.first_is ∙ deref_lem l₁.memory c.address _ posc atc)
        (elim (Bool-cases (before x c.content)) [
          | inl i ↦
              let (l₂, linked, done) = linked_first e x l (c ∷ cs) holds pos unused in
              let linked' : link_first e l₁ ≡ some l₂ =
                subst
                  (λ b.
                    (if b then some (record l₁ { first = e; last = e }) else link_first e l₁)
                    ≡ some l₂)
                  empty_not linked in
              rw (i, linked')
                (
                  counted l₂,
                  finish-Holds n x l₂ (cell_at e x ∷ c ∷ cs) done (omega arith)
                      (rw (==_self x) refl),
                  done,
                )
          | inr i ↦
              rw i
                (elim (insert_after-Ends before n e x l₁ c cs pos (rw (==_self e) refl) fresh
                  now.chain now.distinct (omega arith)) [
                    | inl (done, same) ↦
                        let (l₂, linked, all) = linked_last e x l (c ∷ cs) holds pos unused in
                        let linked' : link_last e l₁ ≡ some l₂ =
                          subst
                            (λ b.
                              (if b
                                then some (record l₁ { first = e; last = e })
                                else link_last e l₁)
                              ≡ some l₂)
                            empty_not linked in
                        let all' : Holds (counted l₂) (c ∷ insert_cell before (cell_at e x) cs) =
                          subst (λ ds. Holds (counted l₂) (c ∷ ds)) (sym same) all in
                        rw (from_first _ done, linked')
                          (
                            counted l₂,
                            finish-Holds n x l₂ (c ∷ insert_cell before (cell_at e x) cs) all'
                                (omega (arith, length-insert_cell before (cell_at e x) cs))
                                (member_rest c i),
                            all',
                          )
                    | inr (h, done, r) ↦
                        rw (from_first _ done) (_, refl, inserted-Holds e x l₁ c cs h now fresh r)
                  ])
        ])
    where
      from_first :
          (r : Option (Bool × LinkedList))
          → insert_after before n e x (allocated e x l) c.address ≡ r
          → insert_after before n e x (allocated e x l) (allocated e x l).first ≡ r
      from_first r =
          subst (λ f. insert_after before n e x (allocated e x l) f ≡ r) (sym holds.first_is)

      member_rest :
          (c : Cell)
          → before x c.content ≡ false
          → member x (items (c ∷ insert_cell before (cell_at e x) cs)) ≡ true
      member_rest c' i = elim (Bool-cases (x == c'.content)) [
        | inl j ↦ rw j refl
        | inr j ↦ rw j (member-insert_cell before (cell_at e x) cs)
      ]

  module _ (n e x : ℕ) (l : LinkedList) (cs : List Cell) (holds : Holds l cs) (pos : 0 < e)
      (unused : l.memory e ≡ none) (fuel : length cs + 1 < n) where
    tested :
        (b : Bool) → member x (items cs) ≡ b → assert_not_in n (allocated e x l) x ≡ assert (not b)
    tested b is =
        assert_not_in-member n (allocated e x l) cs (allocated-Holds e x l cs holds unused)
          (omega arith) x
        ∙ ap (λ c. assert (not c)) is

    pub insert-refuses : member x (items cs) ≡ true → insert before n e x l ≡ none
    unfolding insert assert
    insert-refuses is = rw (tested true is) refl

  pub insert-Holds :
      (n e x : ℕ) (l : LinkedList) (cs : List Cell)
      → Holds l cs
      → 0 < e
      → l.memory e ≡ none
      → length cs + 1 < n
      → member x (items cs) ≡ false
      → (l' : LinkedList) × (insert before n e x l ≡ some l')
        × Holds l' (insert_cell before (cell_at e x) cs)
  unfolding insert assert
  insert-Holds n e x l [] holds pos unused fuel is =
      let (l', linked, done) = linked_first e x l [] holds pos unused in
      let l₁ = allocated e x l in
      let empty : is_empty l₁ ≡ true = empty_yet l₁ (allocated-Holds e x l [] holds unused) in
      let same : record l₁ { first = e; last = e } ≡ l' = some_injective (
        subst
          (λ b. (if b then some (record l₁ { first = e; last = e }) else link_first e l₁) ≡ some l')
          empty linked) in
      rw (tested n e x l [] holds pos unused fuel false is, empty, same)
        (
          counted l',
          finish-Holds n x l' (cell_at e x ∷ []) done (omega arith) (rw (==_self x) refl),
          done,
        )
    where
      some_injective : {a b : LinkedList} → some a ≡ some b → a ≡ b
      some_injective p = cc
  insert-Holds n e x l (c ∷ cs) holds pos unused fuel is =
      let empty_not : is_empty (allocated e x l) ≡ false =
        not_empty (allocated e x l) c cs (allocated-Holds e x l (c ∷ cs) holds unused) in
      rw (tested n e x l (c ∷ cs) holds pos unused fuel false is, empty_not)
        (insert_into-Holds n e x l c cs holds pos unused (omega arith))
