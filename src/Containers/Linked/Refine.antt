-- ===== src/Containers/Linked/Refine.antt =====
-- The operations of `List` and `SortedList` against the same operations on a sequence.
use my_nachos.Base.{
  ℕ, ◌+◌, ◌<◌, ◌≡◌, refl, sym, ap, subst, Bool, Option, none, some, List, [], ◌∷◌, ◌++◌,
  if◌then◌else◌, ◌==◌, arith, length, Bool-cases, inl, inr,
}
use my_nachos.Base.Checked.{◌>>=◌}
use my_nachos.Containers.Sequence.{member, remove_first, append_item, remove_item}
use my_nachos.Containers.Linked.{LinkedList, append, prepend, remove_front, remove}
use my_nachos.Containers.Linked.Sorted.{insert}
use my_nachos.Containers.Linked.Cells.{Cell, items, items-append, length-items}
use my_nachos.Containers.Linked.Adding.{
  Holds, Represents, cell_at, append-refuses, append-Holds, prepend-refuses, prepend-Holds,
}
use my_nachos.Containers.Linked.Removing.{
  without, remove_front-refuses, remove_front-Holds, remove-refuses, remove-Holds,
}
use my_nachos.Containers.Linked.Inserting.{insert_cell}
use my_nachos.Containers.Linked.Insertion.{insert-refuses, insert-Holds}

-- A call, with the address that `new` returns in it.
pub data Call : Type 0 where
  append_call : ℕ → ℕ → Call
  prepend_call : ℕ → ℕ → Call
  insert_call : ℕ → ℕ → Call
  remove_front_call : Call
  remove_call : ℕ → Call

module _ (before : ℕ → ℕ → Bool) where
  -- The list after a call and what the call returns.
  unfoldable pub perform : ℕ → Call → LinkedList → Option (LinkedList × Option ℕ)
  perform n (append_call e x) l = append n e x l >>= λ l'. some (l', none)
  perform n (prepend_call e x) l = prepend n e x l >>= λ l'. some (l', none)
  perform n (insert_call e x) l = insert before n e x l >>= λ l'. some (l', none)
  perform n remove_front_call l = remove_front l >>= λ r. some (r.1, some r.0)
  perform n (remove_call x) l = remove n x l >>= λ l'. some (l', none)

  abbrev pub insert_sorted : ℕ → List ℕ → List ℕ
  insert_sorted x [] = x ∷ []
  insert_sorted x (y ∷ ys) =
      let rest = insert_sorted x ys in if before x y then x ∷ y ∷ ys else y ∷ rest

  -- The same call on a sequence.
  unfoldable pub specified : Call → List ℕ → Option (List ℕ × Option ℕ)
  specified (append_call e x) xs = append_item x xs >>= λ ys. some (ys, none)
  specified (prepend_call e x) xs = if member x xs then none else some (x ∷ xs, none)
  specified (insert_call e x) xs = if member x xs then none else some (insert_sorted x xs, none)
  specified remove_front_call [] = none
  specified remove_front_call (x ∷ xs) = some (xs, some x)
  specified (remove_call x) xs = remove_item x xs >>= λ ys. some (ys, none)

-- `new` returns an address that nothing is at.
unfoldable pub Allocates : Call → LinkedList → Type 0
Allocates (append_call e x) l = (0 < e) × (l.memory e ≡ none)
Allocates (prepend_call e x) l = (0 < e) × (l.memory e ≡ none)
Allocates (insert_call e x) l = (0 < e) × (l.memory e ≡ none)
Allocates remove_front_call l = Unit
Allocates (remove_call x) l = Unit

-- The run fails exactly when the sequence's does, and else returns the same and stands for the same sequence.
unfoldable pub Refines : Option (List ℕ × Option ℕ) → Option (LinkedList × Option ℕ) → Type 0
Refines none o = o ≡ none
Refines (some (ys, r)) o = (l : LinkedList) × (o ≡ some (l, r)) × Represents l ys

items-insert_cell :
    (before : ℕ → ℕ → Bool) (e x : ℕ) (cs : List Cell)
    → items (insert_cell before (cell_at e x) cs) ≡ insert_sorted before x (items cs)
items-insert_cell before e x [] = refl
items-insert_cell before e x (c ∷ cs) = elim (Bool-cases (before x c.content)) [
  | inl i ↦ rw i refl
  | inr i ↦ rw i (ap (c.content ∷◌) (items-insert_cell before e x cs))
]

items-without : (x : ℕ) (cs : List Cell) → items (without x cs) ≡ remove_first x (items cs)
items-without x [] = refl
items-without x (c ∷ cs) = elim (Bool-cases (x == c.content)) [
  | inl i ↦ rw i refl
  | inr i ↦ rw i (ap (c.content ∷◌) (items-without x cs))
]

on_front :
    (before : ℕ → ℕ → Bool) (n : ℕ) (l : LinkedList) (cs : List Cell)
    → Holds l cs
    → Refines (specified before remove_front_call (items cs)) (perform before n remove_front_call l)
unfolding perform specified Refines Represents
on_front before n l [] holds = rw (remove_front-refuses l holds) refl
on_front before n l (c ∷ cs) holds =
    let (l', done, h) = remove_front-Holds l c cs holds in rw done (l', refl, (cs, h, refl))

-- `perform` on known cells.
module _ (before : ℕ → ℕ → Bool) (n : ℕ) (l : LinkedList) (cs : List Cell) (holds : Holds l cs)
    (fuel : length cs + 1 < n) where
  on_cells :
      (c : Call) → Allocates c l → Refines (specified before c (items cs)) (perform before n c l)
  unfolding perform specified append_item remove_item Allocates Refines Represents
  on_cells (append_call e x) (pos, unused) = elim (Bool-cases (member x (items cs))) [
    | inl i ↦ rw (i, append-refuses n e x l cs holds pos unused fuel i) refl
    | inr i ↦
        let (l', done, h) = append-Holds n e x l cs holds pos unused fuel i in
        rw (i, done) (l', refl, (cs ++ (cell_at e x ∷ []), h, items-append cs (cell_at e x ∷ [])))
  ]
  on_cells (prepend_call e x) (pos, unused) = elim (Bool-cases (member x (items cs))) [
    | inl i ↦ rw (i, prepend-refuses n e x l cs holds pos unused fuel i) refl
    | inr i ↦
        let (l', done, h) = prepend-Holds n e x l cs holds pos unused fuel i in
        rw (i, done) (l', refl, (cell_at e x ∷ cs, h, refl))
  ]
  on_cells (insert_call e x) (pos, unused) = elim (Bool-cases (member x (items cs))) [
    | inl i ↦ rw (i, insert-refuses before n e x l cs holds pos unused fuel i) refl
    | inr i ↦
        let (l', done, h) = insert-Holds before n e x l cs holds pos unused fuel i in
        rw (i, done)
          (l', refl, (insert_cell before (cell_at e x) cs, h, items-insert_cell before e x cs))
  ]
  on_cells remove_front_call u = on_front before n l cs holds
  on_cells (remove_call x) u = elim (Bool-cases (member x (items cs))) [
    | inl i ↦
        let (l', done, h) = remove-Holds n x l cs holds (omega arith) i in
        rw (i, done, sym (items-without x cs))
          (elim (Bool-cases (member x (items (without x cs)))) [
            | inl j ↦ rw j refl
            | inr j ↦ rw j (l', refl, (without x cs, h, refl))
          ])
    | inr i ↦ rw (i, remove-refuses n x l cs holds (omega arith) i) refl
  ]

-- A call of Append, Prepend, Insert, RemoveFront or Remove on a list in memory that stands for the sequence `xs` does to the
-- list what the call does to `xs`: with fuel above `length xs + 1`, and `new` returning an unused address, it fails exactly
-- when the sequence's call fails, and else it returns the same item and leaves a list that stands for the sequence's result.
pub perform-Refines :
    (before : ℕ → ℕ → Bool) (n : ℕ) (l : LinkedList) (xs : List ℕ)
    → Represents l xs
    → length xs + 1 < n
    → (c : Call) → Allocates c l
    → Refines (specified before c xs) (perform before n c l)
unfolding Represents
perform-Refines before n l xs (cs, holds, same) fuel c ok =
    subst (λ ys. Refines (specified before c ys) (perform before n c l)) same
      (on_cells before n l cs holds (omega (arith, length-items cs, ap (λ ys. length ys) same)) c
        ok)
