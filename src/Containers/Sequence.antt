-- ===== src/Containers/Sequence.antt =====
-- What `List::Append` and `List::Remove` of code/lib/list.cc do to the sequence of the items.
use my_nachos.Base.{
  ℕ, Bool, true, false, Option, none, some, List, [], ◌∷◌, ◌++◌, if◌then◌else◌, ◌==◌,
}

abbrev pub member : ℕ → List ℕ → Bool
member x [] = false
member x (y ∷ ys) = if x == y then true else member x ys

abbrev pub remove_first : ℕ → List ℕ → List ℕ
remove_first x [] = []
remove_first x (y ∷ ys) = let rest = remove_first x ys in if x == y then ys else y ∷ rest

-- An item is not added twice.
unfoldable pub append_item : ℕ → List ℕ → Option (List ℕ)
append_item x xs = if member x xs then none else some (xs ++ (x ∷ []))

-- No second copy of the item may be there.
unfoldable pub remove_item : ℕ → List ℕ → Option (List ℕ)
remove_item x xs =
    if member x xs
    then (if member x (remove_first x xs) then none else some (remove_first x xs))
    else none
