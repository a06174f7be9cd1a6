-- ===== src/Containers/Linked.antt =====
-- code/lib/list.cc and code/lib/list.h on a memory of list elements.
-- An address is a number, 0 is NULL, and reading where nothing is allocated stops the run (`none`), as a failed
-- ASSERT does. A loop over the elements takes fuel. The address `new` returns is an argument.
pub mod Cells
pub mod Adding
pub mod Removing
pub mod Sorted
pub mod Inserting
pub mod Insertion
pub mod Refine
use my_nachos.Base.{
  ℕ, zero, suc, ◌+◌, ◌-◌, Bool, true, false, not, ◌&&◌, ◌||◌, Option, none, some, List, [], ◌∷◌,
  ◌++◌, if◌then◌else◌, leb, ◌==◌,
}
use my_nachos.Base.Checked.{◌>>=◌, ◌>>◌, assert}

-- An item is a number or the address of an object: both have `==`.
pub record ListElement : Type 0 where
  pub item : ℕ
  pub next : ℕ

abbrev pub Memory : Type 0
Memory = ℕ → Option ListElement

-- A list and the memory that its elements are in.
pub record LinkedList : Type 0 where
  pub memory : Memory
  pub first : ℕ
  pub last : ℕ
  pub num_in_list : ℕ

abbrev pub put : ℕ → ListElement → Memory → Memory
put p e h = λ q. if q == p then some e else h q

abbrev pub free : ℕ → Memory → Memory
free p h = λ q. if q == p then none else h q

unfoldable pub deref : Memory → ℕ → Option ListElement
deref h p = if p == 0 then none else h p

unfoldable pub set_next : ℕ → ℕ → Memory → Option Memory
set_next p n h = do e ← deref h p; some (put p (record e { next = n }) h)

-- ListElement::ListElement
abbrev pub new_element : ℕ → ListElement
new_element x = record { item = x; next = 0 }

-- List::List
unfoldable pub empty_list : Memory → LinkedList
empty_list h = record { memory = h; first = 0; last = 0; num_in_list = 0 }

unfoldable pub is_empty : LinkedList → Bool
is_empty l = l.num_in_list == 0

-- The loop of IsInList from `p`.
unfoldable pub is_in : ℕ → Memory → ℕ → ℕ → Option Bool
is_in zero h p x = none
is_in (suc n) h p x =
    if p == 0
    then some false
    else (deref h p >>= λ e. if x == e.item then some true else is_in n h e.next x)

unfoldable pub is_in_list : ℕ → LinkedList → ℕ → Option Bool
is_in_list n l x = is_in n l.memory l.first x

-- ASSERT(IsInList(item)) and ASSERT(!IsInList(item)).
unfoldable pub assert_in : ℕ → LinkedList → ℕ → Option (Unit {0})
assert_in n l x = do found ← is_in_list n l x; assert found

unfoldable pub assert_not_in : ℕ → LinkedList → ℕ → Option (Unit {0})
assert_not_in n l x = do found ← is_in_list n l x; assert (not found)

-- The list with a new last element; numInList is left to the caller.
unfoldable pub link_last : ℕ → LinkedList → Option LinkedList
link_last e l = do h ← set_next l.last e l.memory; some (record l { memory = h; last = e })

-- The list with a new first element; numInList is left to the caller.
unfoldable pub link_first : ℕ → LinkedList → Option LinkedList
link_first e l = do h ← set_next e l.first l.memory; some (record l { memory = h; first = e })

unfoldable pub counted : LinkedList → LinkedList
counted l = record l { num_in_list = l.num_in_list + 1 }

unfoldable pub append : ℕ → ℕ → ℕ → LinkedList → Option LinkedList
append n e x l₀ =
    let l : LinkedList = record l₀ { memory = put e (new_element x) l₀.memory } in
    do
      assert_not_in n l x
      l' ← if is_empty l then some (record l { first = e; last = e }) else link_last e l
      assert_in n (counted l') x
      some (counted l')

unfoldable pub prepend : ℕ → ℕ → ℕ → LinkedList → Option LinkedList
prepend n e x l₀ =
    let l : LinkedList = record l₀ { memory = put e (new_element x) l₀.memory } in
    do
      assert_not_in n l x
      l' ← if is_empty l then some (record l { first = e; last = e }) else link_first e l
      assert_in n (counted l') x
      some (counted l')

unfoldable pub remove_front : LinkedList → Option (ℕ × LinkedList)
remove_front l = do
  assert (not (is_empty l))
  e ← deref l.memory l.first
  let l' : LinkedList =
      if l.first == l.last then record l { first = 0; last = 0 } else record l { first = e.next }
  some (e.item, record l' { memory = free l.first l.memory; num_in_list = l.num_in_list - 1 })

-- The loop of Remove, and the ASSERT after it that fails when the loop runs off the list.
unfoldable pub remove_after : ℕ → ℕ → LinkedList → ℕ → ℕ → Option LinkedList
remove_after zero x l prev ptr = none
remove_after (suc n) x l prev ptr =
    if ptr == 0
    then none
    else (deref l.memory ptr >>= λ e.
        if x == e.item
        then (set_next prev e.next l.memory >>= λ h. some (record l {
          memory = free ptr h;
          last = if e.next == 0 then prev else l.last;
          num_in_list = l.num_in_list - 1;
        }))
        else remove_after n x l ptr e.next)

unfoldable pub remove_here : ℕ → ℕ → LinkedList → Option LinkedList
remove_here n x l = do
  e ← deref l.memory l.first
  (if x == e.item
      then (remove_front l >>= λ r. assert (x == r.0) >> some r.1)
      else remove_after n x l l.first e.next)

unfoldable pub remove : ℕ → ℕ → LinkedList → Option LinkedList
remove n x l = do assert_in n l x; l' ← remove_here n x l; assert_not_in n l' x; some l'

-- The loop of Apply, with what `func` does to the state it works on.
unfoldable pub apply {ℓ} : {S : Type ℓ} → (ℕ → S → S) → ℕ → Memory → ℕ → S → Option S
apply f zero h p s = none
apply f (suc n) h p s =
    if p == 0 then some s else (deref h p >>= λ e. apply f n h e.next (f e.item s))
