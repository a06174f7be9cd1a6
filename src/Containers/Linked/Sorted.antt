-- ===== src/Containers/Linked/Sorted.antt =====
-- `SortedList::Insert` of code/lib/list.cc. `before x y` is the test `compare(x, y) < 0`.
use my_nachos.Base.{ℕ, zero, suc, Bool, true, false, Option, none, some, if◌then◌else◌, ◌==◌}
use my_nachos.Base.Checked.{◌>>=◌, ◌>>◌}
use my_nachos.Containers.Linked.{
  LinkedList, put, new_element, deref, set_next, is_empty, assert_in, assert_not_in, link_first,
  link_last, counted,
}

-- The end of Insert after the element is linked.
unfoldable pub finish : ℕ → ℕ → LinkedList → Option LinkedList
finish n x l = assert_in n (counted l) x >> some (counted l)

module _ (before : ℕ → ℕ → Bool) where
  -- The loop from `p`: `true` when the loop has linked the element and returned.
  unfoldable pub insert_after : ℕ → ℕ → ℕ → LinkedList → ℕ → Option (Bool × LinkedList)
  insert_after zero e x l p = none
  insert_after (suc n) e x l p = do
    b ← deref l.memory p
    (if b.next == 0
        then some (false, l)
        else (deref l.memory b.next >>= λ c.
            if before x c.item
            then (set_next e b.next l.memory >>= λ h.
                set_next p e h >>= λ h'. some (true, counted (record l { memory = h' })))
            else insert_after n e x l b.next))

  unfoldable pub insert_into : ℕ → ℕ → ℕ → LinkedList → Option LinkedList
  insert_into n e x l = do
    b ← deref l.memory l.first
    (if before x b.item
        then (link_first e l >>= finish n x)
        else (insert_after n e x l l.first >>= λ r.
            if r.0 then some r.1 else (link_last e r.1 >>= finish n x)))

  unfoldable pub insert : ℕ → ℕ → ℕ → LinkedList → Option LinkedList
  insert n e x l₀ =
      let l : LinkedList = record l₀ { memory = put e (new_element x) l₀.memory } in
      do
        assert_not_in n l x
        (if is_empty l then finish n x (record l { first = e; last = e }) else insert_into n e x l)
