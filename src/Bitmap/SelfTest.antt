-- ===== src/Bitmap/SelfTest.antt =====
-- code/lib/bitmap.cc: Bitmap::SelfTest.
use my_nachos.Base.{
  ℕ, ◌≤◌, ◌<◌, ◌≡◌, ◌∙◌, Bool, true, false, Option, none, some, leb, ◌&&◌, ◌||◌, ◌==◌, arith,
  ==_self,
}
use my_nachos.Base.Checked.{◌>>=◌, ◌>>◌, assert}
use my_nachos.Bitmap.{
  Bitmap, IsValid, peek, test, mark, marked, clear, cleared, bits_in_word, create, clear_from,
  mark_from, find_and_set, num_clear,
}
use my_nachos.Bitmap.Bit.{
  peek-marked, peek-cleared, marked-IsValid, cleared-IsValid, test-eq, mark-eq, clear-eq,
  num_bits-marked, num_bits-cleared,
}
use my_nachos.Bitmap.Search.{
  create-clear, num_clear-eq, off_count-clear, find_and_set-first, find_and_set-full,
  mark_from-Filled, clear_from-Filled,
}

abbrev is_at : ℕ → Option ℕ → Bool
is_at i none = false
is_at i (some k) = k == i

abbrev is_none : Option ℕ → Bool
is_none none = true
is_none (some k) = false

-- The two halves of the test: up to `Clear(31)`, and from the loop of marks on.
unfoldable self_test_start : Bitmap → Option Bitmap
self_test_start b = do
  assert (leb bits_in_word b.num_bits)
  n ← num_clear b
  assert (n == b.num_bits)
  (r0, b1) ← find_and_set b
  assert (is_at 0 r0)
  b2 ← mark b1 31
  t0 ← test b2 0
  t31 ← test b2 31
  assert (t0 && t31)
  (r1, b3) ← find_and_set b2
  assert (is_at 1 r1)
  b4 ← clear b3 0
  b5 ← clear b4 1
  clear b5 31

unfoldable self_test_rest : Bitmap → Option Bitmap
self_test_rest b = do
  b' ← mark_from b.num_bits 0 b
  (r2, b'') ← find_and_set b'
  assert (is_none r2)
  clear_from b''.num_bits 0 b''

unfoldable pub self_test : Bitmap → Option Bitmap
unfolding self_test_start self_test_rest
self_test b = self_test_start b >>= self_test_rest

self_test_rest-runs :
    (b : Bitmap)
    → IsValid b
    → (b' : Bitmap) × (self_test_rest b ≡ some b')
      × IsValid b'
      × (b'.num_bits ≡ b.num_bits)
      × ((j : ℕ) → j < b.num_bits → peek b' j ≡ false)
unfolding self_test_rest assert
self_test_rest-runs b v =
    let (c, ec, fc) = mark_from-Filled b.num_bits 0 b v (omega arith) in
    let same : c.num_bits ≡ b.num_bits = fc.same_size in
    let found = find_and_set-full c fc.valid (λ j h. ground (arith, fc.bits j, fc.same_size)) in
    let (d, ed, fd) = clear_from-Filled c.num_bits 0 c fc.valid (omega arith) in
    (
      d,
      rw (ec, found) ed,
      fd.valid,
      fd.same_size ∙ fc.same_size,
      λ j h. ground (arith, fd.bits j, fc.same_size),
    )

-- The seven maps that the first half goes through, from a clear one of at least 32 bits.
module _ (b : Bitmap) (v : IsValid b) (size : 32 ≤ b.num_bits)
    (off : (j : ℕ) → peek b j ≡ false) where
  abbrev b1 : Bitmap
  b1 = marked b 0

  abbrev b2 : Bitmap
  b2 = marked b1 31

  abbrev b3 : Bitmap
  b3 = marked b2 1

  abbrev b4 : Bitmap
  b4 = cleared b3 0

  abbrev b5 : Bitmap
  b5 = cleared b4 1

  abbrev b6 : Bitmap
  b6 = cleared b5 31

  n1 : 32 ≤ b1.num_bits
  n1 = omega (arith, num_bits-marked b 0)

  v1 : IsValid b1
  v1 = marked-IsValid b 0 v (omega arith)

  p1 : (j : ℕ) → peek b1 j ≡ (j == 0)
  p1 j = ground (arith, off j, peek-marked b 0 v (omega arith) j)

  n2 : 32 ≤ b2.num_bits
  n2 = omega (arith, n1, num_bits-marked b1 31)

  v2 : IsValid b2
  v2 = marked-IsValid b1 31 v1 n1

  p2 : (j : ℕ) → peek b2 j ≡ (j == 0 || j == 31)
  p2 j = ground (arith, p1 j, peek-marked b1 31 v1 n1 j)

  n3 : 32 ≤ b3.num_bits
  n3 = omega (arith, n2, num_bits-marked b2 1)

  v3 : IsValid b3
  v3 = marked-IsValid b2 1 v2 (omega (arith, n2))

  p3 : (j : ℕ) → peek b3 j ≡ (j == 0 || j == 31 || j == 1)
  p3 j = ground (arith, p2 j, peek-marked b2 1 v2 (omega (arith, n2)) j)

  n4 : 32 ≤ b4.num_bits
  n4 = omega (arith, n3, num_bits-cleared b3 0)

  v4 : IsValid b4
  v4 = cleared-IsValid b3 0 v3 (omega (arith, n3))

  p4 : (j : ℕ) → peek b4 j ≡ (j == 31 || j == 1)
  p4 j = ground (arith, p3 j, peek-cleared b3 0 v3 (omega (arith, n3)) j)

  n5 : 32 ≤ b5.num_bits
  n5 = omega (arith, n4, num_bits-cleared b4 1)

  v5 : IsValid b5
  v5 = cleared-IsValid b4 1 v4 (omega (arith, n4))

  p5 : (j : ℕ) → peek b5 j ≡ (j == 31)
  p5 j = ground (arith, p4 j, peek-cleared b4 1 v4 (omega (arith, n4)) j)

  v6 : IsValid b6
  v6 = cleared-IsValid b5 31 v5 n5

  enough : leb 32 b.num_bits ≡ true
  enough = ground arith

  self_test_start-eq : self_test_start b ≡ some b6
  unfolding self_test_start assert
  self_test_start-eq = simp (
    num_clear-eq b v,
    off_count-clear (peek b) b.num_bits off,
    ==_self b.num_bits,
    enough,
    find_and_set-first b 0 v (omega arith) (off 0) (λ j h. absurd (omega arith)),
    mark-eq b1 31 v1 n1,
    test-eq b2 0 v2 (omega (arith, n2)),
    test-eq b2 31 v2 n2,
    p2 0,
    p2 31,
    find_and_set-first b2 1 v2 (omega (arith, n2)) (p2 1) (λ j h. ground (arith, p2 j)),
    clear-eq b3 0 v3 (omega (arith, n3)),
    clear-eq b4 1 v4 (omega (arith, n4)),
    clear-eq b5 31 v5 n5,
  )

  same_size : b6.num_bits ≡ b.num_bits
  same_size = omega (
    arith,
    num_bits-marked b 0,
    num_bits-marked b1 31,
    num_bits-marked b2 1,
    num_bits-cleared b3 0,
    num_bits-cleared b4 1,
    num_bits-cleared b5 31,
  )

  -- On a clear, well-formed map of at least 32 bits the self test runs to its end with every ASSERT
  -- passed, and leaves a well-formed map of the same size that is clear again.
  self_test_passes :
      (b' : Bitmap) × (self_test b ≡ some b')
      × IsValid b'
      × (b'.num_bits ≡ b.num_bits)
      × ((j : ℕ) → j < b.num_bits → peek b' j ≡ false)
  unfolding self_test
  self_test_passes =
      let (b', e, v', size', off') = self_test_rest-runs b6 v6 in
      (b', rw self_test_start-eq e, v', size' ∙ same_size, λ j h. off' j (omega (arith, same_size)))

-- Bitmap(n) followed by SelfTest, for every size that SelfTest admits: the constructor and the test
-- run to their ends with every ASSERT passed, and the map is clear again.
pub create-self_test :
    (n j : ℕ)
    → 32 ≤ n
    → j < n
    → (b : Bitmap) × ((create n >>= self_test) ≡ some b)
      × IsValid b
      × (b.num_bits ≡ n)
      × (peek b j ≡ false)
create-self_test n j h lt =
    let (b, e, v, size, off) = create-clear n (omega arith) in
    let (b', e', v', size', off') = self_test_passes b v (omega (arith, size)) off in
    (b', rw e e', v', size' ∙ size, off' j (omega (arith, size)))
