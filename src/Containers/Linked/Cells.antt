-- ===== src/Containers/Linked/Cells.antt =====
-- The elements of a list as a sequence of cells, each at its address, and what a write does to them.
use my_nachos.Base.{
  ℕ, zero, suc, ◌<◌, ◌≡◌, ◌≢◌, refl, sym, ap, subst, true, none, some, List, [], ◌∷◌, ◌++◌, ◌==◌,
  arith, ==_self, ==_of_ne, length, Bool-cases, inl, inr,
}
use my_nachos.Containers.Sequence.{member}
use my_nachos.Containers.Linked.{ListElement, Memory, put, free, deref, is_in}

pub record Cell : Type 0 where
  pub address : ℕ
  pub content : ℕ

abbrev pub items : List Cell → List ℕ
items [] = []
items (c ∷ cs) = c.content ∷ items cs

-- The address of the first cell, `q` when there is none.
abbrev pub head_or : List Cell → ℕ → ℕ
head_or [] q = q
head_or (c ∷ cs) q = c.address

-- The address of the last cell, `p` when there is none.
abbrev pub last_from : ℕ → List Cell → ℕ
last_from p [] = p
last_from p (c ∷ cs) = last_from c.address cs

-- The cells stand in memory, each with the address of the following one, the last with `q`.
abbrev pub Chain : Memory → List Cell → ℕ → Type 0
Chain h [] q = Unit
Chain h (c ∷ cs) q =
    (0 < c.address)
    × (h c.address ≡ some (record { item = c.content; next = head_or cs q }))
    × Chain h cs q

abbrev pub Fresh : ℕ → List Cell → Type 0
Fresh a [] = Unit
Fresh a (c ∷ cs) = (a ≢ c.address) × Fresh a cs

abbrev pub Distinct : List Cell → Type 0
Distinct [] = Unit
Distinct (c ∷ cs) = Fresh c.address cs × Distinct cs

pub items-append : (cs ds : List Cell) → items (cs ++ ds) ≡ items cs ++ items ds
items-append [] ds = refl
items-append (c ∷ cs) ds = ap (c.content ∷◌) (items-append cs ds)

pub length-items : (cs : List Cell) → length (items cs) ≡ length cs
length-items [] = refl
length-items (c ∷ cs) = ap suc (length-items cs)

pub member-append : (x : ℕ) (xs : List ℕ) → member x (xs ++ (x ∷ [])) ≡ true
member-append x [] = rw (==_self x) refl
member-append x (y ∷ ys) = elim (Bool-cases (x == y)) [
  | inl e ↦ rw e refl
  | inr e ↦ rw e (member-append x ys)
]

-- A write to an address that no cell has.
pub Chain-put :
    (h : Memory) (cs : List Cell) (q a : ℕ) (e : ListElement)
    → Fresh a cs
    → Chain h cs q
    → Chain (put a e h) cs q
Chain-put h [] q a e f k = tt
Chain-put h (c ∷ cs) q a e (ne, f) (pos, at, k) =
    (pos, rw (==_of_ne c.address a (λ i. ne (sym i))) at, Chain-put h cs q a e f k)

pub Chain-free :
    (h : Memory) (cs : List Cell) (q a : ℕ) → Fresh a cs → Chain h cs q → Chain (free a h) cs q
Chain-free h [] q a f k = tt
Chain-free h (c ∷ cs) q a (ne, f) (pos, at, k) =
    (pos, rw (==_of_ne c.address a (λ i. ne (sym i))) at, Chain-free h cs q a f k)

-- An address that holds nothing is no cell's.
pub Chain-Fresh : (h : Memory) (cs : List Cell) (q a : ℕ) → h a ≡ none → Chain h cs q → Fresh a cs
Chain-Fresh h [] q a e k = tt
Chain-Fresh h (c ∷ cs) q a e (pos, at, k) =
    (λ i. let t : h c.address ≡ none = subst (λ b. h b ≡ none) i e in cc, Chain-Fresh h cs q a e k)

pub Chain-append :
    (h : Memory) (cs ds : List Cell) (q : ℕ)
    → Chain h cs (head_or ds q)
    → Chain h ds q
    → Chain h (cs ++ ds) q
Chain-append h [] ds q k m = m
Chain-append h (c ∷ []) ds q (pos, at, k) m = (pos, at, m)
Chain-append h (c ∷ d ∷ cs) ds q (pos, at, k) m = (pos, at, Chain-append h (d ∷ cs) ds q k m)

pub Fresh-append :
    (a : ℕ) (cs : List Cell) (d : Cell) → Fresh a cs → a ≢ d.address → Fresh a (cs ++ (d ∷ []))
Fresh-append a [] d f ne = (ne, tt)
Fresh-append a (c ∷ cs) d (nc, f) ne = (nc, Fresh-append a cs d f ne)

pub Distinct-append :
    (cs : List Cell) (d : Cell) → Distinct cs → Fresh d.address cs → Distinct (cs ++ (d ∷ []))
Distinct-append [] d u f = (tt, tt)
Distinct-append (c ∷ cs) d (fc, u) (ne, f) =
    (Fresh-append c.address cs d fc (λ i. ne (sym i)), Distinct-append cs d u f)

pub last_from-append :
    (p : ℕ) (cs : List Cell) (d : Cell) → last_from p (cs ++ (d ∷ [])) ≡ d.address
last_from-append p [] d = refl
last_from-append p (c ∷ cs) d = last_from-append c.address cs d

pub last_from-Fresh :
    (a : ℕ) (c : Cell) (cs : List Cell) → Fresh a (c ∷ cs) → a ≢ last_from c.address cs
last_from-Fresh a c [] (ne, f) = ne
last_from-Fresh a c (d ∷ cs) (ne, f) = last_from-Fresh a d cs f

pub deref_lem : (h : Memory) (p : ℕ) (e : ListElement) → 0 < p → h p ≡ some e → deref h p ≡ some e
unfolding deref
deref_lem h p e pos at = rw (==_of_ne p 0 (λ i. omega (arith, i)), at) refl

-- The loop of IsInList tests membership and ends.
pub is_in-member :
    (n : ℕ) (h : Memory) (cs : List Cell) (x : ℕ)
    → Chain h cs 0
    → length cs < n
    → is_in n h (head_or cs 0) x ≡ some (member x (items cs))
unfolding is_in
is_in-member zero h cs x k lt = absurd (omega arith)
is_in-member (suc n) h [] x k lt = refl
is_in-member (suc n) h (c ∷ cs) x (pos, at, k) lt =
    rw (==_of_ne c.address 0 (λ i. omega arith), deref_lem h c.address _ pos at)
      (elim (Bool-cases (x == c.content)) [
        | inl e ↦ rw e refl
        | inr e ↦ rw e (is_in-member n h cs x k (omega arith))
      ])

-- The `next` of the last cell is written: the cells then end at another address.
pub relink_last :
    (h : Memory) (c : Cell) (cs : List Cell) (q r : ℕ)
    → Chain h (c ∷ cs) q
    → Distinct (c ∷ cs)
    → (e : ListElement) × (deref h (last_from c.address cs) ≡ some e)
      × Chain (put (last_from c.address cs) (record e { next = r }) h) (c ∷ cs) r
relink_last h c [] q r (pos, at, k) u = (
  record { item = c.content; next = q },
  deref_lem h c.address _ pos at,
  (pos, rw (==_self c.address) refl, tt),
)
relink_last h c (d ∷ cs) q r (pos, at, k) (f, u) =
    let (e, got, k') = relink_last h d cs q r k u in
    let ne = last_from-Fresh c.address d cs f in
    (e, got, (pos, rw (==_of_ne c.address (last_from d.address cs) ne) at, k'))
