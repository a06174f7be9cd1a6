-- ===== src/Containers/Linked/Removing.antt =====
-- `List::RemoveFront` and `List::Remove` on a list whose elements are known.
use my_nachos.Base.{
  ℕ, zero, suc, ◌+◌, ◌-◌, ◌<◌, ◌≡◌, ◌≢◌, refl, sym, ap, subst, ◌∙◌, true, false, none, some, List,
  [], ◌∷◌, if◌then◌else◌, ◌==◌, arith, ==_self, ==_of_ne, suc_ne_zero, length, Bool-cases, inl, inr,
}
use my_nachos.Base.Checked.{assert}
use my_nachos.Containers.Linked.{
  Memory, LinkedList, put, free, set_next, deref, is_empty, remove_front, remove_after, remove_here,
  remove,
}
use my_nachos.Containers.Sequence.{member}
use my_nachos.Containers.Linked.Cells.{
  Cell, items, head_or, last_from, Chain, Fresh, Distinct, Chain-put, Chain-free, last_from-Fresh,
  deref_lem,
}
use my_nachos.Containers.Linked.Adding.{Holds, assert_in-member, assert_not_in-member}

-- The cells without the first one with item `x`.
abbrev pub without : ℕ → List Cell → List Cell
without x [] = []
without x (c ∷ cs) = let rest = without x cs in if x == c.content then cs else c ∷ rest

pub Fresh-without : (a x : ℕ) (cs : List Cell) → Fresh a cs → Fresh a (without x cs)
Fresh-without a x [] f = tt
Fresh-without a x (c ∷ cs) (ne, f) = elim (Bool-cases (x == c.content)) [
  | inl e ↦ rw e f
  | inr e ↦ rw e (ne, Fresh-without a x cs f)
]

pub Distinct-without : (x : ℕ) (cs : List Cell) → Distinct cs → Distinct (without x cs)
Distinct-without x [] u = tt
Distinct-without x (c ∷ cs) (f, u) = elim (Bool-cases (x == c.content)) [
  | inl e ↦ rw e u
  | inr e ↦ rw e (Fresh-without c.address x cs f, Distinct-without x cs u)
]

pub length-without :
    (x : ℕ) (cs : List Cell) → member x (items cs) ≡ true → length (without x cs) + 1 ≡ length cs
length-without x [] m = absurd (cc)
length-without x (c ∷ cs) m = elim (Bool-cases (x == c.content)) [
  | inl e ↦ rw e (omega arith)
  | inr e ↦ rw e (
      omega (
        arith,
        length-without x cs (subst (λ b. (if b then true else member x (items cs)) ≡ true) e m),
      ))
]

pub remove_front-refuses : (l : LinkedList) → Holds l [] → remove_front l ≡ none
unfolding remove_front is_empty assert
remove_front-refuses l holds = rw holds.count_is refl

pub remove_front-Holds :
    (l : LinkedList) (c : Cell) (cs : List Cell)
    → Holds l (c ∷ cs)
    → (l' : LinkedList) × (remove_front l ≡ some (c.content, l')) × Holds l' cs
unfolding remove_front is_empty assert
remove_front-Holds l c [] holds =
    let (pos, at, k) = holds.chain in
    rw
      (
        holds.count_is,
        holds.first_is,
        holds.last_is,
        deref_lem l.memory c.address _ pos at,
        ==_self c.address,
      )
      (
        _,
        refl,
        record { chain = tt; distinct = tt; first_is = refl; last_is = refl; count_is = refl },
      )
remove_front-Holds l c (d ∷ cs) holds =
    let (pos, at, k) = holds.chain in
    let (f, u) = holds.distinct in
    rw
      (
        holds.count_is,
        holds.first_is,
        holds.last_is,
        suc_ne_zero (length (d ∷ cs)),
        deref_lem l.memory c.address _ pos at,
        ==_of_ne c.address (last_from d.address cs) (last_from-Fresh c.address d cs f),
      )
      (
        _,
        refl,
        record {
          chain = Chain-free l.memory (d ∷ cs) 0 c.address f k;
          distinct = u;
          first_is = refl;
          last_is = refl;
          count_is = omega arith;
        },
      )

-- The list after the loop of Remove has turned the cells `cs` after `p` to `left`.
record Unlinked (l : LinkedList) (p : Cell) (cs left : List Cell) (l' : LinkedList) : Type 0 where
  chain : Chain l'.memory (p ∷ left) 0
  elsewhere : (a : ℕ) → Fresh a (p ∷ cs) → l'.memory a ≡ l.memory a
  first_is : l'.first ≡ l.first
  last_is : l'.last ≡ last_from p.address left
  count_is : l'.num_in_list ≡ l.num_in_list - 1

-- The memory after the cell after `p` is unlinked and freed.
unlinked : Memory → Cell → ℕ → ℕ → Memory
unlinked h p r a = free a (put p.address (record { item = p.content; next = r }) h)

unlinked-elsewhere :
    (h : Memory) (p c : Cell) (r a : ℕ)
    → a ≢ p.address
    → a ≢ c.address
    → unlinked h p r c.address a ≡ h a
unfolding unlinked
unlinked-elsewhere h p c r a np nc = rw (==_of_ne a c.address nc, ==_of_ne a p.address np) refl

unlinked-Chain :
    (h : Memory) (p c : Cell) (cs : List Cell)
    → Chain h (p ∷ c ∷ cs) 0
    → Distinct (p ∷ c ∷ cs)
    → Chain (unlinked h p (head_or cs 0) c.address) (p ∷ cs) 0
unfolding unlinked
unlinked-Chain h p c cs (pos, at, (posc, atc, k)) ((ne, fp), (fc, u)) = (
  pos,
  rw (==_of_ne p.address c.address ne, ==_self p.address) refl,
  Chain-free _ cs 0 c.address fc (Chain-put h cs 0 p.address _ fp k),
)

remove_after-Unlinked :
    (n x : ℕ) (l : LinkedList) (p : Cell) (cs : List Cell)
    → Chain l.memory (p ∷ cs) 0
    → Distinct (p ∷ cs)
    → l.last ≡ last_from p.address cs
    → member x (items cs) ≡ true
    → length cs < n
    → (l' : LinkedList) × (remove_after n x l p.address (head_or cs 0) ≡ some l')
      × Unlinked l p cs (without x cs) l'
unfolding remove_after set_next unlinked
remove_after-Unlinked zero x l p cs k u la m lt = absurd (omega arith)
remove_after-Unlinked (suc n) x l p [] k u la m lt = absurd (cc)
remove_after-Unlinked (suc n) x l p (c ∷ cs) k u la m lt =
    let (pos, at, (posc, atc, rest)) = k in
    rw (==_of_ne c.address 0 (λ i. omega (arith, i)), deref_lem l.memory c.address _ posc atc)
      (elim (Bool-cases (x == c.content)) [
        | inl e ↦
            rw (e, deref_lem l.memory p.address _ pos at)
              (
                _,
                refl,
                record {
                  chain = unlinked-Chain l.memory p c cs k u;
                  elsewhere =
                      λ a (np, (nc, f)). unlinked-elsewhere l.memory p c (head_or cs 0) a np nc;
                  first_is = refl;
                  last_is = new_last cs la rest;
                  count_is = refl;
                },
              )
        | inr e ↦
            let (l', done, r) =
              remove_after-Unlinked n x l c cs (posc, atc, rest) u.1 la
                (subst (λ b. (if b then true else member x (items cs)) ≡ true) e m) (omega arith) in
            rw e (
              l',
              done,
              record {
                chain = (pos, r.elsewhere p.address u.0 ∙ at, r.chain);
                elsewhere = λ a (np, f). r.elsewhere a f;
                first_is = r.first_is;
                last_is = r.last_is;
                count_is = r.count_is;
              },
            )
      ])
  where
    new_last :
        (ds : List Cell)
        → l.last ≡ last_from c.address ds
        → Chain l.memory ds 0
        → (if head_or ds 0 == 0 then p.address else l.last) ≡ last_from p.address ds
    new_last [] la' k' = refl
    new_last (d ∷ ds) la' (posd, atd, k') = rw (==_of_ne d.address 0 (λ i. omega (arith, i))) la'

pub remove_here-Holds :
    (n x : ℕ) (l : LinkedList) (cs : List Cell)
    → Holds l cs
    → member x (items cs) ≡ true
    → length cs < n
    → (l' : LinkedList) × (remove_here n x l ≡ some l') × Holds l' (without x cs)
unfolding remove_here assert
remove_here-Holds n x l [] holds m lt = absurd (cc)
remove_here-Holds n x l (c ∷ cs) holds m lt =
    let (pos, at, k) = holds.chain in
    let (l₁, took, front) = remove_front-Holds l c cs holds in
    rw (ap (deref l.memory) holds.first_is ∙ deref_lem l.memory c.address _ pos at)
      (elim (Bool-cases (x == c.content)) [
        | inl e ↦ rw (e, took, e) (l₁, refl, front)
        | inr e ↦
            let (l', done, r) =
              remove_after-Unlinked n x l c cs (pos, at, k) holds.distinct holds.last_is
                (subst (λ b. (if b then true else member x (items cs)) ≡ true) e m) (omega arith) in
            rw e (
              l',
              subst (λ f. remove_after n x l f (head_or cs 0) ≡ some l') (sym holds.first_is) done,
              record {
                chain = r.chain;
                distinct = (
                  Fresh-without c.address x cs holds.distinct.0,
                  Distinct-without x cs holds.distinct.1,
                );
                first_is = r.first_is ∙ holds.first_is;
                last_is = r.last_is;
                count_is = omega (
                  arith,
                  r.count_is,
                  holds.count_is,
                  length-without x cs
                      (subst (λ b. (if b then true else member x (items cs)) ≡ true) e m),
                );
              },
            )
      ])

module _ (n x : ℕ) (l : LinkedList) (cs : List Cell) (holds : Holds l cs)
    (fuel : length cs < n) where
  pub remove-refuses : member x (items cs) ≡ false → remove n x l ≡ none
  unfolding remove assert
  remove-refuses m = rw (assert_in-member n l cs holds fuel x, m) refl

  -- What Remove does with an item that is in the list: the last ASSERT fails when it is there twice.
  pub remove-Holds :
      member x (items cs) ≡ true
      → (l' : LinkedList) × (remove n x l
          ≡ (if member x (items (without x cs)) then none else some l'))
        × Holds l' (without x cs)
  unfolding remove assert
  remove-Holds m =
      let (l', done, holds') = remove_here-Holds n x l cs holds m fuel in
      let size : length (without x cs) < n = omega (arith, length-without x cs m) in
      (
        l',
        rw
            (
              assert_in-member n l cs holds fuel x,
              m,
              done,
              assert_not_in-member n l' (without x cs) holds' size x,
            )
            (elim (Bool-cases (member x (items (without x cs)))) [
              | inl e ↦ rw e refl
              | inr e ↦ rw e refl
            ]),
        holds',
      )
