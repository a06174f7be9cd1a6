-- ===== src/Containers/Linked/Inserting.antt =====
-- The cells that `SortedList::Insert` leaves, and its loop.
use my_nachos.Base.{
  ℕ, zero, suc, ◌+◌, ◌<◌, ◌≡◌, ◌≢◌, refl, sym, ap, ◌∙◌, Bool, true, false, some, List, [], ◌∷◌,
  ◌++◌, if◌then◌else◌, ◌==◌, arith, ==_self, ==_of_ne, length, Bool-cases, inl, inr, ◌⊎◌,
}
use my_nachos.Containers.Linked.{
  ListElement, Memory, LinkedList, put, new_element, set_next, deref, counted,
}
use my_nachos.Containers.Linked.Sorted.{insert_after}
use my_nachos.Containers.Sequence.{member}
use my_nachos.Containers.Linked.Cells.{
  Cell, items, last_from, Chain, Fresh, Distinct, Chain-put, deref_lem,
}
use my_nachos.Containers.Linked.Adding.{cell_at}

module _ (before : ℕ → ℕ → Bool) where
  -- The cells with `d` before the first one it compares less than.
  abbrev pub insert_cell : Cell → List Cell → List Cell
  insert_cell d [] = d ∷ []
  insert_cell d (c ∷ cs) =
      let rest = insert_cell d cs in if before d.content c.content then d ∷ c ∷ cs else c ∷ rest

  pub length-insert_cell : (d : Cell) (cs : List Cell) → length (insert_cell d cs) ≡ length cs + 1
  length-insert_cell d [] = omega arith
  length-insert_cell d (c ∷ cs) = elim (Bool-cases (before d.content c.content)) [
    | inl e ↦ rw e (omega arith)
    | inr e ↦ rw e (omega (arith, length-insert_cell d cs))
  ]

  pub Fresh-insert_cell :
      (a : ℕ) (d : Cell) (cs : List Cell) → a ≢ d.address → Fresh a cs → Fresh a (insert_cell d cs)
  Fresh-insert_cell a d [] ne f = (ne, f)
  Fresh-insert_cell a d (c ∷ cs) ne (nc, f) = elim (Bool-cases (before d.content c.content)) [
    | inl e ↦ rw e (ne, (nc, f))
    | inr e ↦ rw e (nc, Fresh-insert_cell a d cs ne f)
  ]

  pub Distinct-insert_cell :
      (d : Cell) (cs : List Cell) → Fresh d.address cs → Distinct cs → Distinct (insert_cell d cs)
  Distinct-insert_cell d [] f u = (tt, tt)
  Distinct-insert_cell d (c ∷ cs) (nc, f) (fc, u) = elim (Bool-cases (before d.content c.content)) [
    | inl e ↦ rw e ((nc, f), (fc, u))
    | inr e ↦
        rw e (Fresh-insert_cell c.address d cs (λ i. nc (sym i)) fc, Distinct-insert_cell d cs f u)
  ]

  pub member-insert_cell :
      (d : Cell) (cs : List Cell) → member d.content (items (insert_cell d cs)) ≡ true
  member-insert_cell d [] = rw (==_self d.content) refl
  member-insert_cell d (c ∷ cs) = elim (Bool-cases (before d.content c.content)) [
    | inl e ↦ rw (e, ==_self d.content) refl
    | inr e ↦ rw e (elim (Bool-cases (d.content == c.content)) [
      | inl i ↦ rw i refl
      | inr i ↦ rw i (member-insert_cell d cs)
    ])
  ]

  -- The loop returned with the element linked after `p`.
  pub record Linked (l : LinkedList) (e : ℕ) (p : Cell) (cs ds : List Cell) (h : Memory)
      : Type 0 where
    pub chain : Chain h (p ∷ ds) 0
    pub elsewhere : (a : ℕ) → a ≢ e → Fresh a (p ∷ cs) → h a ≡ l.memory a
    pub last_is : last_from p.address ds ≡ last_from p.address cs

  between-Linked :
      (l : LinkedList) (e x : ℕ) (p c : Cell) (cs : List Cell)
      → 0 < e
      → Fresh e (p ∷ c ∷ cs)
      → Chain l.memory (p ∷ c ∷ cs) 0
      → Distinct (p ∷ c ∷ cs)
      → Linked l e p (c ∷ cs) (cell_at e x ∷ c ∷ cs) (
          put p.address
            (record { item = p.content; next = e })
            (put e (record { item = x; next = c.address }) l.memory))
  between-Linked l e x p c cs pose (ep, f) (pos, at, k) (fp, u) = record {
    chain = (
      pos,
      rw (==_self p.address) refl,
      (
        pose,
        rw (==_of_ne e p.address ep, ==_self e) refl,
        Chain-put _ (c ∷ cs) 0 p.address _ fp (Chain-put l.memory (c ∷ cs) 0 e _ f k),
      ),
    );
    elsewhere = λ a ne (np, g). rw (==_of_ne a p.address np, ==_of_ne a e ne) refl;
    last_is = refl;
  }

  -- How the loop after `p` ends.
  unfoldable pub Ends : ℕ → LinkedList → ℕ → ℕ → Cell → List Cell → List Cell → Type 0
  Ends n l e x p cs ds =
      (insert_after before n e x l p.address ≡ some (false, l)) × (ds ≡ cs ++ (cell_at e x ∷ []))
      ⊎ ((h : Memory) × (insert_after before n e x l p.address
            ≡ some (true, counted (record l { memory = h })))
          × Linked l e p cs ds h)

  pub insert_after-Ends :
      (n e x : ℕ) (l : LinkedList) (p : Cell) (cs : List Cell)
      → 0 < e
      → l.memory e ≡ some (new_element x)
      → Fresh e (p ∷ cs)
      → Chain l.memory (p ∷ cs) 0
      → Distinct (p ∷ cs)
      → length cs < n
      → Ends n l e x p cs (insert_cell (cell_at e x) cs)
  unfolding insert_after set_next Ends
  insert_after-Ends zero e x l p cs pose new f k u lt = absurd (omega arith)
  insert_after-Ends (suc n) e x l p [] pose new f (pos, at, k) u lt =
      rw (deref_lem l.memory p.address _ pos at) (inl (refl, refl))
  insert_after-Ends (suc n) e x l p (c ∷ cs) pose new f k u lt =
      let (pos, at, (posc, atc, rest)) = k in
      let p' : ListElement = record { item = p.content; next = c.address } in
      let fe : ListElement = record { item = x; next = c.address } in
      let at_p : deref (put e fe l.memory) p.address ≡ some p' =
        deref_lem (put e fe l.memory) p.address p' pos
          (rw (==_of_ne p.address e (λ i. f.0 (sym i))) at) in
      rw
        (
          deref_lem l.memory p.address _ pos at,
          ==_of_ne c.address 0 (λ i. omega (arith, i)),
          deref_lem l.memory c.address _ posc atc,
        )
        (elim (Bool-cases (before x c.content)) [
          | inl i ↦
              rw (i, deref_lem l.memory e _ pose new, at_p)
                (inr (_, refl, between-Linked l e x p c cs pose f k u))
          | inr i ↦ rw i (
              further
                (insert_after-Ends n e x l c cs pose new f.1 (posc, atc, rest) u.1 (omega arith)))
        ])
    where
      further :
          Ends n l e x c cs (insert_cell (cell_at e x) cs)
          → (insert_after before n e x l c.address ≡ some (false, l))
              × (c ∷ insert_cell (cell_at e x) cs ≡ (c ∷ cs) ++ (cell_at e x ∷ []))
            ⊎ ((h : Memory) × (insert_after before n e x l c.address
                  ≡ some (true, counted (record l { memory = h })))
                × Linked l e p (c ∷ cs) (c ∷ insert_cell (cell_at e x) cs) h)
      further (inl (done, same)) = inl (done, ap (c ∷◌) same)
      further (inr (h, done, r)) = inr (
        h,
        done,
        record {
          chain = (k.0, r.elsewhere p.address (λ i. f.0 (sym i)) u.0 ∙ k.1, r.chain);
          elsewhere = λ a ne g. r.elsewhere a ne g.1;
          last_is = r.last_is;
        },
      )
