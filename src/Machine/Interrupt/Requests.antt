-- ===== src/Machine/Interrupt/Requests.antt =====
-- What the calls a handler makes do to the pending interrupts.
use my_nachos.Machine.Word.{sign_bit}
use my_nachos.Base.{
  ℕ, suc, ◌+◌, ◌≡◌, refl, ◌∙◌, subst, true, Option, none, some, List, [], ◌∷◌, ◌++◌, ltb, arith,
  ltb→lt, Bool-cases, inl, inr,
}
use my_nachos.Base.Checked.{◌>>=◌, ◌>>◌, assert, >>=-eq-some}
use my_nachos.Machine.Interrupt.{
  Interrupt, PendingInterrupt, IntType, Request, schedule_request, yield_request, insert, schedule,
  ask_yield, carry_out,
}
use my_nachos.Machine.Interrupt.Due.{
  AtLeast, IsSorted, due, AtLeast-insert, insert-IsSorted, insert-after,
}

abbrev pub now : Interrupt → ℕ
now i = i.stats.total_ticks

-- Nothing is due, and the interrupts are in order.
pub record Settled (i : Interrupt) : Type 0 where
  pub none_due : AtLeast (suc (now i)) i.pending
  pub in_order : IsSorted i.pending

-- What requests leave alone.
pub record SameRun (i j : Interrupt) : Type 0 where
  pub stats_is : j.stats ≡ i.stats
  pub status_is : j.status ≡ i.status
  pub level_is : j.level ≡ i.level
  pub in_handler_is : j.in_handler ≡ i.in_handler

pub SameRun-refl : (i : Interrupt) → SameRun i i
SameRun-refl i = record { stats_is = refl; status_is = refl; level_is = refl; in_handler_is = refl }

pub SameRun-trans : (i j k : Interrupt) → SameRun i j → SameRun j k → SameRun i k
SameRun-trans i j k a b = record {
  stats_is = b.stats_is ∙ a.stats_is;
  status_is = b.status_is ∙ a.status_is;
  level_is = b.level_is ∙ a.level_is;
  in_handler_is = b.in_handler_is ∙ a.in_handler_is;
}

pub schedule-Settled :
    (to_call from_now : ℕ) (type : IntType) (i j : Interrupt)
    → Settled i
    → schedule to_call from_now type i ≡ some j
    → Settled j × SameRun i j
unfolding schedule assert
schedule-Settled to_call from_now type i j settled run =
    elim (Bool-cases (ltb (now i + from_now) sign_bit)) [
      | inl room ↦ elim (Bool-cases (ltb 0 from_now)) [
        | inl e ↦
            let is : some (record i { pending = insert p i.pending }) ≡ some j =
              rw (room, e) at run in
            let same : record i { pending = insert p i.pending } ≡ j = cc in
            let positive = ltb→lt 0 from_now e in
            subst (λ k. Settled k × SameRun i k) same
              (
                record {
                  none_due =
                      AtLeast-insert (suc (now i)) p i.pending (omega arith) settled.none_due;
                  in_order = insert-IsSorted p i.pending settled.in_order;
                },
                record { stats_is = refl; status_is = refl; level_is = refl; in_handler_is = refl },
              )
        | inr e ↦ let bad : none ≡ some j = rw (room, e) at run in absurd (cc)
      ]
      | inr far ↦ let bad : none ≡ some j = rw far at run in absurd (cc)
    ]
  where
    p : PendingInterrupt
    p = record { call_on_interrupt = to_call; when = now i + from_now; type = type }

ask_yield-Settled : (i j : Interrupt) → Settled i → ask_yield i ≡ some j → Settled j × SameRun i j
unfolding ask_yield assert
ask_yield-Settled i j settled run = elim (Bool-cases i.in_handler) [
  | inl e ↦
      let is : some (record i { yield_on_return = true }) ≡ some j =
        subst (λ b. (assert b >> some (record i { yield_on_return = true })) ≡ some j) e run in
      let same : record i { yield_on_return = true } ≡ j = cc in
      subst (λ k. Settled k × SameRun i k) same
        (
          record { none_due = settled.none_due; in_order = settled.in_order },
          record { stats_is = refl; status_is = refl; level_is = refl; in_handler_is = refl },
        )
  | inr e ↦
      let bad : none ≡ some j =
        subst (λ b. (assert b >> some (record i { yield_on_return = true })) ≡ some j) e run in
      absurd (cc)
]

pub carry_out-Settled :
    (rs : List Request) (i j : Interrupt)
    → Settled i
    → carry_out rs i ≡ some j
    → Settled j × SameRun i j
unfolding carry_out
carry_out-Settled [] i j settled run =
    let same : i ≡ j = cc in subst (λ k. Settled k × SameRun i k) same (settled, SameRun-refl i)
carry_out-Settled (schedule_request c f t ∷ rs) i j settled run =
    let (k, first, rest) = >>=-eq-some (schedule c f t i) (carry_out rs) run in
    let (sk, ik) = schedule-Settled c f t i k settled first in
    let (sj, kj) = carry_out-Settled rs k j sk rest in (sj, SameRun-trans i k j ik kj)
carry_out-Settled (yield_request ∷ rs) i j settled run =
    let (k, first, rest) = >>=-eq-some (ask_yield i) (carry_out rs) run in
    let (sk, ik) = ask_yield-Settled i k settled first in
    let (sj, kj) = carry_out-Settled rs k j sk rest in (sj, SameRun-trans i k j ik kj)

-- The interrupts `ps` in front of the pending ones.
abbrev pub prepend : List PendingInterrupt → Interrupt → Interrupt
prepend ps i = record i { pending = ps ++ i.pending }

abbrev pub prepended : List PendingInterrupt → Option Interrupt → Option Interrupt
prepended ps o = o >>= λ i. some (prepend ps i)

-- Requests do not reach the interrupts that are due.
pub carry_out-prepend :
    (rs : List Request) (ps : List PendingInterrupt) (i : Interrupt)
    → due (now i) ps ≡ ps
    → carry_out rs (prepend ps i) ≡ prepended ps (carry_out rs i)
unfolding carry_out schedule ask_yield assert
carry_out-prepend [] ps i d = refl
carry_out-prepend (schedule_request c f t ∷ rs) ps i d =
    elim (Bool-cases (ltb (now i + f) sign_bit)) [
      | inl room ↦ elim (Bool-cases (ltb 0 f)) [
        | inl e ↦
            let p : PendingInterrupt = record {
              call_on_interrupt = c;
              when = now i + f;
              type = t;
            } in
            let positive = ltb→lt 0 f e in
            rw (room, e, insert-after (now i) p ps i.pending (omega arith) d)
              (carry_out-prepend rs ps (record i { pending = insert p i.pending }) d)
        | inr e ↦ rw (room, e) refl
      ]
      | inr far ↦ rw far refl
    ]
carry_out-prepend (yield_request ∷ rs) ps i d = elim (Bool-cases i.in_handler) [
  | inl e ↦
      rw e (carry_out-prepend rs ps (record i { in_handler = true; yield_on_return = true }) d)
  | inr e ↦ rw e refl
]
