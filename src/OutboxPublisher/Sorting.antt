-- ===== src/OutboxPublisher/Sorting.antt =====
-- The order in which a cycle of the publisher (src/modules/wallet/outbox-publisher.service.ts) takes
-- the messages.
use api_wallet.Prelude.{
  ℕ, zero, suc, ◌≡◌, refl, inl, inr, true, false, Option, none, some, List, [], ◌∷◌, take, All,
  arith, Bool-cases,
}
use api_wallet.Entities.{OutboxMessage}
use api_wallet.OutboxPublisher.{no_later, created_by, insert_by_time}

abbrev pub IsSorted : List OutboxMessage → Type 0
IsSorted [] = Unit
IsSorted (m ∷ ms) = All (λ n. created_by m n ≡ true) ms × IsSorted ms

no_later_total : (a b : Option ℕ) → no_later a b ≡ false → no_later b a ≡ true
no_later_total (some s) (some t) h = ground arith
no_later_total none none h = refl
no_later_total (some s) none h = cc
no_later_total none (some t) h = refl

no_later_trans :
    (a b c : Option ℕ) → no_later a b ≡ true → no_later b c ≡ true → no_later a c ≡ true
no_later_trans (some r) (some s) (some t) h k = ground arith
no_later_trans _ _ none h k = refl
no_later_trans none none (some t) h k = k
no_later_trans none (some s) (some t) h k = h
no_later_trans (some r) none (some t) h k = cc

module _ (Q : OutboxMessage → Type 0) where
  pub insert-All :
      (m : OutboxMessage) (ms : List OutboxMessage) → Q m → All Q ms → All Q (insert_by_time m ms)
  unfolding insert_by_time
  insert-All m [] q h = (q, tt)
  insert-All m (n ∷ ms) q h = elim (Bool-cases (created_by m n)) [
    | inl e ↦ rw (insert_by_time, e) (q, h)
    | inr e ↦ rw (insert_by_time, e) (h.0, insert-All m ms q h.1)
  ]

pub All-weaken :
    (P Q : OutboxMessage → Type 0) (ms : List OutboxMessage)
    → ((m : OutboxMessage) → P m → Q m)
    → All P ms
    → All Q ms
All-weaken P Q [] f h = tt
All-weaken P Q (m ∷ ms) f h = (f m h.0, All-weaken P Q ms f h.1)

pub insert-IsSorted :
    (m : OutboxMessage) (ms : List OutboxMessage) → IsSorted ms → IsSorted (insert_by_time m ms)
unfolding insert_by_time
insert-IsSorted m [] h = (tt, tt)
insert-IsSorted m (n ∷ ms) h = elim (Bool-cases (created_by m n)) [
  | inl e ↦
      rw (insert_by_time, e)
        (
          (
            e,
            All-weaken _ _ ms (λ k r. no_later_trans m.created_at n.created_at k.created_at e r)
                h.0,
          ),
          h,
        )
  | inr e ↦
      rw (insert_by_time, e)
        (
          insert-All _ m ms (no_later_total m.created_at n.created_at e) h.0,
          insert-IsSorted m ms h.1,
        )
]

pub take-All :
    (Q : OutboxMessage → Type 0) (n : ℕ) (ms : List OutboxMessage) → All Q ms → All Q (take n ms)
take-All Q zero ms h = tt
take-All Q (suc n) [] h = tt
take-All Q (suc n) (m ∷ ms) h = (h.0, take-All Q n ms h.1)

pub take-IsSorted : (n : ℕ) (ms : List OutboxMessage) → IsSorted ms → IsSorted (take n ms)
take-IsSorted zero ms h = tt
take-IsSorted (suc n) [] h = tt
take-IsSorted (suc n) (m ∷ ms) h = (take-All _ n ms h.0, take-IsSorted n ms h.1)
