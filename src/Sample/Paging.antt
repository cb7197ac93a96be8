-- ===== src/Sample/Paging.antt =====
-- A paging that behaves as documented: the rows sorted by insertion, then cut.
use api_wallet.Prelude.{
  Bool, refl, inl, inr, Bool-cases, List, [], ◌∷◌, All, take, drop, if◌then◌else◌,
}
use mathlib.Core.List.Permᴰ
use mathlib.Core.List.Permᴰ.{Permᴰ, nil, cons, swap, trans}
use api_wallet.Entities.{WalletEvent}
use api_wallet.Queries.{IsSortedBy, IsOrder, Paging, IsPaging}

All-weaken :
    (P Q : WalletEvent → Type 0) (es : List WalletEvent)
    → ((e : WalletEvent) → P e → Q e)
    → All P es
    → All Q es
All-weaken P Q [] f h = tt
All-weaken P Q (e ∷ es) f h = (f e h.0, All-weaken P Q es f h.1)

module _ (order : WalletEvent → WalletEvent → Bool) where
  abbrev insert_sorted : WalletEvent → List WalletEvent → List WalletEvent
  insert_sorted e [] = e ∷ []
  insert_sorted e (f ∷ fs) =
      let rest = insert_sorted e fs in if order e f then e ∷ f ∷ fs else f ∷ rest

  abbrev sorted : List WalletEvent → List WalletEvent
  sorted [] = []
  sorted (e ∷ es) = insert_sorted e (sorted es)

  insert-perm : (e : WalletEvent) (es : List WalletEvent) → Permᴰ (e ∷ es) (insert_sorted e es)
  insert-perm e [] = cons refl nil
  insert-perm e (f ∷ fs) = elim (Bool-cases (order e f)) [
    | inl h ↦ rw h (Permᴰ.refl (e ∷ f ∷ fs))
    | inr h ↦ rw h (trans (swap refl refl) (cons refl (insert-perm e fs)))
  ]

  sort-perm : (es : List WalletEvent) → Permᴰ es (sorted es)
  sort-perm [] = nil
  sort-perm (e ∷ es) = trans (cons refl (sort-perm es)) (insert-perm e (sorted es))

  insert-All :
      (Q : WalletEvent → Type 0) (e : WalletEvent) (es : List WalletEvent)
      → Q e
      → All Q es
      → All Q (insert_sorted e es)
  insert-All Q e [] q h = (q, tt)
  insert-All Q e (f ∷ fs) q h = elim (Bool-cases (order e f)) [
    | inl r ↦ rw r (q, h)
    | inr r ↦ rw r (h.0, insert-All Q e fs q h.1)
  ]

  module _ (good : IsOrder order) where
    insert-IsSortedBy :
        (e : WalletEvent) (es : List WalletEvent)
        → IsSortedBy order es
        → IsSortedBy order (insert_sorted e es)
    insert-IsSortedBy e [] h = (tt, tt)
    insert-IsSortedBy e (f ∷ fs) h = elim (Bool-cases (order e f)) [
      | inl r ↦ rw r ((r, All-weaken _ _ fs (λ g k. good.transitive e f g r k) h.0), h)
      | inr r ↦ rw r (insert-All _ e fs (good.total e f r) h.0, insert-IsSortedBy e fs h.1)
    ]

    sort-IsSortedBy : (es : List WalletEvent) → IsSortedBy order (sorted es)
    sort-IsSortedBy [] = tt
    sort-IsSortedBy (e ∷ es) = insert-IsSortedBy e (sorted es) (sort-IsSortedBy es)

abbrev pub paging : Paging
paging order offset limit rows = take limit (drop offset (sorted order rows))

pub paging-IsPaging : IsPaging paging
paging-IsPaging = record {
  cut = λ order good offset limit rows.
      (sorted order rows, sort-perm order rows, sort-IsSortedBy order good rows, refl);
}
