-- ===== src/Sample/Store.antt =====
-- A store that behaves as documented: its entries with their deadlines, the newest first.
use api_wallet.Prelude.{
  ℕ, ◌+◌, Text, text_eq, text_eq→eq, text_eq_refl, ◌≡◌, refl, ap, subst, inl, inr, false, Option,
  none, some, List, [], ◌∷◌, ltb, lt→ltb, le→ltb, if◌then◌else◌, Bool-cases,
}
use mathlib.Core.Option.{some-injective}
use api_wallet.Cache.{CacheManager, IsStore}

pub record Entry (T : Type 0) : Type 0 where
  pub key : Text
  pub value : T
  pub deadline : ℕ

module _ {T : Type 0} where
  abbrev entry : Text → T → ℕ → Entry T
  entry k v n = record { key = k; value = v; deadline = n }

  abbrev held : Text → ℕ → List (Entry T) → Option T
  held k now [] = none
  held k now (e ∷ es) =
      let rest = held k now es in
      if text_eq e.key k then (if ltb now e.deadline then some e.value else none) else rest

  abbrev without : Text → List (Entry T) → List (Entry T)
  without k [] = []
  without k (e ∷ es) = if text_eq e.key k then without k es else e ∷ without k es

  without-gone : (k : Text) (now : ℕ) (es : List (Entry T)) → held k now (without k es) ≡ none
  without-gone k now [] = refl
  without-gone k now (e ∷ es) = elim (Bool-cases (text_eq e.key k)) [
    | inl same ↦ rw same (without-gone k now es)
    | inr other ↦ rw (other, other) (without-gone k now es)
  ]

  without-other :
      (k k' : Text) (now : ℕ) (es : List (Entry T))
      → text_eq k k' ≡ false
      → held k' now (without k es) ≡ held k' now es
  without-other k k' now [] h = refl
  without-other k k' now (e ∷ es) h = elim (Bool-cases (text_eq e.key k)) [
    | inl same ↦ rw (same, text_eq→eq e.key k same, h) (without-other k k' now es h)
    | inr other ↦ rw other (
        ap
          (λ o. if text_eq e.key k' then (if ltb now e.deadline then some e.value else none) else o)
          (without-other k k' now es h))
  ]

abbrev pub store : (T : Type 0) → CacheManager T
store T = record {
  Store = List (Entry T);
  get = λ k now es. some (held k now es);
  set = λ k v ttl now es. some (entry k v (now + ttl) ∷ es);
  del = λ k es. some (without k es);
  held = held;
}

pub store-IsStore : (T : Type 0) → IsStore (store T)
store-IsStore T = record {
  got = λ k now s. inr refl;
  set_kept = λ k v ttl now now' s s' e le lt.
      subst (λ l. held k now' l ≡ some v) (some-injective _ _ e)
        (rw (text_eq_refl k, lt→ltb now' (now + ttl) lt) refl);
  set_expired = λ k v ttl now now' s s' e positive le.
      subst (λ l. held k now' l ≡ none) (some-injective _ _ e)
        (rw (text_eq_refl k, le→ltb now' (now + ttl) le) refl);
  set_other = λ k k' v ttl now now' s s' e other.
      subst (λ l. held k' now' l ≡ held k' now' s) (some-injective _ _ e) (rw other refl);
  del_gone = λ k now s s' e.
      subst (λ l. held k now l ≡ none) (some-injective _ _ e) (without-gone k now s);
  del_other = λ k k' now s s' e other.
      subst (λ l. held k' now l ≡ held k' now s) (some-injective _ _ e)
        (without-other k k' now s other);
}
