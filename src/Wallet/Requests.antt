-- ===== src/Wallet/Requests.antt =====
-- The rules of requests in sequence, and a request that has an outcome and changes nothing.
use api_wallet.Prelude.{Bool, true, false, ◌≡◌, refl, sym, subst, ◌⊎◌, inl, inr}
use api_wallet.Tables.{Db}
use api_wallet.Platform.{Platform}
use api_wallet.Wallet.{raise, Result, ok, err, Error, failure, Action}
use api_wallet.Wallet.Actions.{◌>>=◌, return, raise_if}
use api_wallet.Wallet.Outcomes.{Ends, Refused}

-- The request has this outcome and changes nothing, unless the database refuses to look up the key.
abbrev pub Recalls : {A : Type 0} → Platform → Result A × Db → Result A → Db → Type 0
Recalls p out r db = (out ≡ (r, db)) ⊎ ((out ≡ (err failure, db)) × Refused p)

pub Ends_mono :
    {A : Type 0} (r : Result A × Db) (Q Q' : A → Db → Type 0) (R R' : Error → Db → Type 0)
    → Ends r Q R
    → ((a : A) (d : Db) → Q a d → Q' a d)
    → ((e : Error) (d : Db) → R e d → R' e d)
    → Ends r Q' R'
Ends_mono (ok a, d) Q Q' R R' h f g = f a d h
Ends_mono (err e, d) Q Q' R R' h f g = g e d h

pub bind_action_rule :
    {A B : Type 0} (m : Action A) (f : A → Action B) (db : Db) (P : A → Db → Type 0)
    (Q : B → Db → Type 0) (R : Error → Db → Type 0)
    → Ends (m db) P R
    → ((a : A) (d : Db) → P a d → Ends (f a d) Q R)
    → Ends ((m >>= f) db) Q R
bind_action_rule {A} {B} m f db P Q R h k = go (m db) h
  where
    go :
        (r : Result A × Db)
        → Ends r P R
        → Ends
            (let (x, d) = r in elim x as (λ _. Result B × Db) [ ok a ↦ f a d | err e ↦ (err e, d) ])
            Q
            R
    go (ok a, d) h = k a d h
    go (err e, d) h = h

module _ (p : Platform) {A B : Type 0} (m : Action A) (f : A → Action B) (db : Db) where
  raise_rule : (e : Error) → m db ≡ (err e, db) → (m >>= f) db ≡ (err e, db)
  raise_rule x e = subst (λ out. ((λ _. out) >>= f) db ≡ (err x, db)) (sym e) refl

  pub bind-Recalls :
      (a : A) (r : Result B)
      → Recalls p (m db) (ok a) db
      → Recalls p (f a db) r db
      → Recalls p ((m >>= f) db) r db
  bind-Recalls a r (inl e) h = subst (λ out. Recalls p (((λ _. out) >>= f) db) r db) (sym e) h
  bind-Recalls a r (inr (e, refused)) h = inr (raise_rule failure e, refused)

  pub raise-Recalls :
      (e : Error) → Recalls p (m db) (err e) db → Recalls p ((m >>= f) db) (err e) db
  raise-Recalls x (inl e) = inl (raise_rule x e)
  raise-Recalls x (inr (e, refused)) = inr (raise_rule failure e, refused)

-- A request that keeps the invariant, in every database that has it.
pub record Keeps (I : Db → Type 0) {A : Type 0} (m : Action A) : Type 0 where
  pub at : (db : Db) → I db → Ends (m db) (λ _ d. I d) (λ _ d. I d)

pub return-Keeps : {I : Db → Type 0} {A : Type 0} (a : A) → Keeps I (return a)
return-Keeps a = record { at = λ db i. i }

pub raise-Keeps : {I : Db → Type 0} {A : Type 0} (e : Error) → Keeps I (raise {A = A} e)
raise-Keeps e = record { at = λ db i. i }

pub raise_if-Keeps : {I : Db → Type 0} (b : Bool) (e : Error) → Keeps I (raise_if b e)
raise_if-Keeps true e = record { at = λ db i. i }
raise_if-Keeps false e = record { at = λ db i. i }

pub bind-Keeps :
    {I : Db → Type 0} {A B : Type 0} (m : Action A) (f : A → Action B)
    → Keeps I m
    → ((a : A) → Keeps I (f a))
    → Keeps I (m >>= f)
bind-Keeps {I} m f hm hf = record {
  at = λ db i.
      bind_action_rule m f db (λ _ d. I d) (λ _ d. I d) (λ _ d. I d) (hm.at db i)
        (λ a d j. (hf a).at d j);
}
