-- ===== src/Tables/Rows.antt =====
-- Rows of a table by key: a lookup, an insert or update by key, an update and a deletion by test.
use api_wallet.Prelude.{
  map, true, Bool-cases, inl, inr, Text, text_eq, text_eq_iff, ◌≡◌, refl, Bool, false, Option, none,
  some, List, [], ◌∷◌, ◌++◌, arith, if◌then◌else◌, All,
}

abbrev pub opt_text_eq : Option Text → Option Text → Bool
opt_text_eq (some s) (some t) = text_eq s t
opt_text_eq _ _ = false

module _ {ℓ} {R : Type ℓ} where
  unfoldable pub lookup_by : (R → Text) → Text → List R → Option R
  lookup_by key k [] = none
  lookup_by key k (r ∷ rows) = if text_eq (key r) k then some r else lookup_by key k rows

  unfoldable pub upsert_by : (R → Text) → R → List R → List R
  upsert_by key r [] = r ∷ []
  upsert_by key r (s ∷ rows) =
      if text_eq (key s) (key r) then r ∷ rows else s ∷ upsert_by key r rows

  unfoldable pub update_where : (R → Bool) → (R → R) → List R → List R
  update_where test f [] = []
  update_where test f (r ∷ rows) = (if test r then f r else r) ∷ update_where test f rows

  unfoldable pub delete_where : (R → Bool) → List R → List R
  delete_where test [] = []
  delete_where test (r ∷ rows) =
      if test r then delete_where test rows else r ∷ delete_where test rows

  pub lookup_by-upsert_by :
      (key : R → Text) (k : Text) (r : R) (rows : List R)
      → lookup_by key k (upsert_by key r rows)
        ≡ (if text_eq (key r) k then some r else lookup_by key k rows)
  unfolding lookup_by upsert_by
  lookup_by-upsert_by key k r [] = refl
  lookup_by-upsert_by key k r (s ∷ rows) = ground (
    arith,
    text_eq_iff (key s) (key r),
    text_eq_iff (key r) k,
    text_eq_iff (key s) k,
    lookup_by-upsert_by key k r rows,
  )

  pub lookup_by-append_missing :
      (key : R → Text) (k : Text) (r : R) (rows : List R)
      → lookup_by key (key r) rows ≡ none
      → lookup_by key k (rows ++ r ∷ [])
        ≡ (if text_eq (key r) k then some r else lookup_by key k rows)
  unfolding lookup_by
  lookup_by-append_missing key k r [] h = refl
  lookup_by-append_missing key k r (s ∷ rows) h = ground (
    arith,
    text_eq_iff (key s) (key r),
    text_eq_iff (key r) k,
    text_eq_iff (key s) k,
    lookup_by-append_missing key k r rows,
  )

  -- The row that is found has the key.
  pub lookup_by-key :
      (key : R → Text) (k : Text) (r : R) (rows : List R)
      → lookup_by key k rows ≡ some r
      → key r ≡ k
  unfolding lookup_by
  lookup_by-key key k r [] h = cc
  lookup_by-key key k r (s ∷ rows) h =
      ground (arith, text_eq_iff (key s) k, lookup_by-key key k r rows)

  pub update_where-All {κ} :
      (P : R → Type κ) (test : R → Bool) (f : R → R) (rows : List R)
      → ((r : R) → P r → P (f r))
      → All P rows
      → All P (update_where test f rows)
  unfolding update_where
  update_where-All P test f [] keep h = tt
  update_where-All P test f (r ∷ rows) keep h =
      (ground (arith, keep r h.0), update_where-All P test f rows keep h.1)

  -- An update that keeps the keys, read back.
  pub lookup_by-update_where :
      (key : R → Text) (k : Text) (test : R → Bool) (f : R → R) (r : R) (rows : List R)
      → ((s : R) → key (f s) ≡ key s)
      → lookup_by key k rows ≡ some r
      → lookup_by key k (update_where test f rows) ≡ some (if test r then f r else r)
  unfolding lookup_by update_where
  lookup_by-update_where key k test f r [] keep h = cc
  lookup_by-update_where key k test f r (s ∷ rows) keep h =
      ground (arith, keep s, lookup_by-update_where key k test f r rows keep)

  -- A deletion leaves the rows that do not pass its test, and those alone.
  pub lookup_by-delete_where :
      (key : R → Text) (k : Text) (test : R → Bool) (r : R) (rows : List R)
      → lookup_by key k rows ≡ some r
      → test r ≡ false
      → lookup_by key k (delete_where test rows) ≡ some r
  unfolding lookup_by delete_where
  lookup_by-delete_where key k test r [] h e = cc
  lookup_by-delete_where key k test r (s ∷ rows) h e =
      ground (arith, lookup_by-delete_where key k test r rows)

  pub delete_where-All :
      (test : R → Bool) (rows : List R) → All (λ r. test r ≡ false) (delete_where test rows)
  unfolding delete_where
  delete_where-All test [] = tt
  delete_where-All test (r ∷ rows) = elim (Bool-cases (test r)) [
    | inl e ↦ rw e (delete_where-All test rows)
    | inr e ↦ rw e (e, delete_where-All test rows)
  ]

  -- An update that keeps a column of the rows that it touches keeps the column.
  pub map-update_where {κ κ'} :
      {B : Type κ} (column : R → B) (P : R → Type κ') (test : R → Bool) (f : R → R) (rows : List R)
      → ((r : R) → P r → test r ≡ true → column (f r) ≡ column r)
      → All P rows
      → map column (update_where test f rows) ≡ map column rows
  unfolding update_where
  map-update_where column P test f [] keep h = refl
  map-update_where column P test f (r ∷ rows) keep h = elim (Bool-cases (test r)) [
    | inl e ↦ rw (e, keep r h.0 e, map-update_where column P test f rows keep h.1) refl
    | inr e ↦ rw (e, map-update_where column P test f rows keep h.1) refl
  ]
