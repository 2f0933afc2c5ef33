-- ===== src/Table.antt =====
-- A SQLite table with a text primary key, as the store of runtime/transactional_ingest.py uses it:
-- one row to a key, in the order of insertion.
use knoarbor.Prelude.{
  ℕ, suc, String, ◌≡◌, refl, Bool, true, false, Option, none, some, List, [], ◌∷◌, ◌++◌, arith,
  str_eq, eq_iff, if◌then◌else◌, is_some, Result, ok, err, integrity, Bool-cases, Option-cases,
  true, false, inl, inr, eq_refl,
}
use mathlib.Core.Option

abbrev pub Table {ℓ} : Type ℓ → Type ℓ
Table A = List (String × A)

module _ {ℓ} {A : Type ℓ} where
  -- `select * from t where key=?`, then `fetchone()`.
  unfoldable pub lookup : String → Table A → Option A
  lookup k [] = none
  lookup k ((j, a) ∷ t) = if str_eq j k then some a else lookup k t

  -- `update t set … where test`: every row that passes the test is rewritten.
  unfoldable pub update_where : (String → A → Bool) → (A → A) → Table A → Table A
  update_where test f [] = []
  update_where test f ((j, a) ∷ t) = (j, if test j a then f a else a) ∷ update_where test f t

  -- `updated.rowcount` of the same statement.
  unfoldable pub row_count : (String → A → Bool) → Table A → ℕ
  row_count test [] = 0
  row_count test ((j, a) ∷ t) = let n = row_count test t in if test j a then suc n else n

  -- `update t set … where key=?`.
  abbrev pub update : String → (A → A) → Table A → Table A
  update k = update_where (λ j _. str_eq j k)

  -- `insert into t values(…)`, refused where the key is taken.
  unfoldable pub insert : String → A → Table A → Result (Table A)
  insert k a t =
      if is_some (lookup k t)
      then err (integrity "UNIQUE constraint failed")
      else ok (t ++ (k, a) ∷ [])

  -- `insert … on conflict(key) do update set …`: the row of the key, new or rewritten.
  unfoldable pub upsert : String → A → Table A → Table A
  upsert k a [] = (k, a) ∷ []
  upsert k a ((j, b) ∷ t) = if str_eq j k then (j, a) ∷ t else (j, b) ∷ upsert k a t

  -- `delete from t where key=?`.
  unfoldable pub delete : String → Table A → Table A
  delete k [] = []
  delete k ((j, a) ∷ t) = let rest = delete k t in if str_eq j k then rest else (j, a) ∷ rest

  -- No key has two rows.
  abbrev pub Unique : Table A → Type ℓ
  Unique [] = Unit
  Unique ((k, a) ∷ t) = (lookup k t ≡ none) × Unique t

  pub lookup-update_where :
      (test : String → A → Bool) (f : A → A) (k : String) (t : Table A)
      → lookup k (update_where test f t)
        ≡ Option.map (λ a. if test k a then f a else a) (lookup k t)
  unfolding lookup update_where
  lookup-update_where test f k [] = refl
  lookup-update_where test f k ((j, a) ∷ t) = elim (Bool-cases (str_eq j k)) [
    | inl e ↦ rw ((eq_iff j k).0 e) (rw (eq_refl k))
    | inr e ↦ rw e (lookup-update_where test f k t)
  ]

  pub lookup-snoc :
      (k j : String) (a : A) (t : Table A)
      → lookup k t ≡ none
      → lookup j (t ++ (k, a) ∷ []) ≡ (if str_eq k j then some a else lookup j t)
  unfolding lookup
  lookup-snoc k j a [] h = refl
  lookup-snoc k j a ((i, b) ∷ t) h =
      ground (arith, lookup-snoc k j a t, eq_iff i k, eq_iff i j, eq_iff k j)

  pub insert-eq-ok :
      (k : String) (a : A) (t u : Table A)
      → insert k a t ≡ ok u
      → (lookup k t ≡ none) × (u ≡ t ++ (k, a) ∷ [])
  unfolding insert
  insert-eq-ok k a t u h = ground arith

  pub lookup-insert :
      (k : String) (a : A) (t u : Table A) (j : String)
      → insert k a t ≡ ok u
      → lookup j u ≡ (if str_eq k j then some a else lookup j t)
  lookup-insert k a t u j h =
      let (fresh, e) = insert-eq-ok k a t u h in rw e (lookup-snoc k j a t fresh)

  pub lookup-upsert :
      (k j : String) (a : A) (t : Table A)
      → lookup j (upsert k a t) ≡ (if str_eq k j then some a else lookup j t)
  unfolding lookup upsert
  lookup-upsert k j a [] = refl
  lookup-upsert k j a ((i, b) ∷ t) =
      ground (arith, lookup-upsert k j a t, eq_iff i k, eq_iff i j, eq_iff k j)

  pub lookup-delete :
      (k j : String) (t : Table A)
      → lookup j (delete k t) ≡ (if str_eq k j then none else lookup j t)
  unfolding lookup delete
  lookup-delete k j [] = ground arith
  lookup-delete k j ((i, a) ∷ t) =
      ground (arith, lookup-delete k j t, eq_iff i k, eq_iff i j, eq_iff k j)

  pub Unique-update_where :
      (test : String → A → Bool) (f : A → A) (t : Table A)
      → Unique t
      → Unique (update_where test f t)
  unfolding update_where
  Unique-update_where test f [] u = tt
  Unique-update_where test f ((k, a) ∷ t) u =
      (rw (lookup-update_where test f k t, u.0), Unique-update_where test f t u.1)

  Unique-snoc :
      (k : String) (a : A) (t : Table A) → lookup k t ≡ none → Unique t → Unique (t ++ (k, a) ∷ [])
  unfolding lookup
  Unique-snoc k a [] h u = (refl, tt)
  Unique-snoc k a ((i, b) ∷ t) h u =
      ground (arith, Unique-snoc k a t, lookup-snoc k i a t, eq_iff i k, eq_iff k i)

  pub Unique-insert :
      (k : String) (a : A) (t u : Table A) → insert k a t ≡ ok u → Unique t → Unique u
  Unique-insert k a t u h w =
      let (fresh, e) = insert-eq-ok k a t u h in rw e (Unique-snoc k a t fresh w)

  -- `P` of every row that a key finds.
  abbrev pub Rows {κ} : (String → A → Type κ) → Table A → Type (ℓ ⊔ κ)
  Rows P t = (k : String) (a : A) → lookup k t ≡ some a → P k a

  -- A rewritten row is an old one, rewritten if it passed the test.
  pub update_where-inv :
      (test : String → A → Bool) (f : A → A) (k : String) (t : Table A) (b : A)
      → lookup k (update_where test f t) ≡ some b
      → (a : A) × (lookup k t ≡ some a) × (b ≡ (if test k a then f a else a))
  update_where-inv test f k t b h = elim (Option-cases (lookup k t)) [
    | inl e ↦ absurd (cc (lookup-update_where test f k t, e, h))
    | inr (a, e) ↦ (a, e, ground (arith, lookup-update_where test f k t))
  ]

  pub update_where-hit :
      (test : String → A → Bool) (f : A → A) (k : String) (t : Table A) {a : A}
      → lookup k t ≡ some a
      → test k a ≡ true
      → lookup k (update_where test f t) ≡ some (f a)
  update_where-hit test f k t e hit = ground (arith, lookup-update_where test f k t)

  pub update_where-miss :
      (test : String → A → Bool) (f : A → A) (k : String) (t : Table A) {a : A}
      → lookup k t ≡ some a
      → test k a ≡ false
      → lookup k (update_where test f t) ≡ some a
  update_where-miss test f k t e miss = ground (arith, lookup-update_where test f k t)
