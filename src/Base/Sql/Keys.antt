-- ===== src/Base/Sql/Keys.antt =====
-- A column of a table that no two rows share, and a column that refers to one.
use hss_science.Base.{
  ◌≡◌, refl, Bool, Option, none, some, List, [], ◌∷◌, arith, String, ◌==◌, if◌then◌else◌,
  Bool-cases, inl, inr, ◌&&◌, ap, ◌∙◌, sym, subst,
}
use hss_science.Base.Sql.Rows.{find, delete, update, find-delete_of_none, find-update}

module _ {ℓ} {A : Type ℓ} (key : A → String) where
  -- The test of `WHERE key = k`.
  abbrev pub keyed : String → A → Bool
  keyed k row = key row == k

  -- No two rows have one key.
  abbrev pub Distinct : List A → Type ℓ
  Distinct [] = Unit
  Distinct (row ∷ rows) = (find (keyed (key row)) rows ≡ none) × Distinct rows

  pub delete-Distinct : (p : A → Bool) (rows : List A) → Distinct rows → Distinct (delete p rows)
  unfolding delete
  delete-Distinct p [] h = tt
  delete-Distinct p (row ∷ rows) h = elim (Bool-cases (p row)) [
    | inl e ↦ rw e (delete-Distinct p rows h.1)
    | inr e ↦ rw e (find-delete_of_none p (keyed (key row)) rows h.0, delete-Distinct p rows h.1)
  ]

  keyed-update :
      (p : A → Bool) (f : A → A) (k : String) (rows : List A)
      → ((row : A) → key (f row) ≡ key row)
      → find (keyed k) rows ≡ none
      → find (keyed k) (update p f rows) ≡ none
  unfolding find update
  keyed-update p f k [] same h = refl
  keyed-update p f k (row ∷ rows) same h = ground (arith, h, same row, keyed-update p f k rows same)

  pub update-Distinct :
      (p : A → Bool) (f : A → A) (rows : List A)
      → ((row : A) → key (f row) ≡ key row)
      → Distinct rows
      → Distinct (update p f rows)
  unfolding update
  update-Distinct p f [] same h = tt
  update-Distinct p f (row ∷ rows) same h = elim (Bool-cases (p row)) [
    | inl e ↦ rw e (
      subst (λ k. find (keyed k) (update p f rows) ≡ none) (sym (same row))
          (keyed-update p f (key row) rows same h.0),
      update-Distinct p f rows same h.1,
    )
    | inr e ↦ rw e (keyed-update p f (key row) rows same h.0, update-Distinct p f rows same h.1)
  ]

  -- A reference that is NULL or the key of a row.
  abbrev pub Resolves : List A → Option String → Type ℓ
  Resolves rows none = Unit
  Resolves rows (some k) = (row : A) × (find (keyed k) rows ≡ some row)

  pub update-Resolves :
      (p : A → Bool) (f : A → A) (rows : List A)
      → ((row : A) → key (f row) ≡ key row)
      → (o : Option String) → Resolves rows o
      → Resolves (update p f rows) o
  update-Resolves p f rows same none h = tt
  update-Resolves p f rows same (some k) (row, h) = (
    (if p row then f row else row),
    find-update p f (keyed k) rows (λ x. ap (λ s. s == k) (same x)) ∙ rw h refl,
  )

  -- A reference to a row that stays.
  pub delete-Resolves :
      (p : A → Bool) (rows : List A) (k : String)
      → find (λ row. keyed k row && p row) rows ≡ none
      → Resolves rows (some k)
      → Resolves (delete p rows) (some k)
  unfolding find delete
  delete-Resolves p [] k apart (row, h) = absurd (ground (arith, h))
  delete-Resolves p (x ∷ xs) k apart (row, h) = elim (Bool-cases (keyed k x)) [
    | inl hit ↦ (x, ground (arith, hit, apart))
    | inr miss ↦
        let (y, e) =
          delete-Resolves p xs k (ground (arith, apart, miss)) (row, ground (arith, h, miss)) in
        elim (Bool-cases (p x)) [
          | inl gone ↦ (y, ground (arith, gone, e))
          | inr stays ↦ (y, ground (arith, stays, miss, e))
        ]
  ]

  pub insert-Resolves :
      (x : A) (rows : List A) (o : Option String) → Resolves rows o → Resolves (x ∷ rows) o
  unfolding find
  insert-Resolves x rows none h = tt
  insert-Resolves x rows (some k) (row, h) = elim (Bool-cases (keyed k x)) [
    | inl hit ↦ (x, ground (arith, hit))
    | inr miss ↦ (row, ground (arith, miss, h))
  ]
