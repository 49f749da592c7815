-- ===== src/Base/Sql/Rows.antt =====
-- Rows of one table, by the test of a `WHERE` clause.
use hss_science.Base.{
  ℕ, suc, ◌≡◌, refl, Bool, true, false, Option, none, some, List, [], ◌∷◌, All, arith,
  if◌then◌else◌, Bool-cases, inl, inr, ◌↔◌, subst,
}
use mathlib.Core.Option

module _ {ℓ} {A : Type ℓ} where
  -- `SELECT ... WHERE p`, read into one row
  unfoldable pub find : (A → Bool) → List A → Option A
  find p [] = none
  find p (x ∷ xs) = if p x then some x else find p xs

  -- `SELECT ... WHERE p`, all rows
  unfoldable pub select : (A → Bool) → List A → List A
  select p [] = []
  select p (x ∷ xs) = let rest = select p xs in if p x then x ∷ rest else rest

  -- `DELETE ... WHERE p`
  unfoldable pub delete : (A → Bool) → List A → List A
  delete p [] = []
  delete p (x ∷ xs) = let rest = delete p xs in if p x then rest else x ∷ rest

  -- `UPDATE ... SET f WHERE p`
  unfoldable pub update : (A → Bool) → (A → A) → List A → List A
  update p f [] = []
  update p f (x ∷ xs) = (if p x then f x else x) ∷ update p f xs

  -- `SELECT COUNT(*) WHERE p`, and the rows affected by an `UPDATE` or a `DELETE`
  unfoldable pub count : (A → Bool) → List A → ℕ
  count p [] = 0
  count p (x ∷ xs) = let n = count p xs in if p x then suc n else n

  pub find_sound : (p : A → Bool) (xs : List A) {a : A} → find p xs ≡ some a → p a ≡ true
  unfolding find
  find_sound p [] h = ground arith
  find_sound p (x ∷ xs) {a} h = ground (arith, find_sound p xs {a = a})

  pub find-All {κ} :
      (P : A → Type κ) (p : A → Bool) (xs : List A) {a : A} → All P xs → find p xs ≡ some a → P a
  unfolding find
  find-All P p [] all h = absurd (cc)
  find-All P p (x ∷ xs) {a} all h = elim (Bool-cases (p x)) [
    | inl e ↦ let hit : x ≡ a = ground arith in subst P hit all.0
    | inr e ↦ find-All P p xs {a = a} all.1 (rw e at h)
  ]

  -- No row, exactly where every row fails the test.
  pub find-eq-none : (p : A → Bool) (xs : List A) → find p xs ≡ none → All (λ x. p x ≡ false) xs
  unfolding find
  find-eq-none p [] h = tt
  find-eq-none p (x ∷ xs) h = ground (arith, find-eq-none p xs)

  pub find_of_none : (p : A → Bool) (xs : List A) → All (λ x. p x ≡ false) xs → find p xs ≡ none
  unfolding find
  find_of_none p [] h = refl
  find_of_none p (x ∷ xs) h = ground (arith, find_of_none p xs h.1)

  pub find-delete_self : (p : A → Bool) (xs : List A) → find p (delete p xs) ≡ none
  unfolding find delete
  find-delete_self p [] = refl
  find-delete_self p (x ∷ xs) = ground (arith, find-delete_self p xs)

  -- A deletion is not seen by a test that holds of none of the deleted rows.
  pub find-delete_apart :
      (p q : A → Bool) (xs : List A)
      → ((x : A) → q x ≡ true → p x ≡ false)
      → find q (delete p xs) ≡ find q xs
  unfolding find delete
  find-delete_apart p q [] h = refl
  find-delete_apart p q (x ∷ xs) h = ground (arith, h x, find-delete_apart p q xs h)

  -- What a deletion by a weaker test leaves.
  pub find-delete-none :
      (p q : A → Bool) (xs : List A)
      → ((x : A) → q x ≡ true → p x ≡ true)
      → find q (delete p xs) ≡ none
  unfolding find delete
  find-delete-none p q [] h = refl
  find-delete-none p q (x ∷ xs) h = ground (arith, h x, find-delete-none p q xs h)

  pub find-delete_of_none :
      (p q : A → Bool) (xs : List A) → find q xs ≡ none → find q (delete p xs) ≡ none
  unfolding find delete
  find-delete_of_none p q [] h = refl
  find-delete_of_none p q (x ∷ xs) h = ground (arith, find-delete_of_none p q xs)

  -- An update that the test does not see changes the row found, and which one is found not.
  pub find-update :
      (p : A → Bool) (f : A → A) (q : A → Bool) (xs : List A)
      → ((x : A) → q (f x) ≡ q x)
      → find q (update p f xs) ≡ Option.map (λ x. if p x then f x else x) (find q xs)
  unfolding find update
  find-update p f q [] h = refl
  find-update p f q (x ∷ xs) h = ground (arith, h x, find-update p f q xs h)

  pub delete-All {κ} :
      (P : A → Type κ) (p : A → Bool) (xs : List A) → All P xs → All P (delete p xs)
  unfolding delete
  delete-All P p [] h = tt
  delete-All P p (x ∷ xs) h = elim (Bool-cases (p x)) [
    | inl e ↦ rw e (delete-All P p xs h.1)
    | inr e ↦ rw e (h.0, delete-All P p xs h.1)
  ]

  -- Every row that is left passed over fails the test.
  pub delete-All-false : (p : A → Bool) (xs : List A) → All (λ x. p x ≡ false) (delete p xs)
  unfolding delete
  delete-All-false p [] = tt
  delete-All-false p (x ∷ xs) = elim (Bool-cases (p x)) [
    | inl e ↦ rw e (delete-All-false p xs)
    | inr e ↦ rw e (e, delete-All-false p xs)
  ]

  pub update-All {κ} :
      (P : A → Type κ) (p : A → Bool) (f : A → A) (xs : List A)
      → ((x : A) → p x ≡ true → P x → P (f x))
      → All P xs
      → All P (update p f xs)
  unfolding update
  update-All P p f [] g h = tt
  update-All P p f (x ∷ xs) g h = elim (Bool-cases (p x)) [
    | inl e ↦ rw e (g x e h.0, update-All P p f xs g h.1)
    | inr e ↦ rw e (h.0, update-All P p f xs g h.1)
  ]

  -- What an update makes true, of the rows that it changes and of the others.
  pub update-All_cases {κ μ} :
      (P : A → Type κ) (Q : A → Type μ) (p : A → Bool) (f : A → A) (xs : List A)
      → ((x : A) → p x ≡ true → P x → Q (f x))
      → ((x : A) → p x ≡ false → P x → Q x)
      → All P xs
      → All Q (update p f xs)
  unfolding update
  update-All_cases P Q p f [] g k h = tt
  update-All_cases P Q p f (x ∷ xs) g k h = elim (Bool-cases (p x)) [
    | inl e ↦ rw e (g x e h.0, update-All_cases P Q p f xs g k h.1)
    | inr e ↦ rw e (k x e h.0, update-All_cases P Q p f xs g k h.1)
  ]

  -- An update of no row writes nothing, and neither does such a deletion.
  pub update_of_none :
      (p : A → Bool) (f : A → A) (xs : List A) → find p xs ≡ none → update p f xs ≡ xs
  unfolding find update
  update_of_none p f [] h = refl
  update_of_none p f (x ∷ xs) h = ground (arith, update_of_none p f xs)

  pub delete_of_none : (p : A → Bool) (xs : List A) → find p xs ≡ none → delete p xs ≡ xs
  unfolding find delete
  delete_of_none p [] h = refl
  delete_of_none p (x ∷ xs) h = ground (arith, delete_of_none p xs)

  -- The number of rows affected is 0 exactly where no row is found.
  pub count-eq-zero : (p : A → Bool) (xs : List A) → (count p xs ≡ 0) ↔ (find p xs ≡ none)
  unfolding find count
  count-eq-zero p [] = (λ _. refl, λ _. refl)
  count-eq-zero p (x ∷ xs) = elim (Bool-cases (p x)) [
    | inl e ↦ (λ h. absurd (ground arith), λ h. absurd (ground arith))
    | inr e ↦ rw e (count-eq-zero p xs)
  ]

  pub select-All {κ} :
      (P : A → Type κ) (p : A → Bool) (xs : List A) → All P xs → All P (select p xs)
  unfolding select
  select-All P p [] h = tt
  select-All P p (x ∷ xs) h = elim (Bool-cases (p x)) [
    | inl e ↦ rw e (h.0, select-All P p xs h.1)
    | inr e ↦ rw e (select-All P p xs h.1)
  ]

  pub select-All-true : (p : A → Bool) (xs : List A) → All (λ x. p x ≡ true) (select p xs)
  unfolding select
  select-All-true p [] = tt
  select-All-true p (x ∷ xs) = elim (Bool-cases (p x)) [
    | inl e ↦ rw e (e, select-All-true p xs)
    | inr e ↦ rw e (select-All-true p xs)
  ]

  pub select-delete_apart :
      (p q : A → Bool) (xs : List A)
      → ((x : A) → q x ≡ true → p x ≡ false)
      → select q (delete p xs) ≡ select q xs
  unfolding select delete
  select-delete_apart p q [] h = refl
  select-delete_apart p q (x ∷ xs) h = ground (arith, h x, select-delete_apart p q xs h)

  -- A stronger test finds nothing where a weaker one does not.
  pub find-none_of_weaker :
      (p q : A → Bool) (xs : List A)
      → ((x : A) → q x ≡ true → p x ≡ true)
      → find p xs ≡ none
      → find q xs ≡ none
  unfolding find
  find-none_of_weaker p q [] weaker h = refl
  find-none_of_weaker p q (x ∷ xs) weaker h =
      ground (arith, weaker x, find-none_of_weaker p q xs weaker)
