-- ===== src/Identity/Unlink.antt =====
-- What unlinking a provider does to the linked providers, of the caller and of everyone else.
use hss_science.Identity.Providers.{
  linked_to, owned_by, unlink_provider, delete_body, lock_and_count, delete_federated_identity,
  delete_identity, delete_unless_last,
}
use hss_science.Base.{
  List, String, ◌∷◌, ◌≡◌, Bool, ◌≤◌, true, ◌==◌, suc, false, none, arith, Bool-cases, inl, eq_iff,
  inr, [], refl, ◌≢◌, ◌>>=◌, ok, bind-eq-ok, subst, ℕ, ◌∙◌, ap, sym, Result-cases, err,
}
use hss_science.Base.Sql.Rows.{count, delete, find, find-none_of_weaker, delete_of_none}
use hss_science.Identity.Users.{FederatedIdentity, UserDb, UserWorld}
use hss_science.Base.Sql.Keeps.{transaction-eq-ok, statement-eq-ok, transaction-err}
use hss_science.Domerr.{other, Error}
use hss_science.Base.Sql.{statement, next_fault}

-- No two identities have one id.
abbrev pub DistinctIds : List FederatedIdentity → Type 0
DistinctIds [] = Unit {0}
DistinctIds (x ∷ xs) = (find (λ y. y.id == x.id) xs ≡ none) × DistinctIds xs

none_owned :
    (id user : String) (xs : List FederatedIdentity) (x : FederatedIdentity)
    → x.id ≡ id
    → find (λ y. y.id == x.id) xs ≡ none
    → find (owned_by id user) xs ≡ none
none_owned id user xs x e =
    find-none_of_weaker (λ y. y.id == x.id) (owned_by id user) xs
      λ y owned. ground (arith, owned, e)

-- A deletion by the key takes at most one row.
count-delete :
    (id user : String) (q : FederatedIdentity → Bool) (xs : List FederatedIdentity)
    → DistinctIds xs
    → count q xs ≤ suc (count q (delete (owned_by id user) xs))
unfolding count delete
count-delete id user q [] d = omega arith
count-delete id user q (x ∷ xs) d = elim (Bool-cases (owned_by id user x)) [
  | inl e ↦
      let key : x.id ≡ id = ground (arith, e, eq_iff x.id id) in
      let same = delete_of_none (owned_by id user) xs (none_owned id user xs x key d.0) in
      rw (e, same) (ground arith)
  | inr e ↦ rw e (ground (arith, count-delete id user q xs d.1))
]

-- A deletion that its test does not see leaves the count.
count-delete_apart :
    (p q : FederatedIdentity → Bool) (xs : List FederatedIdentity)
    → ((x : FederatedIdentity) → q x ≡ true → p x ≡ false)
    → count q (delete p xs) ≡ count q xs
unfolding count delete
count-delete_apart p q [] h = refl
count-delete_apart p q (x ∷ xs) h = ground (arith, h x, count-delete_apart p q xs h)

module _ (locks : Bool) (user id : String) where
  -- What a body that returns has found and left.
  record Removed (before after : UserDb) : Type 0 where
    several : 2 ≤ count (linked_to user) before.identities
    left : after ≡ record before { identities = delete (owned_by id user) before.identities }

  delete_unless_last-eq-ok :
      (n : ℕ) (w v : UserWorld)
      → delete_unless_last id user n w ≡ (ok tt, v)
      → (2 ≤ n)
        × (v.tables
            ≡ record w.tables { identities = delete (owned_by id user) w.tables.identities })
  unfolding delete_unless_last delete_identity statement ◌>>=◌
  delete_unless_last-eq-ok n w v h = elim (Bool-cases (next_fault w.faults)) [
    | inl fails ↦ absurd (ground (arith, h, fails))
    | inr runs ↦ (ground (arith, h, runs), ground (arith, h, runs))
  ]

  delete_body-Removed :
      (w v : UserWorld) → delete_body locks id user w ≡ (ok tt, v) → Removed w.tables v.tables
  unfolding delete_body lock_and_count
  delete_body-Removed w v h =
      let (n, x, counted, h1) =
        bind-eq-ok (statement other (lock_and_count locks user)) (delete_unless_last id user) w h in
      let ran = statement-eq-ok other (lock_and_count locks user) w x n counted in
      let (several, left) = delete_unless_last-eq-ok n x v h1 in
      let same : x.tables ≡ w.tables = ground (arith, ran) in
      record {
        several = ground (arith, ran, several);
        left =
            left
            ∙ ap {A = UserDb}
                (λ t. record t { identities = delete (owned_by id user) t.identities }) same;
      }

  unlink_provider-Removed :
      (w v : UserWorld) → unlink_provider locks user id w ≡ (ok tt, v) → Removed w.tables v.tables
  unfolding unlink_provider delete_federated_identity
  unlink_provider-Removed w v h =
      let (u, x, same, ran, final) = transaction-eq-ok other (delete_body locks id user) w v tt h in
      subst (λ t. Removed t v.tables) same
        (subst (λ t. Removed u.tables t) final (delete_body-Removed u x ran))

Removed-leaves :
    (locks : Bool) (user id u : String) (t s : UserDb)
    → DistinctIds t.identities
    → Removed locks user id t s
    → count (linked_to u) t.identities ≢ 0
    → count (linked_to u) s.identities ≢ 0
Removed-leaves locks user id u t s distinct gone had =
    let same = ap {A = UserDb} (λ d. count (linked_to u) d.identities) gone.left in
    elim (Bool-cases (u == user)) [
      | inl e ↦
          let mine : u ≡ user = (eq_iff u user).0 e in
          let one = count-delete id user (linked_to u) t.identities distinct in
          let several : 2 ≤ count (linked_to u) t.identities =
            subst (λ k. 2 ≤ count (linked_to k) t.identities) (sym mine) gone.several in
          λ z. omega (arith, same, one, several, z)
      | inr e ↦
          let kept =
            count-delete_apart (owned_by id user) (linked_to u) t.identities
              (λ x linked. ground (arith, linked, e, eq_iff x.user_id u, eq_iff x.user_id user)) in
          λ z. had (sym kept ∙ sym same ∙ z)
    ]

unlink_failed :
    (locks : Bool) (user id : String) (w : UserWorld) (x : Error)
    → (unlink_provider locks user id w).0 ≡ err x
    → (unlink_provider locks user id w).1.tables ≡ w.tables
unfolding unlink_provider delete_federated_identity
unlink_failed locks user id w x e = transaction-err other (delete_body locks id user) w e

-- Nobody is locked out: whoever has a linked provider, the caller or not, still has one after any
-- attempt to unlink one, whether it returns or fails.
pub unlink_provider_leaves_login :
    (locks : Bool) (user id u : String) (w : UserWorld)
    → DistinctIds w.tables.identities
    → count (linked_to u) w.tables.identities ≢ 0
    → count (linked_to u) (unlink_provider locks user id w).1.tables.identities ≢ 0
unlink_provider_leaves_login locks user id u w distinct had =
    elim (Result-cases (unlink_provider locks user id w).0) [
      | inl (t, e) ↦
          let all : unlink_provider locks user id w ≡ (ok tt, (unlink_provider locks user id w).1) =
            ground (arith, e) in
          Removed-leaves locks user id u w.tables (unlink_provider locks user id w).1.tables
            distinct
            (unlink_provider-Removed locks user id w (unlink_provider locks user id w).1 all) had
      | inr (x, e) ↦
          subst (λ t. count (linked_to u) t.identities ≢ 0)
            (sym (unlink_failed locks user id w x e)) had
    ]
