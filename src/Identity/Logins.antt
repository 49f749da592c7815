-- ===== src/Identity/Logins.antt =====
-- What a login keeps of a user.
use hss_science.Base.{
  on_row, map, ◌∷◌, Option-cases, inl, inr, sym, subst, if◌then◌else◌, ℕ, String, Bool, ◌≡◌, refl,
  ◌≢◌, ◌∙◌, ap, Option, none, some, List, [], ok, arith, eq_iff, ◌==◌, gets, ◌>>=◌,
}
use text.Mathlib.TextPositions.{eq_refl}
use mathlib.Core.Option
use hss_science.Base.Sql.{query, statement}
use hss_science.Base.Sql.Rows.{find, update, find-update, find_sound}
use hss_science.Identity.Users.{
  UserDb, FederatedIdentity, identity_claims, User, FederatedClaims, UserWorld, has_user_id,
  of_login, joined, user_by_id, find_by_federated_identity, update_user_from_claims,
  update_federated_identity_claims, with_claims, update_local_profile, with_profile,
  nullable_string,
}
use hss_science.Identity.Service.{
  overridden, apply_local_overrides, get_user, claimed, log_in, find_or_create_by_federated_login,
  update_profile,
}

-- The world after a login of the known user `u`.
abbrev pub after_login : String → FederatedClaims → User → UserWorld → UserWorld
after_login provider c u w = record w {
  tables = record {
    users = update (has_user_id u.id) (with_claims c w.clock) w.tables.users;
    identities =
        update (of_login provider c.subject) (identity_claims c w.clock) w.tables.identities;
  };
}

known_logs_in :
    (make_ulid : ℕ → String) (provider : String) (c : FederatedClaims) (w : UserWorld) (u : User)
    → w.faults ≡ []
    → joined provider c.subject w.tables ≡ some u
    → find_or_create_by_federated_login make_ulid provider c w
      ≡ (ok (claimed c w.clock u), after_login provider c u w)
unfolding find_or_create_by_federated_login find_by_federated_identity log_in
    update_user_from_claims update_federated_identity_claims query statement ◌>>=◌
known_logs_in make_ulid provider c w u calm known = ground (arith, calm, known)

find-updated :
    (f : User → User) (u : User) (rows : List User)
    → ((x : User) → (f x).id ≡ x.id)
    → find (has_user_id u.id) rows ≡ some u
    → find (has_user_id u.id) (update (has_user_id u.id) f rows) ≡ some (f u)
find-updated f u rows keeps e =
    find-update (has_user_id u.id) f (has_user_id u.id) rows (λ x. ap (λ k. k == u.id) (keeps x))
    ∙ ap (Option.map (λ x. if has_user_id u.id x then f x else x)) e
    ∙ rw (eq_refl u.id) refl

get_user_shows :
    (u : User) (w : UserWorld)
    → w.faults ≡ []
    → find (has_user_id u.id) w.tables.users ≡ some u
    → (get_user u.id w).0 ≡ ok (apply_local_overrides u)
unfolding get_user user_by_id query statement ◌>>=◌
get_user_shows u w calm there = ground (arith, calm, there)

-- The user that a federated identity refers to is stored under its own id.
joined-find :
    (provider subject : String) (db : UserDb) (u : User)
    → joined provider subject db ≡ some u
    → (fi : FederatedIdentity) × (find (of_login provider subject) db.identities ≡ some fi)
      × (fi.user_id ≡ u.id)
      × (find (has_user_id u.id) db.users ≡ some u)
unfolding joined
joined-find provider subject db u h =
    elim (Option-cases (find (of_login provider subject) db.identities)) [
      | inl e ↦ absurd (ground (arith, h, e))
      | inr (fi, e) ↦
          let there : find (has_user_id fi.user_id) db.users ≡ some u = ground (arith, h, e) in
          let key : u.id ≡ fi.user_id =
            (eq_iff u.id fi.user_id).0 (find_sound (has_user_id fi.user_id) db.users there) in
          (fi, e, sym key, subst (λ k. find (has_user_id k) db.users ≡ some u) (sym key) there)
    ]

-- A name of one's own outlasts a login: a user who is known by a federated identity keeps the local
-- name, whatever the provider claims, and `GetUser` shows it. But the user that the login itself
-- returns has the name that the provider claims.
pub login_keeps_local_name :
    (make_ulid : ℕ → String) (provider : String) (c : FederatedClaims) (w : UserWorld) (u : User)
    (own : String)
    → w.faults ≡ []
    → joined provider c.subject w.tables ≡ some u
    → u.local_name ≡ some own
    → own ≢ ""
    → (find_or_create_by_federated_login make_ulid provider c w
        ≡ (ok (claimed c w.clock u), after_login provider c u w))
      × ((claimed c w.clock u).name ≡ c.name)
      × ((get_user u.id (after_login provider c u w)).0
          ≡ ok (apply_local_overrides (with_claims c w.clock u)))
      × ((apply_local_overrides (with_claims c w.clock u)).name ≡ own)
unfolding apply_local_overrides with_claims claimed
login_keeps_local_name make_ulid provider c w u own calm known named real =
    let (_, _, _, there) = joined-find provider c.subject w.tables u known in
    (
      known_logs_in make_ulid provider c w u calm known,
      refl,
      get_user_shows (with_claims c w.clock u) (after_login provider c u w) calm
          (find-updated (with_claims c w.clock) u w.tables.users (λ x. refl) there),
      ground (arith, named, real, eq_iff own ""),
    )

joined-after_login :
    (provider : String) (c : FederatedClaims) (w : UserWorld) (u : User)
    → joined provider c.subject w.tables ≡ some u
    → joined provider c.subject (after_login provider c u w).tables ≡ some (with_claims c w.clock u)
unfolding joined with_claims
joined-after_login provider c w u known =
    let (fi, linked, key, there) = joined-find provider c.subject w.tables u known in
    let relinked : find (of_login provider c.subject)
          (update (of_login provider c.subject) (identity_claims c w.clock) w.tables.identities)
        ≡ some (identity_claims c w.clock fi) =
      find-update (of_login provider c.subject) (identity_claims c w.clock)
        (of_login provider c.subject) w.tables.identities (λ x. refl)
      ∙ ap
          (Option.map
            (λ x. if of_login provider c.subject x then identity_claims c w.clock x else x))
          linked
      ∙ rw (find_sound (of_login provider c.subject) w.tables.identities linked) refl in
    let still = find-updated (with_claims c w.clock) u w.tables.users (λ x. refl) there in
    ground (arith, relinked, still, key)

map-update :
    (f : User → User) (p : User → Bool) (rows : List User)
    → ((x : User) → (f x).id ≡ x.id)
    → map (λ x. x.id) (update p f rows) ≡ map (λ x. x.id) rows
unfolding update
map-update f p [] keeps = refl
map-update f p (x ∷ xs) keeps = ground (arith, keeps x, map-update f p xs keeps)

-- The world at a later time, after a login.
abbrev pub later_on : ℕ → String → FederatedClaims → User → UserWorld → UserWorld
later_on later provider c u w = record (after_login provider c u w) { clock = later }

-- One federated identity is one account: a user who is known and logs in twice, with whatever claims
-- of the same subject, is given the same account, and no account is made.
pub same_account :
    (make_ulid : ℕ → String) (provider : String) (c d : FederatedClaims) (w : UserWorld) (u : User)
    (later : ℕ)
    → w.faults ≡ []
    → joined provider c.subject w.tables ≡ some u
    → d.subject ≡ c.subject
    → (find_or_create_by_federated_login make_ulid provider d (later_on later provider c u w) ≡ (
      ok (claimed d later (with_claims c w.clock u)),
      after_login provider d (with_claims c w.clock u) (later_on later provider c u w),
    ))
      × ((claimed d later (with_claims c w.clock u)).id ≡ u.id)
      × (map
            (λ x. x.id)
            (after_login provider d
              (with_claims c w.clock u)
              (later_on later provider c u w)).tables.users
          ≡ map (λ x. x.id) w.tables.users)
unfolding claimed with_claims
same_account make_ulid provider c d w u later calm known same = (
  known_logs_in make_ulid provider d (later_on later provider c u w) (with_claims c w.clock u) calm
      (subst
        (λ s.
          joined provider s (after_login provider c u w).tables ≡ some (with_claims c w.clock u))
        (sym same) (joined-after_login provider c w u known)),
  refl,
  map-update (with_claims d later) (has_user_id u.id) _ (λ x. refl)
      ∙ map-update (with_claims c w.clock) (has_user_id u.id) w.tables.users (λ x. refl),
)

profile_read :
    (name picture : Option String) (w : UserWorld) (u : User)
    → w.faults ≡ []
    → find
        (has_user_id u.id)
        (update (has_user_id u.id) (with_profile name picture w.clock) w.tables.users)
      ≡ some (with_profile name picture w.clock u)
    → (update_profile u.id name picture w).0
      ≡ ok (apply_local_overrides (with_profile name picture w.clock u))
unfolding update_profile update_local_profile get_user user_by_id query statement gets ◌>>=◌
profile_read name picture w u calm found = ground (arith, calm, found)

profile_name :
    (name picture : Option String) (now : ℕ) (u : User)
    → (apply_local_overrides (with_profile name picture now u)).name
      ≡ on_row name (overridden u.local_name u.name) (λ s. if s == "" then u.name else s)
unfolding apply_local_overrides with_profile nullable_string
profile_name none picture now u = refl
profile_name (some s) picture now u = ground (arith, eq_iff s "")

-- A profile update of a user who exists returns the user as the update leaves it: a name that is
-- given is the name shown, an empty one brings back the stored name, and where none is given the
-- name shown stays.
profile_shown :
    (name picture : Option String) (w : UserWorld) (u : User)
    → w.faults ≡ []
    → find (has_user_id u.id) w.tables.users ≡ some u
    → ((update_profile u.id name picture w).0
        ≡ ok (apply_local_overrides (with_profile name picture w.clock u)))
      × ((apply_local_overrides (with_profile name picture w.clock u)).name
          ≡ on_row name (overridden u.local_name u.name) (λ s. if s == "" then u.name else s))
unfolding update_profile update_local_profile statement with_profile gets ◌>>=◌
profile_shown name picture w u calm there =
    let found =
      find-updated (with_profile name picture w.clock) u w.tables.users (λ x. refl) there in
    (profile_read name picture w u calm found, profile_name name picture w.clock u)
