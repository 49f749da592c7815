-- ===== src/Oidc/Reuse.antt =====
-- The device session that a login is given (FindOrCreate of
-- internal/oidc/postgres/device_session_repo.go).
use mathlib.Core.Option
use text.Mathlib.TextPositions.{eq_refl}
use hss_science.Base.{
  ◌∙◌, [], refl, ◌≡◌, false, String, List, ◌>>=◌, none, ◌≢◌, ℕ, ok, ◌∷◌, some, arith, sym, ◌∙◌, ap,
  eq_iff, subst, ◌==◌, Option, if◌then◌else◌, Bool-cases, inl, inr, bind-eq-ok,
}
use hss_science.Base.Sql.Rows.{find, update, find-update, find_sound}
use hss_science.Oidc.DeviceRepo.{
  create, reuse, unusable, reuse_or_create, find_or_create, refreshed,
}
use hss_science.Oidc.Domain.{DeviceSession}
use hss_science.Oidc.Tables.{insert_session, OidcWorld, session_id, Db}
use hss_science.Base.Sql.{statement, mint}
use hss_science.Base.Sql.Keeps.{query-eq-ok}

create_stores :
    (id user agent ip name : String) (w v : OidcWorld) (s : DeviceSession)
    → create id user agent ip name w ≡ (ok s, v)
    → (s.id ≡ id)
      × (s.user_id ≡ user)
      × (s.revoked_at ≡ none)
      × (v.tables ≡ record (w.tables) { device_sessions = s ∷ w.tables.device_sessions })
unfolding create insert_session statement ◌>>=◌
create_stores id user agent ip name w v s h =
    (ground (arith, h), ground (arith, h), ground (arith, h), ground (arith, h))

-- What a caller may rely on of the session that it gets.
pub record Given (user : String) (s : DeviceSession) (w v : OidcWorld) : Type 0 where
  pub own : s.user_id ≡ user
  pub active : s.revoked_at ≡ none
  pub stored : find (session_id s.id) v.tables.device_sessions ≡ some s
  pub others :
      (other_id : String)
      → other_id ≢ s.id
      → find (session_id other_id) v.tables.device_sessions
        ≡ find (session_id other_id) w.tables.device_sessions
  pub tokens : v.tables.refresh_tokens ≡ w.tables.refresh_tokens
  pub requests : v.tables.auth_requests ≡ w.tables.auth_requests

Given-of_tables :
    (user : String) (s : DeviceSession) (w w' v : OidcWorld)
    → w.tables ≡ w'.tables
    → Given user s w v
    → Given user s w' v
Given-of_tables user s w w' v e g = record {
  own = g.own;
  active = g.active;
  stored = g.stored;
  others = λ j ne. g.others j ne ∙ ap (λ (d : Db). find (session_id j) d.device_sessions) e;
  tokens = g.tokens ∙ ap (λ (d : Db). d.refresh_tokens) e;
  requests = g.requests ∙ ap (λ (d : Db). d.auth_requests) e;
}

find-cons_ne :
    (other_id : String) (s : DeviceSession) (rows : List DeviceSession)
    → other_id ≢ s.id
    → find (session_id other_id) (s ∷ rows) ≡ find (session_id other_id) rows
unfolding find
find-cons_ne other_id s rows ne = ground (arith, ne, eq_iff s.id other_id)

create-Given :
    (id user agent ip name : String) (w v : OidcWorld) (s : DeviceSession)
    → create id user agent ip name w ≡ (ok s, v)
    → Given user s w v
create-Given id user agent ip name w v s h =
    let (_, own, active, final) = create_stores id user agent ip name w v s h in
    record {
      own = own;
      active = active;
      stored = ap (λ (d : Db). find (session_id s.id) d.device_sessions) final ∙ first s w;
      others = λ j ne.
          ap (λ (d : Db). find (session_id j) d.device_sessions) final
          ∙ find-cons_ne j s w.tables.device_sessions ne;
      tokens = ap (λ (d : Db). d.refresh_tokens) final;
      requests = ap (λ (d : Db). d.auth_requests) final;
    }
  where
    first :
        (s : DeviceSession) (w : OidcWorld)
        → find (session_id s.id) (s ∷ w.tables.device_sessions) ≡ some s
    first s w = unfold find in rw (eq_refl s.id) refl

reuse-eq-ok :
    (agent ip : String) (t s : DeviceSession) (w v : OidcWorld)
    → reuse agent ip t w ≡ (ok s, v)
    → (s ≡ refreshed agent ip w.clock t)
      × (v.tables ≡ record (w.tables) {
        device_sessions =
            update (session_id t.id) (refreshed agent ip w.clock) w.tables.device_sessions;
      })
unfolding reuse statement ◌>>=◌
reuse-eq-ok agent ip t s w v h = (ground (arith, h), ground (arith, h))

-- An update of the session `t` is not seen at another id.
find-update_ne :
    (f : DeviceSession → DeviceSession) (j : String) (t : String) (rows : List DeviceSession)
    → ((x : DeviceSession) → (f x).id ≡ x.id)
    → j ≢ t
    → find (session_id j) (update (session_id t) f rows) ≡ find (session_id j) rows
unfolding find update
find-update_ne f j t [] keeps ne = refl
find-update_ne f j t (x ∷ rows) keeps ne = ground (
  arith,
  keeps x,
  ne,
  eq_iff x.id j,
  eq_iff x.id t,
  eq_iff (f x).id j,
  find-update_ne f j t rows keeps ne,
)

find-update_self :
    (f : DeviceSession → DeviceSession) (t : DeviceSession) (rows : List DeviceSession)
    → ((x : DeviceSession) → (f x).id ≡ x.id)
    → find (session_id t.id) rows ≡ some t
    → find (session_id t.id) (update (session_id t.id) f rows) ≡ some (f t)
find-update_self f t rows keeps e =
    find-update (session_id t.id) f (session_id t.id) rows (λ x. ap (λ k. k == t.id) (keeps x))
    ∙ ap (Option.map (λ x. if session_id t.id x then f x else x)) e
    ∙ rw (eq_refl t.id) refl

reuse-Given :
    (id user agent ip : String) (t s : DeviceSession) (w v : OidcWorld)
    → find (session_id id) w.tables.device_sessions ≡ some t
    → unusable user t ≡ false
    → reuse agent ip t w ≡ (ok s, v)
    → Given user s w v
reuse-Given id user agent ip t s w v found usable h =
    let (same, final) = reuse-eq-ok agent ip t s w v h in
    let key : t.id ≡ id =
      (eq_iff t.id id).0 (find_sound (session_id id) w.tables.device_sessions found) in
    let f = refreshed agent ip w.clock in
    let rows = w.tables.device_sessions in
    let at_own = subst (λ k. find (session_id k) rows ≡ some t) (sym key) found in
    record {
      own = ground (arith, usable, same, eq_iff t.user_id user);
      active = ground (arith, usable, same);
      stored =
          ap (λ (d : Db). find (session_id s.id) d.device_sessions) final
          ∙ subst
              (λ (q : DeviceSession).
                find (session_id q.id) (update (session_id t.id) f rows) ≡ some q)
              (sym same) (find-update_self f t rows (λ x. refl) at_own);
      others = λ j ne.
          ap (λ (d : Db). find (session_id j) d.device_sessions) final
          ∙ find-update_ne f j t.id rows (λ x. refl)
              (λ e. ne (e ∙ sym (ap (λ (q : DeviceSession). q.id) same)));
      tokens = ap (λ (d : Db). d.refresh_tokens) final;
      requests = ap (λ (d : Db). d.auth_requests) final;
    }

module _ (make_ulid : ℕ → String) where
  reuse_or_create-Given :
      (o : Option DeviceSession) (id user agent ip name : String) (w v : OidcWorld)
      (s : DeviceSession)
      → find (session_id id) w.tables.device_sessions ≡ o
      → reuse_or_create make_ulid o id user agent ip name w ≡ (ok s, v)
      → Given user s w v
  unfolding reuse_or_create mint ◌>>=◌
  reuse_or_create-Given none id user agent ip name w v s e h =
      create-Given id user agent ip name w v s h
  reuse_or_create-Given (some t) id user agent ip name w v s e h =
      elim (Bool-cases (unusable user t)) [
        | inl bad ↦
            Given-of_tables user s _ w v refl
              (create-Given _ user agent ip name _ v s (rw bad at h))
        | inr good ↦ reuse-Given id user agent ip t s w v e good (rw good at h)
      ]

  -- Whatever id the browser sends, the session that a login returns is the caller's own, is not
  -- revoked, and is the one stored under its id. Every session under another id, of this user or of
  -- another, is as before, and so are the refresh tokens and the auth requests.
  pub find_or_create-Given :
      (id user agent ip name : String) (w v : OidcWorld) (s : DeviceSession)
      → find_or_create make_ulid id user agent ip name w ≡ (ok s, v)
      → Given user s w v
  unfolding find_or_create
  find_or_create-Given id user agent ip name w v s h =
      let (o, u, looked, h1) = bind-eq-ok _ _ w h in
      let (read, kept) = query-eq-ok _ _ w u o looked in
      Given-of_tables user s u w v kept (
        reuse_or_create-Given o id user agent ip name u v s
          (ap (λ (d : Db). find (session_id id) d.device_sessions) kept ∙ sym read) h1)

  -- An id that no session has is the id of the session that is created.
  pub find_or_create-fresh :
      (id user agent ip name : String) (w v : OidcWorld) (s : DeviceSession)
      → find (session_id id) w.tables.device_sessions ≡ none
      → find_or_create make_ulid id user agent ip name w ≡ (ok s, v)
      → s.id ≡ id
  unfolding find_or_create reuse_or_create
  find_or_create-fresh id user agent ip name w v s fresh h =
      let (o, u, looked, h1) = bind-eq-ok _ _ w h in
      let (read, kept) = query-eq-ok _ _ w u o looked in
      let none_found : o ≡ none = read ∙ fresh in
      (create_stores id user agent ip name u v s (
        subst (λ q. reuse_or_create make_ulid q id user agent ip name u ≡ (ok s, v)) none_found
          h1)).0
