-- ===== src/Account/Ending.antt =====
-- What ending one session after the other leaves of the tables (the loop of RevokeAllOtherSessions in
-- internal/grpc/handler.go).
use mathlib.Core.Option
use text.Mathlib.TextPositions.{eq_refl}
use hss_science.Base.{
  All-map, All, List, Option, none, some, ◌≢◌, sym, subst, false, true, not, ◌⊎◌, inl, inr, [],
  ◌==◌, ◌&&◌, ◌||◌, ◌∷◌, ◌≡◌, arith, refl, String, Bool, Bool-cases, Option-cases, eq_iff,
  if◌then◌else◌, on_row, ℕ, ap, ◌∙◌,
}
use hss_science.Base.Sql.Rows.{
  find, select, update, delete, find-update, select-delete_apart, update_of_none, find_sound,
}
use hss_science.Oidc.Domain.{DeviceSession}
use hss_science.Oidc.Tables.{OidcWorld, session_id, of_session, RefreshRow}
use hss_science.Oidc.DeviceRepo.{active_of, active_for, revoked, revoke_by_id}
use hss_science.Oidc.Revocation.{revoke_by_id_foreign}
use hss_science.Oidc.Liveness.{revoke_by_id_succeeds}

-- Some session of the list has the id.
abbrev pub listed : String → List DeviceSession → Bool
listed id [] = false
listed id (s ∷ ss) = (s.id == id) || listed id ss

-- An active session of the user that is neither the current one nor on the list.
abbrev pub missed : String → String → List DeviceSession → DeviceSession → Bool
missed user current ss s = (active_for user s && not (s.id == current)) && not (listed s.id ss)

update_between :
    (p : DeviceSession → Bool) (f : DeviceSession → DeviceSession) (q r : DeviceSession → Bool)
    (xs : List DeviceSession)
    → ((x : DeviceSession) → p x ≡ true → r (f x) ≡ false)
    → ((x : DeviceSession) → p x ≡ false → q x ≡ false → r x ≡ false)
    → All (λ x. q x ≡ false) xs
    → All (λ x. r x ≡ false) (update p f xs)
unfolding update
update_between p f q r [] changed kept h = tt
update_between p f q r (x ∷ xs) changed kept h = elim (Bool-cases (p x)) [
  | inl e ↦ rw e (changed x e, update_between p f q r xs changed kept h.1)
  | inr e ↦ rw e (kept x e h.0, update_between p f q r xs changed kept h.1)
]

-- What the loop has reached with the sessions `ss` still to come.
pub record SignedOut (user current : String) (w v : OidcWorld) (ss : List DeviceSession)
    : Type 0 where
  pub calm : v.faults ≡ []
  pub rest : All (λ s. missed user current ss s ≡ false) v.tables.device_sessions
  pub kept :
      find (session_id current) v.tables.device_sessions
      ≡ find (session_id current) w.tables.device_sessions
  pub tokens :
      select (of_session current) v.tables.refresh_tokens
      ≡ select (of_session current) w.tables.refresh_tokens

-- What one revocation makes of the tables, whether it finds the session or not.
pub record Revoked (id user : String) (w v : OidcWorld) : Type 0 where
  pub calm : v.faults ≡ []
  pub sessions :
      v.tables.device_sessions
      ≡ update (active_of id user) (revoked w.clock) w.tables.device_sessions
  pub refresh :
      (v.tables.refresh_tokens ≡ w.tables.refresh_tokens)
      ⊎ (v.tables.refresh_tokens ≡ delete (of_session id) w.tables.refresh_tokens)

pub revoke_by_id-Revoked :
    (id user : String) (w : OidcWorld)
    → w.faults ≡ []
    → Revoked id user w (revoke_by_id id user w).1
revoke_by_id-Revoked id user w calm =
    elim (Option-cases (find (active_of id user) w.tables.device_sessions)) [
      | inl e ↦
          let same = revoke_by_id_foreign id user w e calm in
          rw same (record {
            calm = calm;
            sessions =
                sym
                  (update_of_none (active_of id user) (revoked w.clock) w.tables.device_sessions e);
            refresh = inl refl;
          })
      | inr (s, e) ↦
          let there : find (active_of id user) w.tables.device_sessions ≢ none = λ z. cc in
          let done = revoke_by_id_succeeds id user w there calm in
          rw done (record { calm = calm; sessions = refl; refresh = inr refl })
    ]

other_session :
    (id current : String) (d : Option String)
    → on_row d false (λ x. x == current) ≡ true
    → (id == current) ≡ false
    → on_row d false (λ x. x == id) ≡ false
other_session id current none mine apart = refl
other_session id current (some x) mine apart =
    ground (arith, mine, apart, eq_iff x current, eq_iff x id, eq_refl current)

tokens_apart :
    (id current : String) (rows : List RefreshRow)
    → (id == current) ≡ false
    → select (of_session current) (delete (of_session id) rows) ≡ select (of_session current) rows
tokens_apart id current rows apart =
    select-delete_apart (of_session id) (of_session current) rows
      λ r mine. other_session id current r.device_session_id mine apart

-- The current row passes through an update of another session.
same_row :
    (user current id : String) (now : ℕ) (found : Option DeviceSession)
    → ((s : DeviceSession) → found ≡ some s → (s.id == current) ≡ true)
    → (id == current) ≡ false
    → Option.map (λ s. if active_of id user s then revoked now s else s) found ≡ found
same_row user current id now none own apart = refl
same_row user current id now (some s) own apart =
    ground (arith, own s refl, apart, eq_iff s.id current, eq_iff s.id id, eq_refl current)

pub SignedOut-step :
    (user current : String) (w v x : OidcWorld) (s : DeviceSession) (ss : List DeviceSession)
    → (s.id == current) ≡ false
    → SignedOut user current w v (s ∷ ss)
    → Revoked s.id user v x
    → SignedOut user current w x ss
SignedOut-step user current w v x s ss apart so r = record {
  calm = r.calm;
  rest =
      subst (λ t. All (λ y. missed user current ss y ≡ false) t) (sym r.sessions)
        (update_between (active_of s.id user) (revoked v.clock) (missed user current (s ∷ ss))
          (missed user current ss) v.tables.device_sessions (λ y e. ground arith)
          (λ y e m. ground (arith, e, m, eq_iff y.id s.id, eq_iff s.id y.id)) so.rest);
  kept =
      ap (λ t. find (session_id current) t) r.sessions
      ∙ find-update (active_of s.id user) (revoked v.clock) (session_id current)
          v.tables.device_sessions (λ y. refl)
      ∙ same_row user current s.id v.clock (find (session_id current) v.tables.device_sessions)
          (λ found. find_sound (session_id current) v.tables.device_sessions) apart
      ∙ so.kept;
  tokens = elim r.refresh [
    | inl e ↦ ap (λ t. select (of_session current) t) e ∙ so.tokens
    | inr e ↦
        ap (λ t. select (of_session current) t) e
        ∙ tokens_apart s.id current v.tables.refresh_tokens apart
        ∙ so.tokens
  ];
}

-- A revocation is not asked for the current session, which `revoke_each` passes over.
pub SignedOut-skip :
    (user current : String) (w v : OidcWorld) (s : DeviceSession) (ss : List DeviceSession)
    → (s.id == current) ≡ true
    → SignedOut user current w v (s ∷ ss)
    → SignedOut user current w v ss
SignedOut-skip user current w v s ss own so = record {
  calm = so.calm;
  rest =
      All-map (λ y. missed user current (s ∷ ss) y ≡ false) (λ y. missed user current ss y ≡ false)
        v.tables.device_sessions
        (λ y m. ground (arith, own, m, eq_iff s.id y.id, eq_iff s.id current, eq_refl current))
        so.rest;
  kept = so.kept;
  tokens = so.tokens;
}
