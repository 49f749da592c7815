-- ===== src/Oidc/Scopes.antt =====
-- What a client learns of a user, by the scopes of its token.
use hss_science.Base.{
  true, false, Bool-cases, inl, inr, String, ◌≡◌, refl, List, [], ◌∷◌, arith, eq_iff, if◌then◌else◌,
  ◌==◌, ◌∙◌, true, subst, sym,
}
use hss_science.Oidc.Claims.{UserClaims, UserInfo, add_scope, add_scopes}
use hss_science.Oidc.ClientAdapter.{has_scope}

-- The loop over the scopes, in one step: each group of claims is there where its scope is asked for.
abbrev pub disclosed : UserClaims → List String → UserInfo → UserInfo
disclosed user scopes info = record {
  subject = if has_scope scopes "openid" then user.subject else info.subject;
  email = if has_scope scopes "email" then user.email else info.email;
  email_verified = if has_scope scopes "email" then user.email_verified else info.email_verified;
  name = if has_scope scopes "profile" then user.name else info.name;
  given_name = if has_scope scopes "profile" then user.given_name else info.given_name;
  family_name = if has_scope scopes "profile" then user.family_name else info.family_name;
  picture = if has_scope scopes "profile" then user.picture else info.picture;
  updated_at = if has_scope scopes "profile" then user.updated_at else info.updated_at;
}

apart : (s a b : String) → (a == b) ≡ false → (s == a) ≡ true → (s == b) ≡ false
apart s a b differ same = subst (λ t. (t == b) ≡ false) (sym ((eq_iff s a).0 same)) differ

-- One round of the loop, seen from the end.
disclosed-step :
    (user : UserClaims) (s : String) (ss : List String) (info : UserInfo)
    → disclosed user ss (add_scope user s info) ≡ disclosed user (s ∷ ss) info
unfolding add_scope has_scope
disclosed-step user s ss info = elim (Bool-cases (s == "openid")) [
  | inl e ↦ ground (arith, e, apart s "openid" "email" refl e, apart s "openid" "profile" refl e)
  | inr e ↦ elim (Bool-cases (s == "profile")) [
    | inl f ↦ ground (arith, e, f, apart s "profile" "email" refl f)
    | inr f ↦ ground (arith, e, f)
  ]
]

-- Whatever the order and the repetitions of the scopes, the answer has the user's subject for
-- `openid`, the profile for `profile` and the email for `email`, and nothing of the user without.
pub add_scopes_discloses :
    (user : UserClaims) (scopes : List String) (info : UserInfo)
    → add_scopes user scopes info ≡ disclosed user scopes info
unfolding add_scopes has_scope
add_scopes_discloses user [] info = refl
add_scopes_discloses user (s ∷ ss) info =
    add_scopes_discloses user ss (add_scope user s info) ∙ disclosed-step user s ss info
