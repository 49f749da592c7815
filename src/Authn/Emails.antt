-- ===== src/Authn/Emails.antt =====
-- Which addresses a login with GitHub counts as verified.
use hss_science.Base.{
  ok, some, String, ◌≢◌, sym, true, inl, inr, [], ◌&&◌, ◌∷◌, ◌≡◌, arith, List, lift, handle,
  Bool-cases, bind-eq-ok, nat_eq, fail-ne-ok, ◌==◌, Result-cases, ◌>>=◌, eq_iff, ℕ, subst,
  Option-cases, Bool, pure, pure-eq-ok, ap, ◌∙◌,
}
use hss_science.Account.Admission.{Any}
use hss_science.Identity.Users.{FederatedClaims}
use hss_science.Authn.Providers.{
  Github, GithubUser, GithubEmail, primary_verified, fetch_primary_email, claimed_email,
  github_fetch_claims, read_emails, claim_user, read_user, github_claims, required, required-eq-ok,
}

abbrev pub IsVouched : String → GithubEmail → Type 0
IsVouched email e = (e.primary ≡ true) × (e.verified ≡ true) × (e.email ≡ email)

primary_verified-Any :
    (es : List GithubEmail) (email : String)
    → email ≢ ""
    → primary_verified es ≡ email
    → Any (IsVouched email) es
unfolding primary_verified
primary_verified-Any [] email given h = absurd (given (sym h))
primary_verified-Any (e ∷ es) email given h = elim (Bool-cases (e.primary && e.verified)) [
  | inl hit ↦ inl (ground (arith, hit), ground (arith, hit), rw hit at h)
  | inr miss ↦ inr (primary_verified-Any es email given (rw miss at h))
]

module _ {O Token Body : Type 0} (github : Github O Token Body) where
  -- GitHub answers in the state `before` with a list of addresses on which this one is primary and
  -- verified.
  pub record Vouches (token : Token) (before : O) (email : String) : Type 0 where
    pub after : O
    pub body : Body
    pub emails : List GithubEmail
    pub answered :
        github.get "https://api.github.com/user/emails" token before ≡ (ok (200, body), after)
    pub decoded : github.decode_emails body ≡ some emails
    pub listed : Any (IsVouched email) emails

  -- GitHub answers in the state `before` with a profile that shows no address, and then vouches for
  -- this one.
  pub record IsPrivate (token : Token) (before : O) (email : String) : Type 0 where
    pub after : O
    pub body : Body
    pub user : GithubUser
    pub answered : github.get "https://api.github.com/user" token before ≡ (ok (200, body), after)
    pub decoded : github.decode_user body ≡ some user
    pub hidden : user.email ≡ ""
    pub given : email ≢ ""
    pub vouches : Vouches token after email

  read_emails-eq-ok :
      (status : ℕ) (body : Body) (y x : O) (email : String)
      → read_emails github (status, body) y ≡ (ok email, x)
      → (status ≡ 200)
        × ((es : List GithubEmail) × (github.decode_emails body ≡ some es)
            × (primary_verified es ≡ email))
  unfolding read_emails lift ◌>>=◌
  read_emails-eq-ok status body y x email h = elim (Bool-cases (nat_eq status 200)) [
    | inr bad ↦ absurd (fail-ne-ok tt y (rw bad at h))
    | inl good ↦ elim (Option-cases (github.decode_emails body)) [
      | inl e ↦ absurd (ground (arith, h, good, e))
      | inr (es, e) ↦ (ground (arith, good), (es, e, ground (arith, h, good, e)))
    ]
  ]

  fetch_primary_email-Vouches :
      (token : Token) (o x : O) (email : String)
      → fetch_primary_email github token o ≡ (ok email, x)
      → email ≢ ""
      → Vouches token o email
  unfolding fetch_primary_email
  fetch_primary_email-Vouches token o x email h given =
      let (answer, y, answered, h1) =
        bind-eq-ok (github.get "https://api.github.com/user/emails" token) (read_emails github) o
          h in
      let (good, (es, decoded, chosen)) = read_emails-eq-ok answer.0 answer.1 y x email h1 in
      record {
        after = y;
        body = answer.1;
        emails = es;
        answered = ground (arith, answered, good);
        decoded = decoded;
        listed = primary_verified-Any es email given chosen;
      }

  claimed_email-Vouches :
      (user : GithubUser) (token : Token) (o x : O) (email : String)
      → claimed_email github user token o ≡ (ok (email, true), x)
      → (user.email ≡ "") × (email ≢ "") × Vouches token o email
  unfolding claimed_email handle
  claimed_email-Vouches user token o x email h = elim (Bool-cases (user.email == "")) [
    | inr public ↦ absurd (ground (arith, rw public at h))
    | inl private ↦ elim (Result-cases (fetch_primary_email github token o).0) [
      | inr (u, e) ↦ absurd (ground (arith, rw private at h, e))
      | inl (fetched, e) ↦
          let all : fetch_primary_email github token o
              ≡ (ok fetched, (fetch_primary_email github token o).1) =
            ground (arith, e) in
          elim (Bool-cases (fetched == "")) [
            | inl empty ↦ absurd (ground (arith, rw private at h, e, empty))
            | inr given ↦
                let same : fetched ≡ email = ground (arith, rw private at h, e, given) in
                let there : email ≢ "" = λ z. ground (arith, given, same, z, eq_iff fetched "") in
                (
                  (eq_iff user.email "").0 private,
                  there,
                  fetch_primary_email-Vouches token o _ email
                      (subst
                        (λ k.
                          fetch_primary_email github token o
                          ≡ (ok k, (fetch_primary_email github token o).1))
                        same all)
                      there,
                )
          ]
    ]
  ]

  claim_user-eq-ok :
      (token : Token) (user : GithubUser) (y x : O) (c : FederatedClaims)
      → claim_user github token user y ≡ (ok c, x)
      → (got : String × Bool) × (z : O) × (claimed_email github user token y ≡ (ok got, z))
        × (github_claims github user got ≡ c)
  unfolding claim_user
  claim_user-eq-ok token user y x c h =
      let (got, z, found, h1) =
        bind-eq-ok (claimed_email github user token)
          (λ email. pure (github_claims github user email)) y h in
      (got, z, found, (pure-eq-ok (github_claims github user got) z h1).0)

  -- An address that a login with GitHub counts as verified is one that GitHub has then listed as
  -- primary and verified, and it is not empty; and the profile shows none, so the public address of
  -- a profile is never counted.
  pub github_email_verified :
      (token : Token) (o x : O) (c : FederatedClaims)
      → github_fetch_claims github token o ≡ (ok c, x)
      → c.email_verified ≡ true
      → IsPrivate token o c.email
  unfolding github_fetch_claims read_user github_claims
  github_email_verified token o x c h verified =
      let (answer, y, answered, h1) =
        bind-eq-ok (github.get "https://api.github.com/user" token) (read_user github token) o h in
      elim (Bool-cases (nat_eq answer.0 200)) [
        | inr bad ↦ absurd (fail-ne-ok tt y (rw bad at h1))
        | inl good ↦
            let (user, y1, decoded, h2) =
              bind-eq-ok (lift (required (github.decode_user answer.1))) (claim_user github token) y
                (rw good at h1) in
            let (there, same) = required-eq-ok (github.decode_user answer.1) user y y1 decoded in
            let (got, z, found, made) = claim_user-eq-ok token user y1 x c h2 in
            let email : got.0 ≡ c.email = ap (λ (q : FederatedClaims). q.email) made in
            let flag : got.1 ≡ true =
              ap (λ (q : FederatedClaims). q.email_verified) made ∙ verified in
            let (hidden, given, vouches) = claimed_email-Vouches user token y1 z c.email (
              subst (λ p. claimed_email github user token y1 ≡ (ok p, z)) (λ i. (email i, flag i))
                found) in
            record {
              after = y1;
              body = answer.1;
              user = user;
              answered = ground (arith, answered, good, same);
              decoded = there;
              hidden = hidden;
              given = given;
              vouches = vouches;
            }
      ]
