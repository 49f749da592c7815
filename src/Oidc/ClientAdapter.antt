-- ===== src/Oidc/ClientAdapter.antt =====
-- A client as the OpenID library sees it (internal/oidc/adapter/client.go). The methods that hand out
-- a field are the fields of `Client`; lifetimes are in seconds.
use hss_science.Base.{
  String, Bool, true, false, ◌≡◌, refl, ◌==◌, ◌||◌, List, [], ◌∷◌, arith, if◌then◌else◌, eq_iff,
}
use hss_science.Base.Sql.Rows.{select}
use hss_science.Oidc.Domain.{Client}

pub data ApplicationType : Type 0 where
  web user_agent native : ApplicationType

pub data AuthMethod : Type 0 where
  basic post none_method private_key_jwt : AuthMethod

pub data AccessTokenType : Type 0 where
  bearer jwt : AccessTokenType

unfoldable pub application_type : Client → ApplicationType
application_type c =
    if c.application_type == "native"
    then native
    else (if c.application_type == "user_agent" then user_agent else web)

unfoldable pub auth_method : Client → AuthMethod
auth_method c =
    if c.auth_method == "client_secret_post"
    then post
    else (if c.auth_method == "none"
        then none_method
        else (if c.auth_method == "private_key_jwt" then private_key_jwt else basic))

unfoldable pub access_token_type : Client → AccessTokenType
access_token_type c = if c.access_token_type == "jwt" then jwt else bearer

abbrev pub is_empty {ℓ} : {A : Type ℓ} → List A → Bool
is_empty [] = true
is_empty (x ∷ xs) = false

-- The loop of `IsScopeAllowed`
unfoldable pub has_scope : List String → String → Bool
has_scope [] scope = false
has_scope (s ∷ ss) scope = if s == scope then true else has_scope ss scope

unfoldable pub is_scope_allowed : Client → String → Bool
unfolding has_scope
is_scope_allowed c scope =
    if is_empty c.allowed_scopes then false else has_scope c.allowed_scopes scope

-- The loop that fills the map `allowed`, a map being its test for a key.
unfoldable pub fill : List String → (String → Bool) → String → Bool
fill [] allowed = allowed
fill (s ∷ ss) allowed = fill ss (λ key. (key == s) || allowed key)

unfoldable pub filter_scopes : Client → List String → List String
unfolding fill select
filter_scopes c scopes =
    if is_empty c.allowed_scopes
    then scopes
    else select (fill c.allowed_scopes (λ key. false)) scopes

fill-has_scope :
    (ss : List String) (allowed : String → Bool) (key : String)
    → fill ss allowed key ≡ has_scope ss key || allowed key
unfolding fill has_scope
fill-has_scope [] allowed key = refl
fill-has_scope (s ∷ ss) allowed key =
    ground (arith, fill-has_scope ss (λ k. (k == s) || allowed k) key, eq_iff s key, eq_iff key s)

-- What may go into a token is what may be asked for: a client that has allowed scopes keeps, in
-- order, exactly the scopes that `IsScopeAllowed` accepts. A client without any, which may ask for
-- none, keeps them all.
pub filter_scopes_allowed :
    (c : Client) (scopes : List String)
    → (is_empty c.allowed_scopes ≡ false
        → filter_scopes c scopes ≡ select (is_scope_allowed c) scopes)
      × (is_empty c.allowed_scopes ≡ true
          → (filter_scopes c scopes ≡ scopes) × ((s : String) → is_scope_allowed c s ≡ false))
unfolding filter_scopes is_scope_allowed select
filter_scopes_allowed c [] = (
  λ some_scope. ground (arith, some_scope),
  λ no_scope. (ground (arith, no_scope), λ s. ground (arith, no_scope)),
)
filter_scopes_allowed c (x ∷ xs) = (
  λ some_scope. ground (
    arith,
    some_scope,
    fill-has_scope c.allowed_scopes (λ key. false) x,
    (filter_scopes_allowed c xs).0 some_scope,
  ),
  λ no_scope. (ground (arith, no_scope), λ s. ground (arith, no_scope)),
)
