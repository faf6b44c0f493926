-- ===== src/Dashboard/Oidc.antt =====
-- internal/dashboard/auth: OIDC authentication. Here its configuration and the rule for who may log
-- in (oidc.go), and the middleware (oidc_middleware.go); the handlers are in Oidc/Handlers.
pub mod Handlers
pub mod Allowed
pub mod Sessions
use docker_backup.Base.{
  ℕ, Bool, true, false, not, ◌&&◌, ◌||◌, Option, none, some, List, [], ◌∷◌, Text, ◌==◌, codes,
  split, at_sign, has_prefix, if◌then◌else◌, Error, errorf, Result, ok, err, wrap, ◌>>=◌,
}
use docker_backup.Base.Map.{Map, get, put}

pub record OidcConfig : Type 0 where
  pub provider : Text
  pub issuer_url : Text
  pub client_id : Text
  pub client_secret : Text
  pub redirect_url : Text
  pub scopes : List Text
  pub allowed_users : List Text
  pub allowed_domains : List Text

-- oauth2.Config, in which `github` stands for GitHub's endpoint.
pub data Endpoint : Type 0 where
  github : Endpoint
  discovered : Text → Endpoint

pub record OauthConfig : Type 0 where
  pub client_id : Text
  pub client_secret : Text
  pub redirect_url : Text
  pub endpoint : Endpoint
  pub scopes : List Text

-- The provider with its verifier is what it was discovered from, and none for GitHub.
pub record OidcAuth : Type 0 where
  pub provider : Option Text
  pub oauth2_config : OauthConfig
  pub allowed_users : Map Bool
  pub allowed_domains : List Text
  pub provider_type : Text
  pub secure_cookies : Bool

-- strings.ToLower and strings.EqualFold, which follow the tables of Unicode.
pub record Casing : Type 0 where
  pub to_lower : Text → Text
  pub equal_fold : Text → Text → Bool

unfoldable pub add_allowed : Casing → List Text → Map Bool → Map Bool
add_allowed casing [] allowed = allowed
add_allowed casing (user ∷ users) allowed =
    add_allowed casing users (put (casing.to_lower user) true allowed)

unfoldable pub issuer_of : OidcConfig → Result Text
issuer_of cfg =
    if cfg.provider == codes "google"
    then ok (codes "https://accounts.google.com")
    else (if cfg.provider == codes "oidc"
        then (if cfg.issuer_url == []
            then err (errorf "issuer-url required for generic OIDC provider" [])
            else ok cfg.issuer_url)
        else err (
            errorf "unknown OIDC provider: %s (supported: google, github, oidc)"
              (cfg.provider ∷ [])))

unfoldable pub scopes_of : OidcConfig → List Text
scopes_of cfg = elim cfg.scopes [
  | [] ↦ codes "openid" ∷ codes "email" ∷ codes "profile" ∷ []
  | scope ∷ scopes ↦ scope ∷ scopes
]

abbrev pub auth_with : Casing → OidcConfig → Option Text → Endpoint → List Text → OidcAuth
auth_with casing cfg provider endpoint scopes = record {
  provider = provider;
  oauth2_config = record {
    client_id = cfg.client_id;
    client_secret = cfg.client_secret;
    redirect_url = cfg.redirect_url;
    endpoint = endpoint;
    scopes = scopes;
  };
  allowed_users = add_allowed casing cfg.allowed_users [];
  allowed_domains = cfg.allowed_domains;
  provider_type = cfg.provider;
  secure_cookies = has_prefix cfg.redirect_url (codes "https://");
}

-- `discover` is oidc.NewProvider: the endpoint that an issuer announces.
unfoldable pub new_oidc_auth : Casing → (Text → Result Text) → OidcConfig → Result OidcAuth
unfolding add_allowed issuer_of scopes_of
new_oidc_auth casing discover cfg =
    if cfg.provider == codes "github"
    then ok (auth_with casing cfg none Endpoint.github (codes "user:email" ∷ []))
    else (do
      issuer ← issuer_of cfg
      found ← wrap "failed to create OIDC provider: %w" [] (discover issuer)
      ok (auth_with casing cfg (some issuer) (Endpoint.discovered found) (scopes_of cfg)))

-- The loop over the allowed domains.
unfoldable pub any_domain : Casing → Text → List Text → Bool
any_domain casing domain [] = false
any_domain casing domain (d ∷ ds) = casing.equal_fold domain d || any_domain casing domain ds

unfoldable pub domain_allowed : Casing → Text → List Text → Bool
unfolding any_domain
domain_allowed casing email domains = elim (split at_sign email) [
  | name ∷ domain ∷ [] ↦ any_domain casing domain domains
  | _ ↦ false
]

unfoldable pub is_user_allowed : Casing → OidcAuth → Text → Bool
unfolding domain_allowed
is_user_allowed casing a address =
    let email = casing.to_lower address in
    (elim (get email a.allowed_users) [ none ↦ false | some b ↦ b ])
    || (domain_allowed casing email a.allowed_domains
        || (elim a.allowed_users [ [] ↦ true | _ ↦ false ])
          && (elim a.allowed_domains [ [] ↦ true | _ ↦ false ]))
