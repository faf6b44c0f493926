-- ===== src/Tests/Sessions.antt =====
-- A provider with a counter in place of a random generator, and a login with it.
use docker_backup.Base.{
  ℕ, ◌+◌, true, some, [], ◌∷◌, ◌≡◌, ◌↔◌, refl, Text, codes, ◌==◌, to_lower, errorf, Result, ok, err,
}
use docker_backup.Base.Map.{Map}
use docker_backup.Dashboard.Oidc.{
  Casing, OidcConfig, OidcAuth, Endpoint, new_oidc_auth, auth_with, is_user_allowed,
}
use docker_backup.Dashboard.Oidc.Allowed.{Permitted, is_user_allowed_lem}
use docker_backup.Dashboard.Oidc.Handlers.{Session, Provider, handle_login, handle_callback}

-- ASCII letters without regard to case.
abbrev ascii : Casing
ascii = record { to_lower = to_lower; equal_fold = λ s t. to_lower s == to_lower t }

-- The world is the number of texts generated. The only code that is exchanged is "code".
abbrev counting : Provider ℕ
counting = record {
  casing = ascii;
  rand_read = λ n w. (ok (w ∷ []), w + 1);
  encode_base64 = λ bytes. bytes;
  auth_code_url = λ config state nonce. codes "https://provider/";
  exchange = λ config code w. (ok (record { access_token = []; id_token = some code }), w);
  verify = λ raw w. ok raw;
  claims = λ payload. ok (record { nonce = 8 ∷ []; email = codes "Eve@Example.com" });
  github_emails = λ token w. err (errorf "offline" []);
  decode_emails = λ body. ok [];
  save = λ session w. (ok tt, w);
}

abbrev example_config : OidcConfig
example_config = record {
  provider = codes "oidc";
  issuer_url = codes "https://provider";
  client_id = codes "backup";
  client_secret = codes "secret";
  redirect_url = codes "https://backup.example.com/auth/callback";
  scopes = [];
  allowed_users = codes "Root@Other.org" ∷ [];
  allowed_domains = codes "EXAMPLE.com" ∷ [];
}

abbrev discover : Text → Result Text
discover issuer = ok (codes "https://provider/authorize")

abbrev auth : OidcAuth
auth =
    auth_with ascii example_config (some (codes "https://provider"))
      (Endpoint.discovered (codes "https://provider/authorize"))
      (codes "openid" ∷ codes "email" ∷ codes "profile" ∷ [])

configured : new_oidc_auth ascii discover example_config ≡ ok auth
unfolding new_oidc_auth ◌==◌ codes
configured = refl

is_user_allowed_lem_example :
    (is_user_allowed ascii auth (codes "eve@example.COM") ≡ true)
    ↔ Permitted ascii example_config (codes "eve@example.COM")
is_user_allowed_lem_example =
    is_user_allowed_lem ascii discover example_config auth (codes "eve@example.COM") configured

-- The state is 7 and the nonce is 8.
abbrev started : Session
started = (handle_login auth counting [] 7).1

abbrev query : Map Text
query = (codes "state", 7 ∷ []) ∷ (codes "code", codes "code") ∷ []

abbrev ended : Session
ended = (handle_callback auth counting started query 9).1
