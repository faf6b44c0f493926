-- ===== src/Dashboard/Oidc/Handlers.antt =====
-- internal/dashboard/auth/oidc_handlers.go and oidc_middleware.go: login, callback and logout, as
-- functions from the session that the browser has to the one that it has after the answer. A
-- session that is not saved stays as it was. The cookies' ages and flags are left out.
use docker_backup.Base.{
  ℕ, Bool, true, false, not, ◌&&◌, ◌||◌, Option, none, some, List, [], ◌∷◌, ◌≡◌, ◌⊎◌, inl, inr,
  refl, String, Text, ◌==◌, codes, nat_eq, has_prefix, if◌then◌else◌, errorf, Result, ok, err,
}
use docker_backup.Base.Map.{Map, get, put, remove}
use docker_backup.Dashboard.Oidc.{Casing, OauthConfig, OidcAuth, is_user_allowed}

abbrev pub Session : Type 0
Session = Map Text

abbrev pub email_key : Text
email_key = codes "oidc_email"

abbrev pub state_key : Text
state_key = codes "oidc_state"

abbrev pub nonce_key : Text
nonce_key = codes "oidc_nonce"

pub data Answer : Type 0 where
  message : ℕ → String → List Text → Answer
  redirect : Text → Answer

-- A token of the provider, with the ID token if there is one.
pub record Token : Type 0 where
  pub access_token : Text
  pub id_token : Option Text

pub record Claims : Type 0 where
  pub nonce : Text
  pub email : Text

pub record GithubEmail : Type 0 where
  pub email : Text
  pub primary : Bool
  pub verified : Bool

-- GitHub's answer: its status and its body, if it can be read.
pub record Response : Type 0 where
  pub status : ℕ
  pub body : Result Text

-- What is called outside the program: the random generator, the libraries of OAuth2 and OIDC, GitHub
-- and the session store.
pub record Provider (W : Type 0) : Type 0 where
  pub casing : Casing
  pub rand_read : ℕ → W → Result Text × W
  pub encode_base64 : Text → Text
  pub auth_code_url : OauthConfig → Text → Option Text → Text
  pub exchange : OauthConfig → Text → W → Result Token × W
  pub verify : Text → W → Result Text
  pub claims : Text → Result Claims
  pub github_emails : Text → W → Result Response
  pub decode_emails : Text → Result (List GithubEmail)
  pub save : Session → W → Result (Unit {0}) × W

-- A step of a handler, which ends it with an answer or lets it go on.
pub data Step (A : Type 0) : Type 0 where
  stop : Answer → Step A
  go : A → Step A

infixl 5 ◌>>=◌
abbrev pub ◌>>=◌ : {A B : Type 0} → Step A → (A → Step B) → Step B
stop answer >>= rest = stop answer
go a >>= rest = rest a

pub Step-cases :
    {A : Type 0} (s : Step A) → ((answer : Answer) × (s ≡ stop answer)) ⊎ ((a : A) × (s ≡ go a))
Step-cases (stop answer) = inl (answer, refl)
Step-cases (go a) = inr (a, refl)

abbrev pub refuse_if : Bool → ℕ → String → Step (Unit {0})
refuse_if true status text = stop (message status text [])
refuse_if false status text = go tt

abbrev pub or_stop : {A : Type 0} → ℕ → String → Result A → Step A
or_stop status text (ok a) = go a
or_stop status text (err e) = stop (message status text [])

-- What is read of a body for an error message: a read that fails gives nothing.
abbrev pub body_read : Result Text → Text
body_read (ok body) = body
body_read (err e) = []

-- c.Query(name), which is empty for a parameter that is missing
abbrev pub query_of : String → Map Text → Text
query_of name query = elim (get (codes name) query) [ none ↦ [] | some v ↦ v ]

abbrev pub is_github : OidcAuth → Bool
is_github a = a.provider_type == codes "github"

module _ {W : Type 0} (a : OidcAuth) (p : Provider W) where
  -- GenerateState and GenerateNonce, with the error of the random generator.
  unfoldable pub generate_state : W → Result Text × W
  generate_state w =
      let (r, v) = p.rand_read 32 w in
      elim r [ err e ↦ (err e, v) | ok bytes ↦ (ok (p.encode_base64 bytes), v) ]

  unfoldable pub generate_nonce : W → Result Text × W
  unfolding generate_state
  generate_nonce w = generate_state w

  -- The end of handleLogin: the session is saved, and the browser is sent to the provider.
  unfoldable pub send_to_provider : Session → Session → Text → W → Answer × Session × W
  send_to_provider old new url w =
      let (r, v) = p.save new w in
      elim r [ err e ↦ (message 500 "Internal error" [], old, v) | ok _ ↦ (redirect url, new, v) ]

  unfoldable pub handle_login : Session → W → Answer × Session × W
  unfolding send_to_provider generate_state generate_nonce
  handle_login session w =
      let (r, v) = generate_state w in
      elim r [
        | err e ↦ (message 500 "Internal error" [], session, v)
        | ok state ↦
            let with_state = put state_key state session in
            elim (is_github a) [
              | true ↦
                  send_to_provider session with_state (p.auth_code_url a.oauth2_config state none) v
              | false ↦
                  let (q, u) = generate_nonce v in
                  elim q [
                    | err e ↦ (message 500 "Internal error" [], session, u)
                    | ok nonce ↦
                        send_to_provider session (put nonce_key nonce with_state)
                          (p.auth_code_url a.oauth2_config state (some nonce)) u
                  ]
            ]
      ]

  -- The loops of fetchGitHubEmail over the addresses.
  unfoldable pub first_primary : List GithubEmail → Option Text
  first_primary [] = none
  first_primary (e ∷ es) =
      let rest = first_primary es in if e.primary && e.verified then some e.email else rest

  unfoldable pub first_verified : List GithubEmail → Option Text
  first_verified [] = none
  first_verified (e ∷ es) =
      let rest = first_verified es in if e.verified then some e.email else rest

  unfoldable pub choose_email : List GithubEmail → Result Text
  unfolding first_primary first_verified
  choose_email emails = elim (first_primary emails) [
    | some e ↦ ok e
    | none ↦ elim (first_verified emails) [
      | some e ↦ ok e
      | none ↦ err (errorf "no verified email found" [])
    ]
  ]

  unfoldable pub fetch_github_email : Text → W → Result Text
  unfolding choose_email
  fetch_github_email token w = elim (p.github_emails token w) [
    | err e ↦ err e
    | ok response ↦ elim (nat_eq response.status 200) [
      | false ↦ err (
          errorf "GitHub API returned status %d: %s"
            ((response.status ∷ []) ∷ body_read response.body ∷ []))
      | true ↦ elim response.body [
        | err e ↦ err e
        | ok body ↦ elim (p.decode_emails body) [ err e ↦ err e | ok emails ↦ choose_email emails ]
      ]
    ]
  ]

  abbrev has_id_token : Option Text → Step Text
  has_id_token none = stop (message 500 "Missing ID token" [])
  has_id_token (some raw) = go raw

  -- expectedNonce != nil && claims.Nonce != expectedNonce
  abbrev pub wrong_nonce : Session → Text → Bool
  wrong_nonce session nonce = elim (get nonce_key session) [
    | none ↦ false
    | some expected ↦ not (nonce == expected)
  ]

  -- The address that the provider gives for a token.
  unfoldable pub email_of : Session → Token → W → Step Text
  unfolding fetch_github_email
  email_of session token w = elim (is_github a) [
    | true ↦ or_stop 500 "Failed to get user info" (fetch_github_email token.access_token w)
    | false ↦ do
      raw ← has_id_token token.id_token
      payload ← or_stop 401 "Invalid ID token" (p.verify raw w)
      claims ← or_stop 500 "Failed to parse claims" (p.claims payload)
      _ ← refuse_if (wrong_nonce session claims.nonce) 400 "Invalid nonce"
      go claims.email
  ]

  -- The checks of handleCallback in front of the exchange, with the code.
  unfoldable pub check_callback : Session → Map Text → Step Text
  check_callback session query = elim (get state_key session) [
    | none ↦ stop (message 400 "Invalid state parameter" [])
    | some expected ↦ do
      _ ← refuse_if (not (query_of "state" query == expected)) 400 "Invalid state parameter"
      _ ←
          if query_of "error" query == []
          then go tt
          else stop
              (message 401 "Authentication failed: %s" (query_of "error_description" query ∷ []))
      _ ← refuse_if (query_of "code" query == []) 400 "Missing authorization code"
      go (query_of "code" query)
  ]

  -- The address with which a callback may log in.
  unfoldable pub authorize : Session → Token → W → Step Text
  unfolding email_of
  authorize session token w = do
    email ← email_of session token w
    _ ← refuse_if (email == []) 500 "No email address found"
    _ ←
        refuse_if (not (is_user_allowed p.casing a email)) 403
          "Access denied: your email is not authorized"
    go email

  unfoldable pub logged_in : Session → Text → Session
  logged_in session email = remove nonce_key (remove state_key (put email_key email session))

  unfoldable pub handle_callback : Session → Map Text → W → Answer × Session × W
  unfolding check_callback authorize logged_in
  handle_callback session query w = elim (check_callback session query) [
    | stop answer ↦ (answer, session, w)
    | go code ↦
        let (r, v) = p.exchange a.oauth2_config code w in
        elim r [
          | err e ↦ (message 500 "Failed to exchange token" [], session, v)
          | ok token ↦ elim (authorize session token v) [
            | stop answer ↦ (answer, session, v)
            | go email ↦
                let (q, u) = p.save (logged_in session email) v in
                elim q [
                  | err e ↦ (message 500 "Failed to create session" [], session, u)
                  | ok _ ↦ (redirect (codes "/"), logged_in session email, u)
                ]
          ]
        ]
  ]

  unfoldable pub handle_logout : Session → W → Answer × Session × W
  handle_logout session w =
      let (r, v) = p.save [] w in
      elim r [
        | err e ↦ (redirect (codes "/auth/login"), session, v)
        | ok _ ↦ (redirect (codes "/auth/login"), [], v)
      ]

-- OIDCAuthMiddleware: the request goes on, for a user or for nobody, or is sent to the login.
pub data Decision : Type 0 where
  next : Option Text → Decision
  login : Decision

abbrev pub open_path : Text → Bool
open_path path =
    (path == codes "/auth/login")
    || ((path == codes "/auth/callback")
        || ((path == codes "/auth/logout") || has_prefix path (codes "/static")))

unfoldable pub oidc_auth_middleware : Session → Text → Decision
oidc_auth_middleware session path = elim (get email_key session) [
  | some email ↦ next (some email)
  | none ↦ if open_path path then next none else login
]
