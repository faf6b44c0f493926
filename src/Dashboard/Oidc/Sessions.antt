-- ===== src/Dashboard/Oidc/Sessions.antt =====
-- internal/dashboard/auth/oidc_handlers.go: what a session can hold after any sequence of visits.
use docker_backup.Base.{true, some, List, [], ◌∷◌, ◌++◌, ◌≡◌, Text, ok}
use docker_backup.Base.Map.{Map, get}
use docker_backup.Dashboard.Oidc.{OidcAuth, is_user_allowed}
use docker_backup.Dashboard.Oidc.Handlers.{
  Session, email_key, state_key, Token, Provider, Step, query_of, generate_state, handle_login,
  email_of, handle_callback, handle_logout,
}

module _ {W : Type 0} (a : OidcAuth) (p : Provider W) where
  -- One visit of the browser, or a change of the world by others.
  pub data Visit : Type 0 where
    login : Visit
    callback : Map Text → Visit
    logout : Visit
    others : W → Visit

  abbrev pub after_visit : Visit → Session → W → Session × W
  after_visit login s w = ((handle_login a p s w).1, (handle_login a p s w).2)
  after_visit (callback query) s w =
      ((handle_callback a p s query w).1, (handle_callback a p s query w).2)
  after_visit logout s w = ((handle_logout a p s w).1, (handle_logout a p s w).2)
  after_visit (others v) s w = (s, v)

  -- The visits since the session was empty, the latest first, and the session and the world after
  -- them.
  pub data Visits (start : W) : List Visit → Session → W → Type 0 where
    no_visits : Visits start [] [] start
    visit :
        {vs : List Visit} {s : Session} {w : W} (x : Visit)
        → Visits start vs s w
        → Visits start (x ∷ vs) (after_visit x s w).0 (after_visit x s w).1

  module _ (start : W) where
    -- A state that one of the visits, a login, has generated.
    pub record IsIssued (vs : List Visit) (state : Text) : Type 0 where
      pub later : List Visit
      pub first : List Visit
      pub split : vs ≡ later ++ (Visit.login ∷ first)
      pub session : Session
      pub before : W
      pub after : W
      pub reached : Visits start first session before
      pub generated : generate_state a p before ≡ (ok state, after)

    -- An address with which one of the visits, a callback, has logged in: its session held the
    -- state of an earlier login, its query returned this state, the provider gave the address for
    -- its code, and the rule allows the address.
    pub record IsGranted (vs : List Visit) (email : Text) : Type 0 where
      pub later : List Visit
      pub query : Map Text
      pub first : List Visit
      pub split : vs ≡ later ++ (Visit.callback query ∷ first)
      pub session : Session
      pub before : W
      pub after : W
      pub reached : Visits start first session before
      pub state : Text
      pub held : get state_key session ≡ some state
      pub issued : IsIssued first state
      pub returned : query_of "state" query ≡ state
      pub token : Token
      pub exchanged : p.exchange a.oauth2_config (query_of "code" query) before ≡ (ok token, after)
      pub given : email_of a p session token after ≡ Step.go email
      pub allowed : is_user_allowed p.casing a email ≡ true

    abbrev IsSafe : List Visit → Session → Type 0
    IsSafe vs s =
        ((state : Text) → get state_key s ≡ some state → IsIssued vs state)
        × ((email : Text) → get email_key s ≡ some email → IsGranted vs email)
