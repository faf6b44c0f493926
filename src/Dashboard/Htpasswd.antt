-- ===== src/Dashboard/Htpasswd.antt =====
-- internal/dashboard/auth/htpasswd.go and middleware.go: users with password hashes, and Basic
-- authentication; and cmd/docker-backup/htpasswd.go, the command that makes such hashes.
pub mod Users
pub mod Printed
use docker_backup.Base.{
  ℕ, ◌+◌, Bool, true, false, not, ◌&&◌, ◌||◌, Option, none, some, List, [], ◌∷◌, ◌++◌, Text, ◌==◌,
  String, codes, ltb, nat_eq, if◌then◌else◌, has_prefix, after_prefix, has_suffix, cut, split,
  contains, trim_space, colon, newline, Error, errorf, Result, ok, err, wrap, ◌>>=◌,
}
use docker_backup.Base.Map.{Map, get, put}

-- The cryptography that is called: bcrypt's comparison and hashing, SHA-1, and the decoding of
-- base64.
pub record Crypto : Type 0 where
  pub compare_bcrypt : Text → Text → Bool
  pub generate_bcrypt : Text → ℕ → Result Text
  pub sha1 : Text → Text
  pub decode_base64 : Text → Option Text

-- The file system: whether a path exists, and a file's lines as the scanner gives them, with the
-- error on which it stops.
pub record Files : Type 0 where
  pub exists : Text → Bool
  pub open_file : Text → Result (List Text × Option Error)

-- HtpasswdAuth: the password hash of each user.
abbrev pub HtpasswdAuth : Type 0
HtpasswdAuth = Map Text

unfoldable pub parse_line : Text → HtpasswdAuth → Result HtpasswdAuth
parse_line line users = elim (cut colon line) [
  | none ↦ err (errorf "invalid htpasswd format: expected user:hash" [])
  | some (name, rest) ↦
      let username = trim_space name in
      let hash = trim_space rest in
      if (username == []) || (hash == [])
      then err (errorf "invalid htpasswd format: empty username or hash" [])
      else ok (put username hash users)
]

-- A line that is empty or a comment.
abbrev pub skipped : Text → Bool
skipped line = (line == []) || has_prefix line (codes "#")

unfoldable pub parse_lines : List Text → HtpasswdAuth → Result HtpasswdAuth
unfolding parse_line
parse_lines [] users = ok users
parse_lines (l ∷ lines) users =
    let line = trim_space l in
    elim (skipped line) [
      | true ↦ parse_lines lines users
      | false ↦ do more ← parse_line line users; parse_lines lines more
    ]

unfoldable pub parse_credentials : Text → HtpasswdAuth → Result HtpasswdAuth
unfolding parse_lines
parse_credentials input users = parse_lines (split newline input) users

-- The loop of loadFromFile, with the number of lines read. A number among an error's arguments is
-- a text of this one number.
unfoldable pub scan_lines : List Text → ℕ → HtpasswdAuth → Result HtpasswdAuth
unfolding parse_line
scan_lines [] number users = ok users
scan_lines (l ∷ lines) number users =
    let line = trim_space l in
    elim (skipped line) [
      | true ↦ scan_lines lines (number + 1) users
      | false ↦ do
        more ← wrap "line %d: %w" (((number + 1) ∷ []) ∷ []) (parse_line line users)
        scan_lines lines (number + 1) more
    ]

abbrev scan_ends : Option Error → HtpasswdAuth → Result HtpasswdAuth
scan_ends none users = ok users
scan_ends (some e) users = wrap "failed to read htpasswd file: %w" [] (err e)

unfoldable pub load_from_file : Files → Text → HtpasswdAuth → Result HtpasswdAuth
unfolding scan_lines
load_from_file files path users = do
  (lines, end) ← wrap "failed to open htpasswd file: %w" [] (files.open_file path)
  more ← scan_lines lines 0 users
  scan_ends end more

unfoldable pub new_htpasswd_auth : Files → Text → Result HtpasswdAuth
unfolding load_from_file parse_credentials
new_htpasswd_auth files input = elim (files.exists input) [
  | true ↦ load_from_file files input []
  | false ↦ do
    users ← parse_credentials input []
    elim users [
      | [] ↦ err (errorf "no valid credentials found" [])
      | user ∷ more ↦ ok (user ∷ more)
    ]
]

module _ (crypto : Crypto) where
  unfoldable pub check_sha1 : Text → Text → Bool
  check_sha1 password encoded = elim (crypto.decode_base64 encoded) [
    | none ↦ false
    | some decoded ↦ decoded == crypto.sha1 password
  ]

  unfoldable pub check_password : Text → Text → Bool
  unfolding check_sha1
  check_password password hash =
      if has_prefix hash (codes "$2y$")
        || (has_prefix hash (codes "$2a$") || has_prefix hash (codes "$2b$"))
      then crypto.compare_bcrypt hash password
      else (if has_prefix hash (codes "{SHA}")
          then check_sha1 password (after_prefix hash (codes "{SHA}"))
          else (if has_prefix hash (codes "$apr1$") then false else password == hash))

  unfoldable pub authenticate : HtpasswdAuth → Text → Text → Bool
  unfolding check_password
  authenticate users username password = elim (get username users) [
    | none ↦ false
    | some hash ↦ check_password password hash
  ]

  -- BasicAuthMiddleware: the user for whom the request goes on, or none if the request is answered
  -- with 401.
  unfoldable pub basic_auth_middleware : HtpasswdAuth → Option (Text × Text) → Option Text
  unfolding authenticate
  basic_auth_middleware users credentials = elim credentials [
    | none ↦ none
    | some (username, password) ↦
        if authenticate users username password then some username else none
  ]

  -- runHtpasswd: what is printed for a user, or an error. `read` is the answer of readPassword, and
  -- the costs that bcrypt takes are 4 to 31.
  unfoldable pub run_htpasswd : Text → ℕ → Result Text → Result Text
  run_htpasswd username cost read =
      if contains colon username
      then err (errorf "username cannot contain ':'" [])
      else (if ltb cost 4 || ltb 31 cost
          then err (errorf "cost must be between %d and %d" ((4 ∷ []) ∷ (31 ∷ []) ∷ []))
          else (do
            password ← read
            hash ← wrap "failed to generate hash: %w" [] (crypto.generate_bcrypt password cost)
            ok (username ++ colon ∷ hash ++ newline ∷ [])))

-- readPassword, on a terminal with the two answers of the prompts, and otherwise with what is read up
-- to the first newline.
unfoldable pub read_terminal : Result Text → Result Text → Result Text
read_terminal first second = do
  password ← wrap "failed to read password: %w" [] first
  confirm ← wrap "failed to read password confirmation: %w" [] second
  if password == confirm then ok password else err (errorf "passwords do not match" [])

unfoldable pub without_newline : Text → Text
without_newline [] = []
without_newline (c ∷ []) = if nat_eq c newline then [] else c ∷ []
without_newline (c ∷ d ∷ s) = c ∷ without_newline (d ∷ s)

unfoldable pub read_input : Result Text → Result Text
unfolding without_newline
read_input line = do
  l ← wrap "failed to read password from stdin: %w" [] line
  ok (without_newline l)
