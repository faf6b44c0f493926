-- ===== src/Dashboard/Htpasswd/Users.antt =====
-- internal/dashboard/auth/htpasswd.go: whom the users that were read let in.
use docker_backup.Base.{
  ℕ, ◌+◌, true, false, Option, none, some, List, [], ◌∷◌, ◌≡◌, inl, inr, refl, sym, ap, arith, Text,
  ◌==◌, if◌then◌else◌, cut, split, trim_space, colon, newline, ok, err, Result-cases, Option-cases,
  List-cases, Bool-cases, ok_injective,
}
use docker_backup.Base.Map.{get, get-put}
use docker_backup.Dashboard.Htpasswd.{
  Crypto, Files, HtpasswdAuth, skipped, parse_line, parse_lines, parse_credentials, scan_lines,
  load_from_file, new_htpasswd_auth, check_password, authenticate,
}

-- The hash that a line gives a user.
unfoldable pub hash_on : Text → Text → Option Text
hash_on user l =
    let line = trim_space l in
    if skipped line then none else (elim (cut colon line) [
      | none ↦ none
      | some (name, rest) ↦ if trim_space name == user then some (trim_space rest) else none
    ])

-- The last hash that lines give a user.
unfoldable pub last_hash : Text → List Text → Option Text
unfolding hash_on
last_hash user [] = none
last_hash user (l ∷ lines) = elim (last_hash user lines) [ some h ↦ some h | none ↦ hash_on user l ]

abbrev or_before : Option Text → Option Text → Option Text
or_before (some h) before = some h
or_before none before = before

hash_on-skipped : (user l : Text) → skipped (trim_space l) ≡ true → hash_on user l ≡ none
unfolding hash_on
hash_on-skipped user l t = ground (arith, t)

parse_line-get :
    (user l : Text) (users more : HtpasswdAuth)
    → skipped (trim_space l) ≡ false
    → parse_line (trim_space l) users ≡ ok more
    → get user more ≡ or_before (hash_on user l) (get user users)
unfolding parse_line hash_on
parse_line-get user l users more f e = elim (Option-cases (cut colon (trim_space l))) [
  | inl n ↦ ground (arith, n, e)
  | inr ((name, rest), p) ↦
      ground (arith, f, p, e, get-put (trim_space name) user (trim_space rest) users)
]

-- After the loops a user has the hash of the last line that gives one, or the one from before.
parse_lines-get :
    (user : Text) (lines : List Text) (users more : HtpasswdAuth)
    → parse_lines lines users ≡ ok more
    → get user more ≡ or_before (last_hash user lines) (get user users)
unfolding parse_lines last_hash
parse_lines-get user [] users more e = ap (get user) (sym (ok_injective e))
parse_lines-get user (l ∷ lines) users more e = elim (Bool-cases (skipped (trim_space l))) [
  | inl t ↦ ground (arith, t, e, parse_lines-get user lines users more, hash_on-skipped user l t)
  | inr f ↦ elim (Result-cases (parse_line (trim_space l) users)) [
    | inr (x, p) ↦ ground (arith, f, p, e)
    | inl (next, p) ↦
        let rest = parse_lines-get user lines next more (ground (arith, f, p, e)) in
        ground (arith, rest, parse_line-get user l users next f p)
  ]
]

scan_lines-get :
    (user : Text) (lines : List Text) (number : ℕ) (users more : HtpasswdAuth)
    → scan_lines lines number users ≡ ok more
    → get user more ≡ or_before (last_hash user lines) (get user users)
unfolding scan_lines last_hash
scan_lines-get user [] number users more e = ap (get user) (sym (ok_injective e))
scan_lines-get user (l ∷ lines) number users more e = elim (Bool-cases (skipped (trim_space l))) [
  | inl t ↦
      ground
        (arith, t, e, scan_lines-get user lines (number + 1) users more, hash_on-skipped user l t)
  | inr f ↦ elim (Result-cases (parse_line (trim_space l) users)) [
    | inr (x, p) ↦ ground (arith, f, p, e)
    | inl (next, p) ↦
        let rest = scan_lines-get user lines (number + 1) next more (ground (arith, f, p, e)) in
        ground (arith, rest, parse_line-get user l users next f p)
  ]
]

-- The lines that NewHtpasswdAuth reads: those of the file, or those of the input itself.
unfoldable pub read_lines : Files → Text → List Text
read_lines files input = elim (files.exists input) [
  | true ↦ elim (files.open_file input) [ ok (lines, end) ↦ lines | err e ↦ [] ]
  | false ↦ split newline input
]

new_htpasswd_auth-get :
    (files : Files) (input user : Text) (users : HtpasswdAuth)
    → new_htpasswd_auth files input ≡ ok users
    → get user users ≡ last_hash user (read_lines files input)
unfolding new_htpasswd_auth load_from_file parse_credentials read_lines get
new_htpasswd_auth-get files input user users e = elim (Bool-cases (files.exists input)) [
  | inl t ↦ elim (Result-cases (files.open_file input)) [
    | inr (x, p) ↦ ground (arith, t, p, e)
    | inl ((lines, end), p) ↦ elim (Result-cases (scan_lines lines 0 [])) [
      | inr (x, q) ↦ ground (arith, t, p, q, e)
      | inl (more, q) ↦ elim (Option-cases end) [
        | inl n ↦ ground (arith, t, p, q, e, n, scan_lines-get user lines 0 [] more q)
        | inr (x, n) ↦ ground (arith, t, p, q, e, n)
      ]
    ]
  ]
  | inr f ↦ elim (Result-cases (parse_lines (split newline input) [])) [
    | inr (x, q) ↦ ground (arith, f, q, e)
    | inl (more, q) ↦ elim (List-cases more) [
      | inl n ↦ ground (arith, f, q, e, n)
      | inr (y, ys, n) ↦
          ground (arith, f, q, e, n, parse_lines-get user (split newline input) [] more q)
    ]
  ]
]

-- When NewHtpasswdAuth succeeds, a user is let in exactly if the password fits the last hash that
-- the lines of the file, or of the input itself, give the user.
pub authenticate-new_htpasswd_auth :
    (crypto : Crypto) (files : Files) (input : Text) (users : HtpasswdAuth)
    → new_htpasswd_auth files input ≡ ok users
    → (user password : Text)
    → authenticate crypto users user password ≡ (elim (last_hash user (read_lines files input)) [
      | none ↦ false
      | some hash ↦ check_password crypto password hash
    ])
unfolding authenticate
authenticate-new_htpasswd_auth crypto files input users e user password =
    rw (authenticate, new_htpasswd_auth-get files input user users e) refl
