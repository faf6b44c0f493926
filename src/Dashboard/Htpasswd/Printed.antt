-- ===== src/Dashboard/Htpasswd/Printed.antt =====
-- cmd/docker-backup/htpasswd.go and internal/dashboard/auth/htpasswd.go: logging in with a line that
-- the command has printed.
use docker_backup.Base.{
  ℕ, ◌≤◌, true, false, ◌||◌, none, some, List, [], ◌∷◌, ◌++◌, ◌≡◌, ◌≢◌, inl, inr, refl, sym, ap,
  ◌∙◌, arith, Text, ◌==◌, codes, has_prefix, contains, trim_space, trim_left, is_space, length,
  colon, newline, ltb, ok, Result-cases, Bool-cases,
}
use mathlib.Core.List.{reverse, reverse-append, reverse-reverse, append_assoc, append_cancel_right}
use docker_backup.Base.Strings.Laws.{==_refl, cut-append}
use docker_backup.Dashboard.Htpasswd.{
  Crypto, Files, HtpasswdAuth, skipped, new_htpasswd_auth, check_password, authenticate,
  run_htpasswd,
}
use docker_backup.Dashboard.Htpasswd.Users.{
  hash_on, last_hash, read_lines, authenticate-new_htpasswd_auth,
}

-- No space at either end.
pub record IsTrimmed (s : Text) : Type 0 where
  pub front : trim_left s ≡ s
  pub back : trim_left (reverse s) ≡ reverse s

trim_left-length : (s : Text) → length (trim_left s) ≤ length s
unfolding trim_left
trim_left-length [] = omega arith
trim_left-length (x ∷ s) = ground (arith, trim_left-length s)

-- A text that does not begin with a space does not with more behind it.
first_plain : (x : ℕ) (s : Text) → trim_left (x ∷ s) ≡ x ∷ s → is_space x ≡ false
unfolding trim_left
first_plain x s h = elim (Bool-cases (is_space x)) [
  | inr f ↦ f
  | inl t ↦ ground (arith, t, ap (λ (r : Text). length r) h, trim_left-length s)
]

trim_left-append : (s t : Text) → s ≢ [] → trim_left s ≡ s → trim_left (s ++ t) ≡ s ++ t
unfolding trim_left
trim_left-append [] t n h = absurd (n refl)
trim_left-append (x ∷ s) t n h = rw (first_plain x s h) refl

trim_space-trimmed : (s : Text) → IsTrimmed s → trim_space s ≡ s
unfolding trim_space
trim_space-trimmed s t =
    ap (λ r. reverse (trim_left (reverse r))) t.front ∙ ap reverse t.back ∙ reverse-reverse s

reverse_filled : (s : Text) → s ≢ [] → reverse s ≢ []
reverse_filled s n e = n (sym (reverse-reverse s) ∙ ap reverse e)

join-IsTrimmed :
    (s t : Text) (c : ℕ) → s ≢ [] → t ≢ [] → IsTrimmed s → IsTrimmed t → IsTrimmed (s ++ c ∷ t)
join-IsTrimmed s t c n m a b =
    let turned : reverse (s ++ c ∷ t) ≡ reverse t ++ (reverse (c ∷ []) ++ reverse s) =
      reverse-append s (c ∷ t)
      ∙ ap (λ r. r ++ reverse s) (reverse-append (c ∷ []) t)
      ∙ append_assoc (reverse t) _ _ in
    record {
      front = trim_left-append s _ n a.front;
      back =
          ap trim_left turned
          ∙ trim_left-append (reverse t) _ (reverse_filled t m) b.back
          ∙ sym turned;
    }

-- What is relied on of bcrypt: a hash that it makes of a password fits this password, begins with
-- "$2a$" and has no space at either end.
pub record IsBcrypt (crypto : Crypto) : Type 0 where
  pub fits :
      (password hash : Text) (cost : ℕ)
      → crypto.generate_bcrypt password cost ≡ ok hash
      → crypto.compare_bcrypt hash password ≡ true
  pub marked :
      (password hash : Text) (cost : ℕ)
      → crypto.generate_bcrypt password cost ≡ ok hash
      → has_prefix hash (codes "$2a$") ≡ true
  pub trimmed :
      (password hash : Text) (cost : ℕ)
      → crypto.generate_bcrypt password cost ≡ ok hash
      → IsTrimmed hash

skipped-append : (s t : Text) → s ≢ [] → has_prefix s (codes "#") ≡ false → skipped (s ++ t) ≡ false
unfolding has_prefix codes ◌==◌
skipped-append [] t n h = absurd (n refl)
skipped-append (x ∷ s) [] n h = ground arith
skipped-append (x ∷ s) (y ∷ t) n h = ground arith

hash_on_own :
    (username hash : Text)
    → contains colon username ≡ false
    → username ≢ []
    → hash ≢ []
    → has_prefix username (codes "#") ≡ false
    → IsTrimmed username
    → IsTrimmed hash
    → hash_on username (username ++ colon ∷ hash) ≡ some hash
unfolding hash_on
hash_on_own username hash plain n m mark a b =
    let whole =
      trim_space-trimmed (username ++ colon ∷ hash) (join-IsTrimmed username hash colon n m a b) in
    ground (
      arith,
      whole,
      skipped-append username (colon ∷ hash) n mark,
      cut-append colon username hash plain,
      trim_space-trimmed username a,
      trim_space-trimmed hash b,
      ==_refl username,
    )

last_hash-append :
    (user l : Text) (before after : List Text)
    → last_hash user after ≡ none
    → last_hash user (before ++ l ∷ after)
      ≡ (elim (hash_on user l) [ some h ↦ some h | none ↦ last_hash user before ])
unfolding last_hash
last_hash-append user l [] after h = ground (arith, h)
last_hash-append user l (b ∷ before) after h =
    ground (arith, h, last_hash-append user l before after h)

-- What the command prints for a user and a password.
printed_line :
    (crypto : Crypto) (username password printed : Text) (cost : ℕ)
    → run_htpasswd crypto username cost (ok password) ≡ ok printed
    → (hash : Text) × (crypto.generate_bcrypt password cost ≡ ok hash)
      × (contains colon username ≡ false)
      × (printed ≡ (username ++ colon ∷ hash) ++ newline ∷ [])
unfolding run_htpasswd
printed_line crypto username password printed cost e = elim (Bool-cases (contains colon username)) [
  | inl t ↦ ground (arith, t, e)
  | inr f ↦ elim (Bool-cases (ltb cost 4 || ltb 31 cost)) [
    | inl t ↦ ground (arith, f, t, e)
    | inr g ↦ elim (Result-cases (crypto.generate_bcrypt password cost)) [
      | inr (x, h) ↦ ground (arith, f, g, h, e)
      | inl (hash, h) ↦ (
        hash,
        h,
        f,
        ground (arith, f, g, h, e, append_assoc username (colon ∷ hash) (newline ∷ [])),
      )
    ]
  ]
]

check_marked :
    (crypto : Crypto) (password hash : Text)
    → has_prefix hash (codes "$2a$") ≡ true
    → check_password crypto password hash ≡ crypto.compare_bcrypt hash password
unfolding check_password
check_marked crypto password hash h = ground (arith, h)

filled_marked : (hash : Text) → has_prefix hash (codes "$2a$") ≡ true → hash ≢ []
unfolding has_prefix codes
filled_marked [] h e = cc
filled_marked (x ∷ s) h e = cc

-- A user whose line the htpasswd command has printed for a password logs in with that password
-- when a file has that line and no later line that gives the user a hash, if the file loads, the
-- name is not empty, has no space at either end and does not begin with "#".
pub authenticate-run_htpasswd :
    (crypto : Crypto) (B : IsBcrypt crypto) (files : Files) (path username password line : Text)
    (cost : ℕ) (before after : List Text) (users : HtpasswdAuth)
    → run_htpasswd crypto username cost (ok password) ≡ ok (line ++ newline ∷ [])
    → IsTrimmed username
    → username ≢ []
    → has_prefix username (codes "#") ≡ false
    → files.exists path ≡ true
    → files.open_file path ≡ ok (before ++ line ∷ after, none)
    → last_hash username after ≡ none
    → new_htpasswd_auth files path ≡ ok users
    → authenticate crypto users username password ≡ true
unfolding read_lines
authenticate-run_htpasswd crypto B files path username password line cost before after users e t n
      mark found opened last loaded =
    let (hash, made, plain, shown) =
      printed_line crypto username password (line ++ newline ∷ []) cost e in
    let same : line ≡ username ++ colon ∷ hash =
      append_cancel_right line (username ++ colon ∷ hash) (newline ∷ []) shown in
    let marked = B.marked password hash cost made in
    let own =
      hash_on_own username hash plain n (filled_marked hash marked) mark t
        (B.trimmed password hash cost made) in
    let on_line : hash_on username line ≡ some hash = ap (hash_on username) same ∙ own in
    let lines : read_lines files path ≡ before ++ line ∷ after = ground (arith, found, opened) in
    authenticate-new_htpasswd_auth crypto files path users loaded username password
    ∙ ground (
      arith,
      lines,
      last_hash-append username line before after last,
      on_line,
      check_marked crypto password hash marked,
      B.fits password hash cost made,
    )
