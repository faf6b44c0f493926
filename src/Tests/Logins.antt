-- ===== src/Tests/Logins.antt =====
-- A stand-in for bcrypt, a file of users, and logins with it.
use docker_backup.Base.{
  true, false, none, some, [], ◌∷◌, ◌++◌, ◌≡◌, refl, sym, subst, Text, codes, ◌==◌, contains,
  trim_space, cut, has_prefix, trim_left, is_space, ok, ok_injective,
}
use mathlib.Core.List.{reverse, reverse-append}
use docker_backup.Base.Map.{put}
use docker_backup.Base.Strings.Laws.{==_refl}
use docker_backup.Dashboard.Htpasswd.{
  Crypto, Files, HtpasswdAuth, new_htpasswd_auth, authenticate, run_htpasswd, check_password,
}
use docker_backup.Dashboard.Htpasswd.Users.{last_hash, read_lines, authenticate-new_htpasswd_auth}
use docker_backup.Dashboard.Htpasswd.Printed.{IsTrimmed, IsBcrypt, authenticate-run_htpasswd}

-- "$2a$", the password and a full stop.
abbrev hash_of : Text → Text
hash_of password = 36 ∷ 50 ∷ 97 ∷ 36 ∷ (password ++ 46 ∷ [])

abbrev plain_crypto : Crypto
plain_crypto = record {
  compare_bcrypt = λ hash password. hash == hash_of password;
  generate_bcrypt = λ password cost. ok (hash_of password);
  sha1 = λ password. password;
  decode_base64 = λ s. some s;
}

ends_plain : (s : Text) → trim_left (reverse (s ++ 46 ∷ [])) ≡ reverse (s ++ 46 ∷ [])
unfolding trim_left is_space
ends_plain s = subst (λ (r : Text). trim_left r ≡ r) (sym (reverse-append s (46 ∷ []))) refl

starts_plain : (s : Text) → trim_left (36 ∷ s) ≡ 36 ∷ s
unfolding trim_left is_space
starts_plain s = refl

marked_hash : (password : Text) → has_prefix (hash_of password) (codes "$2a$") ≡ true
unfolding has_prefix codes
marked_hash password = has_prefix_all (password ++ 46 ∷ [])
  where
    has_prefix_all : (s : Text) → has_prefix s [] ≡ true
    has_prefix_all [] = refl
    has_prefix_all (x ∷ s) = refl

hash_of-IsTrimmed : (password : Text) → IsTrimmed (hash_of password)
hash_of-IsTrimmed password = record {
  front = starts_plain (50 ∷ 97 ∷ 36 ∷ (password ++ 46 ∷ []));
  back = ends_plain (36 ∷ 50 ∷ 97 ∷ 36 ∷ password);
}

abbrev plain_bcrypt : IsBcrypt plain_crypto
plain_bcrypt = record {
  fits = λ password hash cost h.
      subst (λ x. (x == hash_of password) ≡ true) (ok_injective h) (==_refl (hash_of password));
  marked = λ password hash cost h.
      subst (λ x. has_prefix x (codes "$2a$") ≡ true) (ok_injective h) (marked_hash password);
  trimmed = λ password hash cost h. subst IsTrimmed (ok_injective h) (hash_of-IsTrimmed password);
}

-- A file in which the user's line stands behind a comment and an older hash.
abbrev two_files : Files
two_files = record {
  exists = λ path. path == codes "/etc/users";
  open_file = λ path. ok (
    codes "# users" ∷ codes "admin:old" ∷ codes "admin:$2a$secret." ∷ codes " eve : plain " ∷ [],
    none,
  );
}

abbrev loaded : HtpasswdAuth
loaded = (codes "admin", codes "$2a$secret.") ∷ (codes "eve", codes "plain") ∷ []

loads : new_htpasswd_auth two_files (codes "/etc/users") ≡ ok loaded
unfolding new_htpasswd_auth ◌==◌ codes trim_space has_prefix cut put
loads = refl

authenticate-new_htpasswd_auth_example :
    authenticate plain_crypto loaded (codes "eve") (codes "plain")
    ≡ (elim (last_hash (codes "eve") (read_lines two_files (codes "/etc/users"))) [
      | none ↦ false
      | some hash ↦ check_password plain_crypto (codes "plain") hash
    ])
authenticate-new_htpasswd_auth_example =
    authenticate-new_htpasswd_auth plain_crypto two_files (codes "/etc/users") loaded loads
      (codes "eve") (codes "plain")

authenticate-run_htpasswd_example :
    authenticate plain_crypto loaded (codes "admin") (codes "secret") ≡ true
unfolding run_htpasswd contains codes trim_left is_space has_prefix ◌==◌ last_hash trim_space cut
authenticate-run_htpasswd_example =
    authenticate-run_htpasswd plain_crypto plain_bcrypt two_files (codes "/etc/users")
      (codes "admin") (codes "secret") (codes "admin:$2a$secret.") 10
      (codes "# users" ∷ codes "admin:old" ∷ []) (codes " eve : plain " ∷ []) loaded refl
      (record { front = refl; back = refl }) (λ e. cc) refl refl refl refl loads
