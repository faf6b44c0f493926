-- ===== src/BackupTypes/Volume/Naming.antt =====
-- internal/backuptypes/volume/volume.go: the names of archive entries on the way from a container to
-- the backup and back.
use docker_backup.Base.{
  ℕ, none, Bool, true, false, not, ◌&&◌, [], ◌∷◌, ◌++◌, ◌≡◌, refl, sym, ap, ◌∙◌, arith,
  if◌then◌else◌, Text, ◌==◌, has_prefix, trim_prefix, has_suffix, contains, cut, slash,
}
use docker_backup.Base.Paths.{path_base}
use docker_backup.Base.Strings.Laws.{trim_prefix-append, cut-append}
use mathlib.Core.List.{append-nil, reverse, reverse-append}
use docker_backup.BackupTypes.Volume.{
  slash_as, name_in_backup, split_volume_path, name_in_container,
}

-- The first character of a text that is not empty, whatever follows it.
has_prefix_first :
    (c : ℕ) (a : Text) (x : ℕ) (b : Text)
    → has_prefix ((a ++ x ∷ []) ++ b) (c ∷ []) ≡ has_prefix (a ++ x ∷ []) (c ∷ [])
unfolding has_prefix
has_prefix_first c [] x [] = refl
has_prefix_first c [] x (y ∷ b) = refl
has_prefix_first c (y ∷ []) x b = refl
has_prefix_first c (y ∷ z ∷ a) x b = refl

-- The last character of a text does not depend on what stands before it.
pub has_suffix-append :
    (c : ℕ) (s : Text) (x : ℕ) (t : Text)
    → has_suffix (s ++ x ∷ t) (c ∷ []) ≡ has_suffix (x ∷ t) (c ∷ [])
unfolding has_suffix
has_suffix-append c s x t =
    ap (λ r. has_prefix r (c ∷ []))
      (reverse-append s (x ∷ t) ∙ ap (λ r. r ++ reverse s) (reverse-append (x ∷ []) t))
    ∙ has_prefix_first c (reverse t) x (reverse s)
    ∙ ap (λ r. has_prefix r (c ∷ [])) (sym (reverse-append (x ∷ []) t))

pub has_suffix-of_free : (c : ℕ) (s : Text) → contains c s ≡ false → has_suffix s (c ∷ []) ≡ false
unfolding contains has_suffix has_prefix
has_suffix-of_free c [] h = refl
has_suffix-of_free c (x ∷ []) h = ground arith
has_suffix-of_free c (x ∷ y ∷ t) h =
    has_suffix-append c (x ∷ []) y t ∙ has_suffix-of_free c (y ∷ t) (ground arith)

has_suffix-slash : (s : Text) → has_suffix (s ++ slash ∷ []) (slash ∷ []) ≡ true
unfolding has_suffix has_prefix
has_suffix-slash s = has_suffix-append slash s slash [] ∙ refl

cut-of_free : (c : ℕ) (s : Text) → contains c s ≡ false → cut c s ≡ none
unfolding cut contains
cut-of_free c [] h = refl
cut-of_free c (x ∷ s) h = ground (arith, cut-of_free c s)

-- The names of the entries of an archive that Docker makes of a path: the last part of the path,
-- alone or in front of a slash and the rest.
pub data Rooted (base : Text) : Text → Type 0 where
  top : Rooted base base
  below : (rel : Text) → has_prefix rel (slash ∷ []) ≡ false → Rooted base (base ++ slash ∷ rel)

trim_self : (s : Text) → trim_prefix s s ≡ []
trim_self s = ap (λ r. trim_prefix r s) (sym (append-nil s)) ∙ trim_prefix-append s []

trim_slash : (rel : Text) → has_prefix rel (slash ∷ []) ≡ false → trim_prefix rel (slash ∷ []) ≡ rel
unfolding trim_prefix
trim_slash rel h = rw h refl

trim_below :
    (base rel : Text) → trim_prefix (trim_prefix (base ++ slash ∷ rel) base) (slash ∷ []) ≡ rel
trim_below base rel =
    ap (λ r. trim_prefix r (slash ∷ [])) (trim_prefix-append base (slash ∷ rel))
    ∙ trim_prefix-append (slash ∷ []) rel

split_plain :
    (volume : Text) → contains slash volume ≡ false → split_volume_path volume ≡ (volume, [])
unfolding split_volume_path
split_plain volume h = rw (split_volume_path, cut-of_free slash volume h) refl

split_below :
    (volume rel : Text)
    → contains slash volume ≡ false
    → has_prefix rel (slash ∷ []) ≡ false
    → split_volume_path (volume ++ slash ∷ rel) ≡ (volume, rel)
unfolding split_volume_path
split_below volume rel h p =
    rw (split_volume_path, cut-append slash volume rel h, trim_slash rel p) refl

same_suffix :
    (s rel : Text)
    → has_suffix (s ++ slash ∷ rel) (slash ∷ []) ≡ has_suffix (slash ∷ rel) (slash ∷ [])
same_suffix s rel = has_suffix-append slash s slash rel

keep_name : (b : Bool) (s t : Text) → (if b && not b then s else t) ≡ t
keep_name true s t = refl
keep_name false s t = refl

-- The three kinds of names, in the backup and in the archive for the container.
module _ (volume base : Text) (plain : contains slash volume ≡ false)
    (inner : has_suffix base (slash ∷ []) ≡ false) where
  in_backup_top : name_in_backup volume base base ≡ volume
  unfolding name_in_backup slash_as ◌==◌ trim_prefix has_prefix
  in_backup_top = rw (trim_self base, inner) refl

  in_backup_dir : name_in_backup volume base (base ++ slash ∷ []) ≡ volume ++ slash ∷ []
  unfolding name_in_backup slash_as ◌==◌
  in_backup_dir =
      rw (trim_below base [], has_suffix-slash base, has_suffix-of_free slash volume plain) refl

  in_backup_below :
      (x : ℕ) (rel : Text)
      → name_in_backup volume base (base ++ slash ∷ x ∷ rel) ≡ volume ++ slash ∷ x ∷ rel
  unfolding name_in_backup slash_as ◌==◌
  in_backup_below x rel =
      rw (trim_below base (x ∷ rel), same_suffix base (x ∷ rel), same_suffix volume (x ∷ rel))
        (keep_name _ _ _)

  -- An entry that Backup has renamed is split into its volume and gets its old name in the container.
  pub name_in_container-name_in_backup :
      (dest name : Text)
      → path_base dest ≡ base
      → Rooted base name
      → ((split_volume_path (name_in_backup volume base name)).0 ≡ volume)
        × (name_in_container dest
              (split_volume_path (name_in_backup volume base name)).1
              (name_in_backup volume base name)
            ≡ name)
  unfolding name_in_container slash_as ◌==◌
  name_in_container-name_in_backup dest name e top =
      rw (in_backup_top, split_plain volume plain, e, has_suffix-of_free slash volume plain)
        (refl, refl)
  name_in_container-name_in_backup dest name e (below [] h) =
      rw (in_backup_dir, split_below volume [] plain h, e, has_suffix-slash volume, inner)
        (refl, refl)
  name_in_container-name_in_backup dest name e (below (x ∷ rel) h) =
      rw
        (
          in_backup_below x rel,
          split_below volume (x ∷ rel) plain h,
          e,
          same_suffix base (x ∷ rel),
          same_suffix volume (x ∷ rel),
        )
        (refl, keep_name _ _ _)
