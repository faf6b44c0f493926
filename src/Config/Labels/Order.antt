-- ===== src/Config/Labels/Order.antt =====
-- ParseLabels of internal/config/labels.go and the order in which it walks the map of labels.
use docker_backup.Base.{
  ◌≡◌, ◌≢◌, refl, sym, subst, ap, ◌∙◌, arith, false, Option, some, List, [], ◌∷◌, ◌++◌, inl, inr,
  either, Option-cases, Text, text_lt, dot, In, In-All, All-of_In, ok,
}
use mathlib.Core.Path.{fun_ext}
use docker_backup.Base.Map.{Map, get, NodupKeys, has, get-has}
use docker_backup.Base.Sort.{Sorter, IsSorted, Pairwise, Pairwise-Permutes, Permutes-sym}
use docker_backup.Config.Labels.{
  BackupConfig, ContainerConfig, label_type, name_lt, label_enable, parse_enabled, require_backups,
  group_of, parse_groups, parse_named_configs, parse_labels, parse_config_group, trimmed,
  label_notify,
}
use docker_backup.Config.Labels.Parsed.{
  Reads, property_of, Reads-unique, groups, groups_of_labels, group_properties, parse_groups_total,
  parse_config_group_of_Reads, sorted_groups, parse_groups-cons, parse_groups-nil, parse_groups-In,
  parse_config_group-Reads, parse_named_configs-Reads, parse_named_configs_complete,
  parse_named_configs-IsSorted,
}

text_lt_total : (s t : Text) → text_lt s t ≡ false → text_lt t s ≡ false → s ≡ t
unfolding text_lt
text_lt_total [] [] h k = refl
text_lt_total [] (y ∷ t) h k = cc
text_lt_total (x ∷ s) [] h k = cc
text_lt_total (x ∷ s) (y ∷ t) h k = ground (arith, text_lt_total s t)

-- No name stands twice.
abbrev pub Distinct : List BackupConfig → Type 0
Distinct = Pairwise λ b c. b.name ≢ c.name

abbrev Same : List BackupConfig → List BackupConfig → Type 0
Same xs ys = (b : BackupConfig) → In b xs → In b ys

Distinct-In : (x z : BackupConfig) (xs : List BackupConfig) → Distinct (x ∷ xs) → In z xs → z ≢ x
Distinct-In x z xs d m e =
    In-All (λ c. x.name ≢ c.name) z xs d.0 m (ap (λ (b : BackupConfig). b.name) (sym e))

module _ (x y : BackupConfig) (xs ys : List BackupConfig) where
  heads_agree :
      IsSorted name_lt (x ∷ xs)
      → IsSorted name_lt (y ∷ ys)
      → Distinct (y ∷ ys)
      → Same (x ∷ xs) (y ∷ ys)
      → Same (y ∷ ys) (x ∷ xs)
      → x ≡ y
  heads_agree s t d f g =
      either (λ e. e)
        (λ m.
          either (λ e. sym e)
            (λ n. absurd (
              In-All (λ c. y.name ≢ c.name) x ys d.0 m
                (text_lt_total y.name x.name (In-All (λ z. name_lt z x ≡ false) y xs s.0 n)
                  (In-All (λ z. name_lt z y ≡ false) x ys t.0 m))))
            (g y (inl refl)))
        (f x (inl refl))

  tails_agree : Distinct (x ∷ xs) → x ≡ y → Same (x ∷ xs) (y ∷ ys) → Same xs ys
  tails_agree d e f b m =
      either (λ e'. absurd (Distinct-In x b xs d m (e' ∙ sym e))) (λ n. n) (f b (inr m))

sorted_unique :
    (xs ys : List BackupConfig)
    → IsSorted name_lt xs
    → IsSorted name_lt ys
    → Distinct xs
    → Distinct ys
    → Same xs ys
    → Same ys xs
    → xs ≡ ys
sorted_unique [] [] s t c d f g = refl
sorted_unique [] (y ∷ ys) s t c d f g = absurd (g y (inl refl))
sorted_unique (x ∷ xs) [] s t c d f g = absurd (f x (inl refl))
sorted_unique (x ∷ xs) (y ∷ ys) s t c d f g =
    let e = heads_agree x y xs ys s t d f g in
    cc (
      e,
      sorted_unique xs ys s.1 t.1 c.1 d.1 (tails_agree x y xs ys c e f)
          (tails_agree y x ys xs d (sym e) g),
    )

parse_groups-Distinct :
    (container : Text) (groups : Map (Map Text)) (bs : List BackupConfig)
    → NodupKeys groups
    → parse_groups container groups ≡ ok bs
    → Distinct bs
parse_groups-Distinct container [] bs u h = rw (parse_groups-nil container bs h) tt
parse_groups-Distinct container ((name, props) ∷ groups) bs u h =
    let (c, rest, p, q, e) = parse_groups-cons container name props groups bs h in
    rw e (
      All-of_In _ rest (λ b m t. fresh c rest p q b m t),
      parse_groups-Distinct container groups rest u.1 q,
    )
  where
    fresh :
        (c : BackupConfig) (rest : List BackupConfig)
        → parse_config_group name container props ≡ ok c
        → parse_groups container groups ≡ ok rest
        → (b : BackupConfig) → In b rest
        → c.name ≢ b.name
    fresh c rest p q b m t =
        let (ps, g, r) = parse_groups-In container groups rest b u.1 q m in
        cc (
          ap (λ k. has k groups) (sym (parse_config_group-Reads name container props c p).0 ∙ t),
          u.0,
          get-has b.name groups g,
        )

module _ (prefix container : Text) (labels labels' : Map Text) (u : NodupKeys labels)
    (u' : NodupKeys labels') (same : (key : Text) → get key labels ≡ get key labels') where
  Reads-same :
      (name : Text) (b : BackupConfig)
      → Reads container (property_of prefix labels name) b
      → Reads container (property_of prefix labels' name) b
  Reads-same name b =
      subst (λ (f : Text → Option Text). Reads container f b) (fun_ext (λ p. same _))

  -- Every configuration of the one map is one of the other.
  module _ (s s' : Sorter name_lt) (bs bs' : List BackupConfig)
      (h : parse_named_configs s prefix container labels ≡ ok bs)
      (h' : parse_named_configs s' prefix container labels' ≡ ok bs') where
    members-Same : Same bs bs'
    unfolding get
    members-Same b m =
        let (name, r) = parse_named_configs-Reads s prefix container labels u bs h b m in
        let (val, e) = typed b r in
        let (b', m', n) =
          parse_named_configs_complete s' prefix container labels' u' bs' h' b.name label_type val
            name (sym (same _) ∙ e) in
        subst (λ x. In x bs')
          (sym (
            Reads-unique container (property_of prefix labels' b.name) b b' (sym n)
              (Reads-same b.name b r)
              (subst (λ k. Reads container (property_of prefix labels' k) b') n
                (parse_named_configs-Reads s' prefix container labels' u' bs' h' b' m').1)))
          m'
      where
        typed :
            (b : BackupConfig)
            → Reads container (property_of prefix labels b.name) b
            → (val : Text) × (property_of prefix labels b.name label_type ≡ some val)
        typed b r = elim (Option-cases (property_of prefix labels b.name label_type)) [
          | inl e ↦ absurd (r.has_type (r.backup_type ∙ ap trimmed e))
          | inr (v, e) ↦ (v, e)
        ]

module _ (s : Sorter name_lt) (prefix container : Text) (labels : Map Text) (u : NodupKeys labels)
    (bs : List BackupConfig) (h : parse_named_configs s prefix container labels ≡ ok bs) where
  pub parse_named_configs-Distinct : Distinct bs
  parse_named_configs-Distinct =
      let (gs, run, e) = sorted_groups s prefix container labels u bs h in
      rw e (
        Pairwise-Permutes _ (λ a b d e. d (sym e)) (Permutes-sym (s.permutes gs))
          (parse_groups-Distinct container (groups prefix labels) gs
            (groups_of_labels prefix labels).nodup run))

parse_named_configs_of_run :
    (s : Sorter name_lt) (prefix container : Text) (labels : Map Text) (gs : List BackupConfig)
    → parse_groups container (groups prefix labels) ≡ ok gs
    → parse_named_configs s prefix container labels ≡ ok (s.sort gs)
unfolding parse_named_configs
parse_named_configs_of_run s prefix container labels gs run = ground arith

module _ (s s' : Sorter name_lt) (prefix container : Text) (labels labels' : Map Text)
    (u : NodupKeys labels) (u' : NodupKeys labels')
    (same : (key : Text) → get key labels ≡ get key labels') (bs : List BackupConfig)
    (h : parse_named_configs s prefix container labels ≡ ok bs) where
  group_parses :
      (name : Text) (props : Map Text)
      → get name (groups prefix labels') ≡ some props
      → (b : BackupConfig) × (parse_config_group name container props ≡ ok b)
  unfolding group_of
  group_parses name props g =
      let ok_groups = groups_of_labels prefix labels' in
      let is_name = ok_groups.names name (get-has name (groups prefix labels') g) in
      let (p, v, e) = ok_groups.inhabited name props g in
      let known = group_properties prefix labels' name props u' g in
      let (b, m, n) =
        parse_named_configs_complete s prefix container labels u bs h name p v is_name
          (same _ ∙ sym (ap (λ (f : Text → Option Text). f p) known) ∙ e) in
      let r = parse_named_configs-Reads s prefix container labels u bs h b m in
      (
        b,
        subst (λ k. parse_config_group k container props ≡ ok b) n
            (parse_config_group_of_Reads container props b (
              subst (λ (f : Text → Option Text). Reads container f b) (sym known)
                (subst (λ k. Reads container (property_of prefix labels' k) b) n
                  (Reads-same prefix container labels labels' u u' same b.name b r.1)))),
      )

  pub parse_named_configs_order : parse_named_configs s' prefix container labels' ≡ ok bs
  parse_named_configs_order =
      let (gs, run) =
        parse_groups_total container (groups prefix labels') (groups_of_labels prefix labels').nodup
          group_parses in
      let h' = parse_named_configs_of_run s' prefix container labels' gs run in
      h'
      ∙ ap ok (
          sym (
            sorted_unique bs (s'.sort gs)
              (parse_named_configs-IsSorted s prefix container labels u bs h) (s'.sorted gs)
              (parse_named_configs-Distinct s prefix container labels u bs h)
              (parse_named_configs-Distinct s' prefix container labels' u' (s'.sort gs) h')
              (members-Same prefix container labels labels' u u' same s s' bs (s'.sort gs) h h')
              (members-Same prefix container labels' labels u' u (λ k. sym (same k)) s' s
                (s'.sort gs) bs h' h)))

-- ParseLabels depends only on which labels are set to what: with the same labels in another order
-- of the map, and with another algorithm for the sort, it returns the same configuration, where it
-- returns one.
pub parse_labels_order :
    (s s' : Sorter name_lt) (prefix id container : Text) (labels labels' : Map Text)
    → NodupKeys labels
    → NodupKeys labels'
    → ((key : Text) → get key labels ≡ get key labels')
    → (cfg : ContainerConfig) → parse_labels s prefix id container labels ≡ ok cfg
    → parse_labels s' prefix id container labels' ≡ ok cfg
unfolding parse_labels parse_enabled require_backups
parse_labels_order s s' prefix id container labels labels' u u' same cfg h = ground (
  arith,
  same (prefix ++ dot ∷ label_enable),
  same (prefix ++ dot ∷ label_notify),
  parse_named_configs_order s s' prefix container labels labels' u u' same cfg.backups,
)
