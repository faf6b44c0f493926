-- ===== src/Config/Labels/Groups.antt =====
-- The loop of parseNamedConfigs that groups the labels by configuration name.
use docker_backup.Base.{
  Bool, true, false, ◌&&◌, Option, none, some, inl, inr, [], ◌∷◌, ◌++◌, ◌≡◌, refl, ap, ◌∙◌, arith,
  if◌then◌else◌, Bool-cases, Bool-ext, and_left, and_right, Text, ◌==◌, has_prefix, trim_prefix,
  cut, contains, dot,
}
use docker_backup.Base.Strings.Laws.{
  ==_refl, ==→eq, ==_iff, has_prefix-append, trim_prefix-append, has_prefix-split, cut-append,
  cut_sound,
}
use mathlib.Core.Option.{or_else}
use docker_backup.Base.Map.{Map, get, put, has, NodupKeys, get-put, has-put, put-NodupKeys}
use docker_backup.Config.Labels.{is_reserved, group_of, add_property, add_label, group_labels}

-- prefix_dot is the prefix with its dot: the label of a property of a configuration.
abbrev pub label_of : Text → Text → Text → Text
label_of prefix_dot name property = prefix_dot ++ (name ++ dot ∷ property)

-- A name that a group can have.
pub record IsName (name : Text) : Type 0 where
  pub no_dot : contains dot name ≡ false
  pub free : is_reserved name ≡ false

abbrev parts_are : Text → Text → Option (Text × Text) → Bool
parts_are name property none = false
parts_are name property (some (n, p)) = n == name && p == property

module _ (prefix_dot name property : Text) where
  parts_of_label :
      (key : Text) (o : Option (Text × Text))
      → cut dot (trim_prefix key prefix_dot) ≡ o
      → has_prefix key prefix_dot ≡ true
      → parts_are name property o ≡ true
      → key ≡ label_of prefix_dot name property
  parts_of_label key none e h t = cc
  parts_of_label key (some (n, p)) e h t =
      has_prefix-split key prefix_dot h
      ∙ ap (◌++◌ prefix_dot) (
          (cut_sound dot _ n p e).0
          ∙ rw (==→eq n name (and_left _ _ t), ==→eq p property (and_right (n == name) _ t)))

  -- A label spells a property of a name exactly if its parts are that name and that property.
  label_of-eq :
      (key : Text)
      → contains dot name ≡ false
      → (key == label_of prefix_dot name property) ≡ (
          has_prefix key prefix_dot
          && parts_are name property (cut dot (trim_prefix key prefix_dot)))
  label_of-eq key h = Bool-ext _ _ spelled parsed
    where
      spelled :
          (key == label_of prefix_dot name property) ≡ true
          → (has_prefix key prefix_dot
              && parts_are name property (cut dot (trim_prefix key prefix_dot)))
            ≡ true
      spelled t = rw (
        ==→eq key _ t,
        has_prefix-append prefix_dot (name ++ dot ∷ property),
        trim_prefix-append prefix_dot (name ++ dot ∷ property),
        cut-append dot name property h,
        ==_refl name,
        ==_refl property,
      )

      parsed :
          (has_prefix key prefix_dot
              && parts_are name property (cut dot (trim_prefix key prefix_dot)))
            ≡ true
          → (key == label_of prefix_dot name property) ≡ true
      parsed t =
          (==_iff _ _).1
            (parts_of_label key _ refl (and_left _ _ t) (and_right (has_prefix key prefix_dot) _ t))

  module _ (is_name : IsName name) where
    get-add_property :
        (o : Option (Text × Text)) (value : Text) (groups : Map (Map Text))
        → get property (group_of name (add_property o value groups))
          ≡ (if parts_are name property o then some value else get property (group_of name groups))
    unfolding add_property
    get-add_property none value groups = refl
    get-add_property (some (n, p)) value groups = ground (
      arith,
      is_name.free,
      ==_iff n name,
      get-put n name (put p value (group_of n groups)) groups,
      get-put p property value (group_of n groups),
      get-put p property value (group_of name groups),
    )

    get-add_label :
        (key value : Text) (groups : Map (Map Text))
        → get property (group_of name (add_label prefix_dot key value groups)) ≡ (
            if key == label_of prefix_dot name property
            then some value
            else get property (group_of name groups))
    unfolding add_label
    get-add_label key value groups =
        rw (label_of-eq key is_name.no_dot)
          (ground (arith, get-add_property (cut dot (trim_prefix key prefix_dot)) value groups))

    pub get-group_labels_onto :
        (labels : Map Text) (groups : Map (Map Text))
        → NodupKeys labels
        → get property (group_of name (group_labels prefix_dot labels groups))
          ≡ or_else
              (get (label_of prefix_dot name property) labels)
              (get property (group_of name groups))
    unfolding group_labels get or_else
    get-group_labels_onto [] groups u = refl
    get-group_labels_onto ((key, value) ∷ labels) groups u = ground (
      arith,
      ==_iff key (label_of prefix_dot name property),
      get-add_label key value groups,
      get-group_labels_onto labels (add_label prefix_dot key value groups) u.1,
    )

    pub get-group_labels :
        (labels : Map Text)
        → NodupKeys labels
        → get property (group_of name (group_labels prefix_dot labels []))
          ≡ get (label_of prefix_dot name property) labels
    unfolding group_of get or_else
    get-group_labels labels u = ground (arith, get-group_labels_onto labels [] u)

-- What the loop keeps: no group stands twice, and each has a name that the guards let through.
pub record AreGroups (groups : Map (Map Text)) : Type 0 where
  pub nodup : NodupKeys groups
  pub names : (name : Text) → has name groups ≡ true → IsName name
  pub inhabited :
      (name : Text) (props : Map Text)
      → get name groups ≡ some props
      → (property : Text) × (value : Text) × (get property props ≡ some value)

add_property-AreGroups :
    (o : Option (Text × Text)) (value : Text) (groups : Map (Map Text))
    → ((n p : Text) → o ≡ some (n, p) → contains dot n ≡ false)
    → AreGroups groups
    → AreGroups (add_property o value groups)
unfolding add_property
add_property-AreGroups none value groups c g = g
add_property-AreGroups (some (n, p)) value groups c g = elim (Bool-cases (is_reserved n)) [
  | inl r ↦ rw (r, add_property) g
  | inr r ↦
      rw (r, add_property)
        (record {
          nodup = put-NodupKeys n (put p value (group_of n groups)) groups g.nodup;
          names = λ name h. put_name name r h;
          inhabited = λ name props h. put_inhabited name props h;
        })
]
  where
    put_inhabited :
        (name : Text) (props : Map Text)
        → get name (put n (put p value (group_of n groups)) groups) ≡ some props
        → (property : Text) × (v : Text) × (get property props ≡ some v)
    put_inhabited name props h = elim (Bool-cases (n == name)) [
      | inl e ↦ (
        p,
        value,
        ground (
          arith,
          get-put n name (put p value (group_of n groups)) groups,
          get-put p p value (group_of n groups),
          ==_refl p,
        ),
      )
      | inr e ↦
          g.inhabited name props
            (ground (arith, get-put n name (put p value (group_of n groups)) groups))
    ]

    put_name :
        (name : Text)
        → is_reserved n ≡ false
        → has name (put n (put p value (group_of n groups)) groups) ≡ true
        → IsName name
    put_name name r h = elim (Bool-cases (n == name)) [
      | inl e ↦ rw (← ==→eq n name e) (record { no_dot = c n p refl; free = r })
      | inr e ↦
          g.names name (ground (arith, has-put n name (put p value (group_of n groups)) groups))
    ]

pub group_labels-AreGroups :
    (prefix_dot : Text) (labels : Map Text) (groups : Map (Map Text))
    → AreGroups groups
    → AreGroups (group_labels prefix_dot labels groups)
unfolding group_labels add_label
group_labels-AreGroups prefix_dot [] groups g = g
group_labels-AreGroups prefix_dot ((key, value) ∷ labels) groups g =
    group_labels-AreGroups prefix_dot labels _ (elim (Bool-cases (has_prefix key prefix_dot)) [
      | inl h ↦
          rw (h, add_label)
            (add_property-AreGroups _ value groups
              (λ n p e. (cut_sound dot (trim_prefix key prefix_dot) n p e).1) g)
      | inr h ↦ rw (h, add_label) g
    ])

-- A configuration has a group as soon as one label is spelled for it.
pub has-group_labels :
    (prefix_dot name property value : Text) (labels : Map Text)
    → IsName name
    → NodupKeys labels
    → get (label_of prefix_dot name property) labels ≡ some value
    → has name (group_labels prefix_dot labels []) ≡ true
unfolding group_of get
has-group_labels prefix_dot name property value labels is_name u e =
    ground (arith, get-group_labels prefix_dot name property is_name labels u)
