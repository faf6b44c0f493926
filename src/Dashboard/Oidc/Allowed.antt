-- ===== src/Dashboard/Oidc/Allowed.antt =====
-- internal/dashboard/auth/oidc.go: who may log in under a configuration.
use docker_backup.Base.{
  Bool, true, false, Option, none, some, List, [], ◌∷◌, ◌≡◌, ◌↔◌, ◌⊎◌, inl, inr, refl, sym, ap, ◌∙◌,
  arith, Text, ◌==◌, codes, split, at_sign, In, Result, ok, Result-cases, Bool-cases, List-cases,
  ok_injective,
}
use docker_backup.Base.Map.{Map, get, put, get-put}
use docker_backup.Base.Strings.Laws.{==_iff}
use docker_backup.Dashboard.Oidc.{
  OidcConfig, OidcAuth, Endpoint, auth_with, scopes_of, add_allowed, new_oidc_auth, issuer_of,
  Casing, any_domain, domain_allowed, is_user_allowed,
}

-- An address that the configuration permits: in lower case it is a listed one in lower case, or its
-- domain is equal to a listed one under case folding, or nothing is listed.
unfoldable pub Permitted : Casing → OidcConfig → Text → Type 0
Permitted casing cfg email =
    ((user : Text) × In user cfg.allowed_users × (casing.to_lower user ≡ casing.to_lower email))
    ⊎ (((name domain listed : Text) × (split at_sign (casing.to_lower email) ≡ name ∷ domain ∷ [])
          × In listed cfg.allowed_domains
          × (casing.equal_fold domain listed ≡ true))
        ⊎ ((cfg.allowed_users ≡ []) × (cfg.allowed_domains ≡ [])))

abbrev set_in : Map Bool → Text → Bool
set_in m k = elim (get k m) [ none ↦ false | some b ↦ b ]

add_allowed-set :
    (casing : Casing) (users : List Text) (m : Map Bool) (k : Text)
    → (set_in (add_allowed casing users m) k ≡ true)
      ↔ (((user : Text) × In user users × (casing.to_lower user ≡ k)) ⊎ (set_in m k ≡ true))
unfolding add_allowed
add_allowed-set casing [] m k = (inr, λ s. elim s [ inl (u, i, e) ↦ absurd i | inr t ↦ t ])
add_allowed-set casing (u ∷ users) m k =
    let rest = add_allowed-set casing users (put (casing.to_lower u) true m) k in
    (
      λ h. elim (rest.0 h) [
        | inl (v, i, e) ↦ inl (v, inr i, e)
        | inr t ↦ elim (Bool-cases (casing.to_lower u == k)) [
          | inl same ↦ inl (u, inl refl, (==_iff (casing.to_lower u) k).0 same)
          | inr n ↦ inr (ground (arith, t, n, get-put (casing.to_lower u) k true m))
        ]
      ],
      λ s. rest.1 (elim s [
        | inl (v, inl f, e) ↦ inr (
            ground (
              arith,
              get-put (casing.to_lower u) k true m,
              ==_iff (casing.to_lower u) k,
              ap casing.to_lower f,
              e,
            ))
        | inl (v, inr i, e) ↦ inl (v, i, e)
        | inr t ↦ inr (ground (arith, t, get-put (casing.to_lower u) k true m))
      ]),
    )

any_domain-In :
    (casing : Casing) (domain : Text) (ds : List Text)
    → (any_domain casing domain ds ≡ true)
      ↔ ((d : Text) × In d ds × (casing.equal_fold domain d ≡ true))
unfolding any_domain
any_domain-In casing domain [] = (λ h. cc, λ s. absurd s.1)
any_domain-In casing domain (d ∷ ds) = (
  λ h. elim (Bool-cases (casing.equal_fold domain d)) [
    | inl t ↦ (d, inl refl, t)
    | inr f ↦
        let (e, i, same) = (any_domain-In casing domain ds).0 (ground (arith, f, h)) in
        (e, inr i, same)
  ],
  λ (e, i, same). elim i [
    | inl f ↦ ground (arith, same, ap (casing.equal_fold domain) f)
    | inr j ↦ ground (arith, (any_domain-In casing domain ds).1 (e, j, same))
  ],
)

domain_allowed-In :
    (casing : Casing) (email : Text) (ds : List Text)
    → (domain_allowed casing email ds ≡ true) ↔ (
        (name domain listed : Text) × (split at_sign email ≡ name ∷ domain ∷ [])
        × In listed ds
        × (casing.equal_fold domain listed ≡ true))
unfolding domain_allowed
domain_allowed-In casing email ds = (
  λ h. elim (List-cases (split at_sign email)) [
    | inl e ↦ ground (arith, e, h)
    | inr (name, r, e) ↦ elim (List-cases r) [
      | inl f ↦ ground (arith, e, f, h)
      | inr (domain, q, f) ↦ elim (List-cases q) [
        | inr (x, xs, g) ↦ ground (arith, e, f, g, h)
        | inl g ↦
            let (d, i, same) = (any_domain-In casing domain ds).0 (ground (arith, e, f, g, h)) in
            (name, domain, d, e ∙ ap (name ∷◌) (f ∙ ap (domain ∷◌) g), i, same)
      ]
    ]
  ],
  λ (name, domain, d, e, i, same).
      ground (arith, e, (any_domain-In casing domain ds).1 (d, i, same)),
)

put_filled : (k : Text) (b : Bool) (m : Map Bool) → put k b m ≡ [] → ⊥
unfolding put
put_filled k b [] e = cc
put_filled k b ((j, c) ∷ m) e = elim (Bool-cases (j == k)) [
  | inl t ↦ ground (arith, t, e)
  | inr f ↦ ground (arith, f, e)
]

add_allowed_filled :
    (casing : Casing) (users : List Text) (m : Map Bool)
    → (m ≡ [] → ⊥)
    → add_allowed casing users m ≡ []
    → ⊥
unfolding add_allowed
add_allowed_filled casing [] m n e = n e
add_allowed_filled casing (u ∷ users) m n e =
    add_allowed_filled casing users _ (put_filled (casing.to_lower u) true m) e

add_allowed_empty :
    (casing : Casing) (users : List Text) → add_allowed casing users [] ≡ [] → users ≡ []
unfolding add_allowed
add_allowed_empty casing [] e = refl
add_allowed_empty casing (u ∷ users) e =
    absurd (add_allowed_filled casing users _ (put_filled (casing.to_lower u) true []) e)

kept :
    (casing : Casing) (cfg : OidcConfig) (provider : Option Text) (endpoint : Endpoint)
    (scopes : List Text) (a : OidcAuth)
    → ok (auth_with casing cfg provider endpoint scopes) ≡ ok a
    → (a.allowed_users ≡ add_allowed casing cfg.allowed_users [])
      × (a.allowed_domains ≡ cfg.allowed_domains)
kept casing cfg provider endpoint scopes a e =
    let same = ok_injective e in
    (
      sym (ap (λ (x : OidcAuth). x.allowed_users) same),
      sym (ap (λ (x : OidcAuth). x.allowed_domains) same),
    )

-- What NewOIDCAuth makes of the lists.
allowed_of :
    (casing : Casing) (discover : Text → Result Text) (cfg : OidcConfig) (a : OidcAuth)
    → new_oidc_auth casing discover cfg ≡ ok a
    → (a.allowed_users ≡ add_allowed casing cfg.allowed_users [])
      × (a.allowed_domains ≡ cfg.allowed_domains)
unfolding new_oidc_auth
allowed_of casing discover cfg a e = elim (Bool-cases (cfg.provider == codes "github")) [
  | inl t ↦ kept casing cfg none Endpoint.github (codes "user:email" ∷ []) a (ground (arith, t, e))
  | inr f ↦ elim (Result-cases (issuer_of cfg)) [
    | inr (x, i) ↦ ground (arith, f, i, e)
    | inl (issuer, i) ↦ elim (Result-cases (discover issuer)) [
      | inr (x, d) ↦ ground (arith, f, i, d, e)
      | inl (found, d) ↦
          kept casing cfg (some issuer) (Endpoint.discovered found) (scopes_of cfg) a
            (ground (arith, f, i, d, e))
    ]
  ]
]

-- Under the configuration with which NewOIDCAuth succeeds, an address is allowed exactly if in
-- lower case it is a listed user in lower case, or in lower case it has one at sign, and the
-- domain behind it is equal to a listed domain under case folding, or no user and no domain is
-- listed. Lower case and folding are those of the library, whatever they are.
pub is_user_allowed_lem :
    (casing : Casing) (discover : Text → Result Text) (cfg : OidcConfig) (a : OidcAuth)
    (email : Text)
    → new_oidc_auth casing discover cfg ≡ ok a
    → (is_user_allowed casing a email ≡ true) ↔ Permitted casing cfg email
unfolding is_user_allowed Permitted add_allowed get
is_user_allowed_lem casing discover cfg a email e =
    let (users, domains) = allowed_of casing discover cfg a e in
    let email' = casing.to_lower email in
    let listed = add_allowed-set casing cfg.allowed_users [] email' in
    let by_domain = domain_allowed-In casing email' cfg.allowed_domains in
    let here : set_in a.allowed_users email'
        ≡ set_in (add_allowed casing cfg.allowed_users []) email' =
      ap (λ m. set_in m email') users in
    let there : domain_allowed casing email' a.allowed_domains
        ≡ domain_allowed casing email' cfg.allowed_domains =
      ap (domain_allowed casing email') domains in
    (
      λ h. elim (Bool-cases (set_in a.allowed_users email')) [
        | inl t ↦ elim (listed.0 (sym here ∙ t)) [ inl u ↦ inl u | inr n ↦ cc ]
        | inr f ↦ elim (Bool-cases (domain_allowed casing email' a.allowed_domains)) [
          | inl t ↦ inr (inl (by_domain.0 (sym there ∙ t)))
          | inr g ↦ elim (List-cases a.allowed_users) [
            | inr (x, xs, n) ↦ ground (arith, f, g, n, h)
            | inl n ↦ elim (List-cases a.allowed_domains) [
              | inr (x, xs, k) ↦ ground (arith, f, g, n, k, h)
              | inl k ↦ inr (
                  inr (add_allowed_empty casing cfg.allowed_users (sym users ∙ n), sym domains ∙ k))
            ]
          ]
        ]
      ],
      λ s. elim s [
        | inl u ↦ ground (arith, here ∙ listed.1 (inl u))
        | inr (inl d) ↦ ground (arith, there ∙ by_domain.1 d)
        | inr (inr (n, k)) ↦
            ground (arith, users ∙ ap (λ us. add_allowed casing us []) n, domains ∙ k)
      ],
    )
