-- ===== src/Api/Guards.antt =====
-- The API's handlers: what reaches the manager, and what the answer says of it.
use docker_backup.Base.{
  ℕ, Bool, true, false, not, ◌&&◌, ◌||◌, leb, nat_eq, Option, none, some, [], ◌∷◌, ◌++◌, ◌≡◌, ◌≢◌,
  ◌⊎◌, ◌↔◌, inl, inr, refl, sym, ap, ◌∙◌, subst, arith, Text, Bool-cases, Option-cases, codes, ◌==◌,
  contains, slash, cut, split, List, trim_prefix, trim_space, Result, ok, err,
}
use docker_backup.Base.Strings.Laws.{
  ==→eq, ==_iff, ==_refl, cut-append, cut_sound, trim_prefix-append,
}
use docker_backup.Api.{
  Request, Response, Server, reply, container_and_key, handle_backup_run, handle_backup_delete,
  handle_backup_restore, delete_request, restore_request,
}

-- A container's name or a key that survives the trip: it is not empty and has no space around it.
pub record IsWord (s : Text) : Type 0 where
  pub not_empty : s ≢ []
  pub trimmed : trim_space s ≡ s

container_and_key-parts :
    (c k : Text)
    → contains slash c ≡ false
    → c ≢ []
    → k ≢ []
    → container_and_key (c ++ (slash ∷ k)) ≡ some (trim_space c, trim_space k)
unfolding container_and_key
container_and_key-parts c k h n m =
    ground (arith, cut-append slash c k h, ==_iff c [], ==_iff k [], n, m)

container_and_key-append :
    (container key : Text)
    → contains slash container ≡ false
    → IsWord container
    → IsWord key
    → container_and_key (container ++ (slash ∷ key)) ≡ some (container, key)
container_and_key-append container key h c k =
    container_and_key-parts container key h c.not_empty k.not_empty
    ∙ (λ i. some (c.trimmed i, k.trimmed i))

-- The rest of a path names a container and a key: they are what stands before and behind its first
-- slash, neither of them empty, without the space around them.
abbrev pub Parts : Text → Text → Text → Type 0
Parts rest container key =
    (c k : Text) × (rest ≡ c ++ (slash ∷ k))
    × (contains slash c ≡ false)
    × (c ≢ [])
    × (k ≢ [])
    × (container ≡ trim_space c)
    × (key ≡ trim_space k)

container_and_key-Parts :
    (rest : Text) (p : Text × Text) → container_and_key rest ≡ some p → Parts rest p.0 p.1
unfolding container_and_key
container_and_key-Parts rest p e = elim (Option-cases (cut slash rest)) [
  | inl n ↦ ground (arith, n, e)
  | inr ((c, k), f) ↦ elim (Bool-cases (c == [])) [
    | inl t ↦ ground (arith, f, t, e)
    | inr t ↦ elim (Bool-cases (k == [])) [
      | inl u ↦ ground (arith, f, t, u, e)
      | inr u ↦
          let both : (trim_space c, trim_space k) ≡ p = ground (arith, f, t, u, e) in
          (
            c,
            k,
            (cut_sound slash rest c k f).0,
            (cut_sound slash rest c k f).1,
            (λ z. ground (arith, t, ==_iff c [])),
            (λ z. ground (arith, u, ==_iff k [])),
            sym (ap (λ (q : Text × Text). q.0) both),
            sym (ap (λ (q : Text × Text). q.1) both),
          )
    ]
  ]
]

container_and_key-none :
    (rest : Text)
    → container_and_key rest ≡ none
    → (container key : Text) → Parts rest container key
    → ⊥
container_and_key-none rest e container key (c, k, same, h, n, m, _, _) =
    ground (arith, e, ap container_and_key same, container_and_key-parts c k h n m)

-- What is relied on of URLs: the path that a handler is given for the path that the client has put
-- in a URL, if the URL parses and the multiplexer does not redirect. A path of letters, digits and
-- "-._~:" whose segments are not empty, "." or ".." is not escaped, cleaned or cut.
abbrev plain_char : ℕ → Bool
plain_char c =
    (leb 97 c && leb c 122)
    || ((leb 65 c && leb c 90) || ((leb 45 c && leb c 58) || (nat_eq c 95 || nat_eq c 126)))

abbrev plain_segment : Text → Bool
plain_segment s = not (s == []) && (not (s == codes ".") && not (s == codes ".."))

abbrev every : {A : Type 0} → (A → Bool) → List A → Bool
every test [] = true
every test (x ∷ xs) = test x && every test xs

-- The path of a URL that is taken as it is.
pub record IsPlain (path : Text) : Type 0 where
  pub chars : every plain_char path ≡ true
  pub segments : every plain_segment (split slash (trim_prefix path (slash ∷ []))) ≡ true

-- What an answer after no call says: a 4xx status and no success.
abbrev pub IsRefusal : Response → Type 0
IsRefusal a = ((a.status ≡ 405) ⊎ (a.status ≡ 400)) × (a.success ≡ false)

-- The answer to a call tells its success.
abbrev pub Tells : Response → Result (Unit {0}) → Type 0
Tells a done = ((a.status ≡ 200) ↔ (done ≡ ok tt)) × ((a.success ≡ true) ↔ (done ≡ ok tt))

reply-Tells :
    (container key message : Text) (done : Result (Unit {0}))
    → Tells (reply container key message done) done
reply-Tells container key message (ok u) = ((λ e. refl, λ e. refl), (λ e. refl, λ e. refl))
reply-Tells container key message (err e) =
    ((λ h. ground arith, λ h. ground arith), (λ h. ground arith, λ h. ground arith))

module _ {W : Type 0} (s : Server W) (path_of : Text → Option Text)
    (plain : (path : Text) → IsPlain path → path_of path ≡ some path) where
  -- The request of `backup delete` reaches the handler and makes it delete that key of that
  -- container and answer with that call's result, if the container's name has no slash, neither it
  -- nor the key is empty or has space around it, and the path of the URL has only letters, digits
  -- and "-._~:/" and no segment that is empty, "." or "..". It is relied on that the path of such
  -- a URL reaches the handler as it is.
  pub handle_backup_delete_request :
      (container key : Text) (w : W)
      → IsPlain (codes "/backup/delete/" ++ (container ++ (slash ∷ key)))
      → contains slash container ≡ false
      → IsWord container
      → IsWord key
      → (r : Request) × (delete_request path_of container key ≡ some r)
        × (handle_backup_delete s r w ≡ (
          reply container key
              (codes "backup deleted successfully")
              (s.backup_deleter container key w).0,
          (s.backup_deleter container key w).1,
        ))
  unfolding handle_backup_delete
  handle_backup_delete_request container key w l h c k = (
    record {
      verb = codes "DELETE";
      path = codes "/backup/delete/" ++ (container ++ (slash ∷ key));
    },
    ground (arith, plain _ l),
    ground (
      arith,
      trim_prefix-append (codes "/backup/delete/") (container ++ (slash ∷ key)),
      container_and_key-append container key h c k,
      ==_refl (codes "DELETE"),
    ),
  )

  -- The request of `backup restore` makes the server restore that key to that container and
  -- answers with that call's result, under the same conditions.
  pub handle_backup_restore_request :
      (container key : Text) (w : W)
      → IsPlain (codes "/backup/restore/" ++ (container ++ (slash ∷ key)))
      → contains slash container ≡ false
      → IsWord container
      → IsWord key
      → (r : Request) × (restore_request path_of container key ≡ some r)
        × (handle_backup_restore s r w ≡ (
          reply container key
              (codes "backup restored successfully")
              (s.backup_restorer container key w).0,
          (s.backup_restorer container key w).1,
        ))
  unfolding handle_backup_restore
  handle_backup_restore_request container key w l h c k = (
    record { verb = codes "POST"; path = codes "/backup/restore/" ++ (container ++ (slash ∷ key)) },
    ground (arith, plain _ l),
    ground (
      arith,
      trim_prefix-append (codes "/backup/restore/") (container ++ (slash ∷ key)),
      container_and_key-append container key h c k,
      ==_refl (codes "POST"),
    ),
  )

-- The container and the key that the path of a request to delete names.
abbrev pub Deletes : Request → Text → Text → Type 0
Deletes r container key = Parts (trim_prefix r.path (codes "/backup/delete/")) container key

-- The container that the path of a request to run a backup names.
abbrev pub run_container : Request → Text
run_container r = trim_space (trim_prefix r.path (codes "/backup/run/"))

module _ {W : Type 0} (s : Server W) where
  -- Every request to delete is either refused with a 4xx status, and then nothing changes, and it
  -- is not a DELETE or its path names no container and key; or it is a DELETE and makes one call
  -- for the container and the key of its path, whose success the answer tells. They are what
  -- stands before and behind the first slash after /backup/delete/, neither of them empty, without
  -- the space around them.
  pub handle_backup_delete_cases :
      (r : Request) (w : W)
      → (IsRefusal (handle_backup_delete s r w).0
          × ((handle_backup_delete s r w).1 ≡ w)
          × ((r.verb ≢ codes "DELETE") ⊎ ((container key : Text) → Deletes r container key → ⊥)))
        ⊎ ((container : Text) × (key : Text) × (r.verb ≡ codes "DELETE")
            × Deletes r container key
            × ((handle_backup_delete s r w).1 ≡ (s.backup_deleter container key w).1)
            × Tells (handle_backup_delete s r w).0 (s.backup_deleter container key w).0)
  unfolding handle_backup_delete
  handle_backup_delete_cases r w = elim (Bool-cases (r.verb == codes "DELETE")) [
    | inr n ↦ inl (
      ground (arith, n),
      ground (arith, n),
      inl (λ z. ground (arith, n, ==_iff r.verb (codes "DELETE"))),
    )
    | inl t ↦
        elim (Option-cases (container_and_key (trim_prefix r.path (codes "/backup/delete/")))) [
          | inl e ↦
              inl (ground (arith, t, e), ground (arith, t, e), inr (container_and_key-none _ e))
          | inr (p, e) ↦ inr (
            p.0,
            p.1,
            ==→eq r.verb _ t,
            container_and_key-Parts _ p e,
            ground (arith, t, e),
            subst (λ (a : Response). Tells a (s.backup_deleter p.0 p.1 w).0)
                {x = reply p.0 p.1 (codes "backup deleted successfully")
                  (s.backup_deleter p.0 p.1 w).0}
                {y = (handle_backup_delete s r w).0} (ground (arith, t, e))
                (reply-Tells p.0 p.1 (codes "backup deleted successfully")
                  (s.backup_deleter p.0 p.1 w).0),
          )
        ]
  ]

  -- Every request to run a backup is either refused with a 4xx status, and then nothing changes,
  -- and it is not a POST or names no container; or it is a POST and makes one call for the
  -- container whose name stands behind /backup/run/, without the space around it and not empty,
  -- whose success the answer tells.
  pub handle_backup_run_cases :
      (r : Request) (w : W)
      → (IsRefusal (handle_backup_run s r w).0
          × ((handle_backup_run s r w).1 ≡ w)
          × ((r.verb ≢ codes "POST") ⊎ (run_container r ≡ [])))
        ⊎ ((r.verb ≡ codes "POST")
            × (run_container r ≢ [])
            × ((handle_backup_run s r w).1 ≡ (s.backup_trigger (run_container r) w).1)
            × Tells (handle_backup_run s r w).0 (s.backup_trigger (run_container r) w).0)
  unfolding handle_backup_run
  handle_backup_run_cases r w = elim (Bool-cases (r.verb == codes "POST")) [
    | inr n ↦ inl (
      ground (arith, n),
      ground (arith, n),
      inl (λ z. ground (arith, n, ==_iff r.verb (codes "POST"))),
    )
    | inl t ↦ elim (Bool-cases (run_container r == [])) [
      | inl e ↦ inl (ground (arith, t, e), ground (arith, t, e), inr (==→eq _ _ e))
      | inr e ↦ inr (
        ==→eq r.verb _ t,
        (λ z. ground (arith, e, ==_iff (run_container r) [])),
        ground (arith, t, e),
        subst (λ (a : Response). Tells a (s.backup_trigger (run_container r) w).0)
            {x = reply (run_container r) [] (codes "backup completed successfully")
              (s.backup_trigger (run_container r) w).0}
            {y = (handle_backup_run s r w).0} (ground (arith, t, e))
            (reply-Tells (run_container r) [] (codes "backup completed successfully")
              (s.backup_trigger (run_container r) w).0),
      )
    ]
  ]
