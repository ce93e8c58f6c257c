-- ===== src/Provider/Custom/Cookies.antt =====
-- The cookie that the backends of `BuildCustomConfig` share.
use load_balancer_controller.Base.{
  true, false, Option, some, none, List, [], ◌∷◌, ◌≡◌, refl, sym, ap, ◌∙◌, if◌then◌else◌, map,
  is_empty, arith, inl, inr, Bool-cases, ◌⊎◌,
}
use load_balancer_controller.Base.Text.{Text}
use load_balancer_controller.Base.Dict.{Dict}
use load_balancer_controller.Config.{BackendService, FrontendService, StickinessPolicy}
use load_balancer_controller.Provider.Custom.Write.{
  write_backends, write_backend, write_frontends, write_frontend, is_sticky, name_cookie, has_mode,
}

-- The UUID that names the cookie: that of the first backend in a frontend with cookies.
first_uuid : List BackendService → Option Text
first_uuid [] = none
first_uuid (be ∷ bes) = some be.uuid

unfoldable pub first_sticky : Option StickinessPolicy → List FrontendService → Option Text
unfolding is_sticky first_uuid
first_sticky policy [] = none
first_sticky policy (fe ∷ fes) =
    let rest = first_sticky policy fes in
    if is_sticky policy fe
    then elim (first_uuid fe.backend_services) [ none ↦ rest | some u ↦ some u ]
    else rest

name_cookie-empty :
    (p : StickinessPolicy) (u : Text)
    → p.cookie ≡ []
    → is_empty u ≡ false
    → name_cookie u (some p) ≡ name_cookie u (some (record p { cookie = u }))
unfolding name_cookie
name_cookie-empty p u c n = rw (c, n) refl

backends-named :
    (custom : Dict (List Text)) (p : StickinessPolicy) (be : BackendService)
    (bes : List BackendService)
    → p.cookie ≡ []
    → is_empty be.uuid ≡ false
    → write_backends custom (some p) (be ∷ bes)
      ≡ write_backends custom (some (record p { cookie = be.uuid })) (be ∷ bes)
unfolding write_backends
backends-named custom p be bes c n =
    ap (λ q. let rest = write_backends custom q bes in (rest.0, write_backend custom q be ∷ rest.1))
      (name_cookie-empty p be.uuid c n)

abbrev onto :
    FrontendService
    → Option StickinessPolicy × List FrontendService
    → Option StickinessPolicy × List FrontendService
onto fe r = (r.0, fe ∷ r.1)

-- A frontend, and what follows it, as a function of what its backends became.
abbrev with_backends :
    Dict (List Text)
    → FrontendService
    → List FrontendService
    → Option StickinessPolicy × List BackendService
    → Option StickinessPolicy × List FrontendService
unfolding write_frontends
with_backends custom fe fes w =
    let rest = write_frontends custom w.0 fes in (rest.0, write_frontend custom w.1 fe ∷ rest.1)

write_frontends-sticky :
    (custom : Dict (List Text)) (policy : Option StickinessPolicy) (fe : FrontendService)
    (fes : List FrontendService)
    → is_sticky policy fe ≡ true
    → write_frontends custom policy (fe ∷ fes)
      ≡ with_backends custom fe fes (write_backends custom policy fe.backend_services)
unfolding write_frontends with_backends
write_frontends-sticky custom policy fe fes e = rw e refl

write_frontends-plain :
    (custom : Dict (List Text)) (policy : Option StickinessPolicy) (fe : FrontendService)
    (fes : List FrontendService)
    → is_sticky policy fe ≡ false
    → write_frontends custom policy (fe ∷ fes)
      ≡ with_backends custom fe fes (policy, (write_backends custom none fe.backend_services).1)
unfolding write_frontends with_backends
write_frontends-plain custom policy fe fes e = rw e refl

-- The three cases of `first_sticky`.
module _ (policy : Option StickinessPolicy) (fe : FrontendService)
    (fes : List FrontendService) where
  first_sticky-skip :
      is_sticky policy fe ≡ false → first_sticky policy (fe ∷ fes) ≡ first_sticky policy fes
  unfolding first_sticky
  first_sticky-skip e = rw e refl

  first_sticky-empty :
      fe.backend_services ≡ [] → first_sticky policy (fe ∷ fes) ≡ first_sticky policy fes
  unfolding first_sticky first_uuid
  first_sticky-empty k = rw k (ground arith)

  first_sticky-found :
      (be : BackendService) (bes : List BackendService)
      → is_sticky policy fe ≡ true
      → fe.backend_services ≡ be ∷ bes
      → first_sticky policy (fe ∷ fes) ≡ some be.uuid
  unfolding first_sticky first_uuid
  first_sticky-found be bes e k = rw (e, k) refl

some-inj {ℓ} : {A : Type ℓ} {a b : A} → some a ≡ some b → a ≡ b
some-inj h = cc h

List-cases {ℓ} : {A : Type ℓ} (xs : List A) → (xs ≡ []) ⊎ ((x : A) × (ys : List A) × (xs ≡ x ∷ ys))
List-cases [] = inl refl
List-cases (x ∷ xs) = inr (x, xs, refl)

-- The policy that names no cookie is as good as one that names the first UUID.
write_frontends-named :
    (custom : Dict (List Text)) (p : StickinessPolicy) (u : Text) (fes : List FrontendService)
    → p.cookie ≡ []
    → is_empty u ≡ false
    → first_sticky (some p) fes ≡ some u
    → write_frontends custom (some p) fes
      ≡ write_frontends custom (some (record p { cookie = u })) fes
unfolding is_sticky has_mode with_backends
write_frontends-named custom p u [] c n h = unfold first_sticky in absurd (cc h)
write_frontends-named custom p u (fe ∷ fes) c n h =
    let p' = record p { cookie = u } in
    let same = write_frontends-named custom p u fes c n in
    elim (Bool-cases (is_sticky (some p) fe)) [
      | inr e ↦
          write_frontends-plain custom (some p) fe fes e
          ∙ ap (onto (write_frontend custom (write_backends custom none fe.backend_services).1 fe))
              (same (sym (first_sticky-skip (some p) fe fes e) ∙ h))
          ∙ sym (write_frontends-plain custom (some p') fe fes e)
      | inl e ↦
          write_frontends-sticky custom (some p) fe fes e
          ∙ elim (List-cases fe.backend_services) [
            | inl k ↦ rw k (
                ap (onto (write_frontend custom [] fe))
                  (same (sym (first_sticky-empty (some p) fe fes k) ∙ h)))
            | inr (be, bes, k) ↦
                let named = some-inj (sym (first_sticky-found (some p) fe fes be bes e k) ∙ h) in
                rw k (
                  ap (with_backends custom fe fes) (
                    backends-named custom p be bes c (rw named n)
                    ∙ ap (λ v. write_backends custom (some (record p { cookie = v })) (be ∷ bes))
                        named))
          ]
          ∙ sym (write_frontends-sticky custom (some p') fe fes e)
    ]

-- The frontends under one policy that does not change: a frontend that has cookies has all its
-- backends written with the policy, and any other one with none.
abbrev pub under_policy :
    Dict (List Text) → Option StickinessPolicy → FrontendService → FrontendService
under_policy custom policy fe =
    write_frontend custom
      (map (write_backend custom (if is_sticky policy fe then policy else none))
        fe.backend_services)
      fe

write_backends-none :
    (custom : Dict (List Text)) (bes : List BackendService)
    → write_backends custom none bes ≡ (none, map (write_backend custom none) bes)
unfolding write_backends name_cookie
write_backends-none custom [] = refl
write_backends-none custom (be ∷ bes) = rw (write_backends-none custom bes) refl

write_backends-kept :
    (custom : Dict (List Text)) (q : StickinessPolicy) (bes : List BackendService)
    → is_empty q.cookie ≡ false
    → write_backends custom (some q) bes ≡ (some q, map (write_backend custom (some q)) bes)
unfolding write_backends name_cookie
write_backends-kept custom q [] h = refl
write_backends-kept custom q (be ∷ bes) h = rw h (rw (write_backends-kept custom q bes h) refl)

write_frontends-kept :
    (custom : Dict (List Text)) (q : StickinessPolicy) (fes : List FrontendService)
    → is_empty q.cookie ≡ false
    → write_frontends custom (some q) fes ≡ (some q, map (under_policy custom (some q)) fes)
unfolding write_frontends
write_frontends-kept custom q [] h = refl
write_frontends-kept custom q (fe ∷ fes) h =
    let rest = write_frontends-kept custom q fes h in
    elim (Bool-cases (is_sticky (some q) fe)) [
      | inl e ↦ rw (e, write_backends-kept custom q fe.backend_services h, rest) refl
      | inr e ↦ rw (e, write_backends-none custom fe.backend_services, rest) refl
    ]

-- When the policy has a mode and names no cookie, the cookie is the UUID of the first backend of
-- the first HTTP or HTTPS frontend that has one: the policy keeps that name, and each backend of
-- such a frontend is written with it, whatever its own UUID is; the backends of other frontends
-- have no cookie.
pub write_frontends-first_sticky :
    (custom : Dict (List Text)) (p : StickinessPolicy) (u : Text) (fes : List FrontendService)
    → p.cookie ≡ []
    → is_empty u ≡ false
    → first_sticky (some p) fes ≡ some u
    → let named = some (record p { cookie = u }) in
      write_frontends custom (some p) fes ≡ (named, map (under_policy custom named) fes)
write_frontends-first_sticky custom p u fes c n h =
    write_frontends-named custom p u fes c n h
    ∙ write_frontends-kept custom (record p { cookie = u }) fes n
