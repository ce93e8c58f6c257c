-- ===== src/Provider/Unique.antt =====
-- The UUIDs of the backends that `haproxyConfig.write` hands to the template.
use load_balancer_controller.Base.{
  any-append, Bool, false, ◌&&◌, ◌||◌, List, [], ◌∷◌, ◌++◌, ◌≡◌, refl, sym, ◌∙◌, inl, inr, arith,
  is_some, any, Bool-cases,
}
use load_balancer_controller.Base.Text.{Text, text_eq, text_eq_iff, text_eq_sym}
use load_balancer_controller.Base.Dict.{lookup, lookup-insert}
use load_balancer_controller.Config.{FrontendService, BackendService, LoadBalancerConfig}
use load_balancer_controller.Provider.Selection.{
  supported, Taken, take_backend, take_backends, take_frontends, select,
}

abbrev pub uuid_of : BackendService → Text
uuid_of be = be.uuid

abbrev pub has : Text → List BackendService → Bool
has u = any (λ be. text_eq be.uuid u)

-- No two have one UUID.
abbrev pub Distinct : List BackendService → Type 0
Distinct [] = Unit
Distinct (be ∷ bes) = (has be.uuid bes ≡ false) × Distinct bes

Distinct-concat :
    (xs : List BackendService) (be : BackendService)
    → has be.uuid xs ≡ false
    → Distinct xs
    → Distinct (xs ++ be ∷ [])
unfolding any
Distinct-concat [] be h d = (refl, tt)
Distinct-concat (x ∷ xs) be h (q, d) = (
  ground (
    arith,
    any-append (λ (b : BackendService). text_eq b.uuid x.uuid) xs (be ∷ []),
    text_eq_sym be.uuid x.uuid,
  ),
  Distinct-concat xs be (ground arith) d,
)

-- The map knows the UUIDs of the backends taken.
pub record Consistent (t : Taken) : Type 0 where
  pub distinct : Distinct t.backends
  pub known : (u : Text) → is_some (lookup u t.seen) ≡ has u t.backends

take_backend-Consistent :
    (be : BackendService) (t : Taken) → Consistent t → Consistent (take_backend be t)
unfolding take_backend any
take_backend-Consistent be t c = elim (Bool-cases (is_some (lookup be.uuid t.seen))) [
  | inl e ↦ rw e c
  | inr e ↦ rw e (record {
    distinct = Distinct-concat t.backends be (sym (c.known be.uuid) ∙ e) c.distinct;
    known = λ u. ground (
      arith,
      lookup-insert be.uuid u be.uuid t.seen,
      any-append (λ (b : BackendService). text_eq b.uuid u) t.backends (be ∷ []),
      c.known u,
    );
  })
]

take_backend-has :
    (be : BackendService) (t : Taken) (u : Text)
    → Consistent t
    → has u (take_backend be t).backends ≡ text_eq be.uuid u || has u t.backends
unfolding take_backend any
take_backend-has be t u c = elim (Bool-cases (is_some (lookup be.uuid t.seen))) [
  | inl e ↦ rw e (ground (arith, text_eq_iff be.uuid u, c.known be.uuid, c.known u))
  | inr e ↦
      rw e
        (ground (arith, any-append (λ (b : BackendService). text_eq b.uuid u) t.backends (be ∷ [])))
]

take_backends-lem :
    (bes : List BackendService) (t : Taken) (u : Text)
    → Consistent t
    → Consistent (take_backends bes t)
      × (has u (take_backends bes t).backends ≡ has u bes || has u t.backends)
unfolding take_backends any
take_backends-lem [] t u c = (c, refl)
take_backends-lem (be ∷ bes) t u c =
    let (c', h) = take_backends-lem bes (take_backend be t) u (take_backend-Consistent be t c) in
    (c', ground (arith, h, take_backend-has be t u c))

abbrev pub offers : Text → List FrontendService → Bool
offers u = any (λ fe. supported fe && has u fe.backend_services)

take_frontends-lem :
    (fes : List FrontendService) (t : Taken) (u : Text)
    → Consistent t
    → Consistent (take_frontends fes t)
      × (has u (take_frontends fes t).backends ≡ offers u fes || has u t.backends)
unfolding take_frontends any
take_frontends-lem [] t u c = (c, refl)
take_frontends-lem (fe ∷ fes) t u c = elim (Bool-cases (supported fe)) [
  | inl e ↦
      let (c1, h1) = take_backends-lem fe.backend_services t u c in
      let (c2, h2) = take_frontends-lem fes (take_backends fe.backend_services t) u c1 in
      rw e (c2, ground (arith, h1, h2))
  | inr e ↦ let (c2, h2) = take_frontends-lem fes t u c in rw e (c2, ground (arith, h2))
]

-- The backends that are written have different UUIDs, and a UUID is among them exactly when a
-- frontend with a supported protocol has a backend with it.
pub select-Distinct :
    (cfg : LoadBalancerConfig) (u : Text)
    → Distinct (select cfg).backends
      × (has u (select cfg).backends ≡ offers u cfg.frontend_services)
unfolding select any
select-Distinct cfg u =
    let start : Taken = record { seen = []; backends = [] } in
    let (c, h) =
      take_frontends-lem cfg.frontend_services start u
        (record { distinct = tt; known = λ v. unfold lookup in refl }) in
    (c.distinct, ground (arith, h))
