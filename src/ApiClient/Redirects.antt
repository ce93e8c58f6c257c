-- ===== src/ApiClient/Redirects.antt =====
-- `newHTTPClient`: the redirects that a request may follow, with `CheckRedirect`.
use load_balancer_controller.Base.{
  ℕ, zero, suc, ◌+◌, ◌≤◌, ◌<◌, leb, true, Option, some, none, List, [], ◌∷◌, ◌++◌, ◌≡◌, refl, ap,
  ◌∙◌, ◌⊎◌, inl, inr, if◌then◌else◌, length, length-append, is_some, All, All-append, arith,
}
use load_balancer_controller.Base.Text.{Text}
use mathlib.Core.Path.{subst}
use load_balancer_controller.Base.Outcome.{Outcome, ok, err, bind-eq-ok, ok-inj, if-err}
use load_balancer_controller.ApiClient.Url.{
  ApiFailure, too_many_redirects, blocked_redirect, Url, origin_parts,
}
use load_balancer_controller.ApiClient.Origin.{
  Web, RequestOrigin, ClientOpts, Request, resolve, new_request, authorized, resolve-origin,
}

pub record Answer : Type 0 where
  pub status : ℕ
  -- `X-API-Schemas`
  pub schemas : Text
  pub body : Text

-- What a request brings: the answer, or the request that the HTTP client makes of a redirect, with
-- whatever headers it carries over.
pub data Reply : Type 0 where
  answer : Answer → Reply
  redirect : Request → Reply

module _ (w : Web) (origin : Option RequestOrigin) where
  unfoldable pub keep_authorization : List Request → Request → Request
  keep_authorization [] req = record req { authorization = none }
  keep_authorization (first ∷ rest) req = record req { authorization = first.authorization }

  blocked_unless : Outcome ApiFailure Url → Request → Outcome ApiFailure Request
  blocked_unless (err e) req = err blocked_redirect
  blocked_unless (ok u) req = ok req

  -- `via`: the requests made already, the oldest first.
  unfoldable pub check_redirect : List Request → Request → Outcome ApiFailure Request
  unfolding blocked_unless resolve keep_authorization
  check_redirect via req =
      if leb 10 (length via)
      then err too_many_redirects
      else blocked_unless (resolve w origin req.url) (keep_authorization via req)

  module _ (net : Request → Outcome ApiFailure Reply) where
    -- The requests that are sent, the oldest first, and what the last comes to; `none` when the
    -- fuel has run out.
    next_step :
        (Request → List Request × Option (Outcome ApiFailure Answer))
        → List Request
        → Outcome ApiFailure Reply
        → List Request × Option (Outcome ApiFailure Answer)
    unfolding check_redirect
    next_step go via (err e) = (via, some (err e))
    next_step go via (ok (answer a)) = (via, some (ok a))
    next_step go via (ok (redirect req)) = elim (check_redirect via req) [
      | err e ↦ (via, some (err e))
      | ok req' ↦ go req'
    ]

    unfoldable pub follow :
        ℕ → List Request → Request → List Request × Option (Outcome ApiFailure Answer)
    unfolding next_step
    follow zero via req = (via, none)
    follow (suc fuel) via req =
        let via' = via ++ (req ∷ []) in next_step (λ req'. follow fuel via' req') via' (net req)

    unfoldable pub send : Request → List Request × Option (Outcome ApiFailure Answer)
    unfolding follow
    send req = follow 10 [] req

    -- A property of what a step comes to: of an end with the requests made, and of what follows a
    -- redirect that is allowed.
    next_step-cases {ℓ} :
        (P : List Request × Option (Outcome ApiFailure Answer) → Type ℓ)
        (go : Request → List Request × Option (Outcome ApiFailure Answer)) (via : List Request)
        (r : Outcome ApiFailure Reply)
        → ((out : Outcome ApiFailure Answer) → P (via, some out))
        → ((req req' : Request) → check_redirect via req ≡ ok req' → P (go req'))
        → P (next_step go via r)
    unfolding next_step
    next_step-cases P go via (err e) stop more = stop (err e)
    next_step-cases P go via (ok (answer a)) stop more = stop (ok a)
    next_step-cases P go via (ok (redirect req)) stop more =
        after_check (check_redirect via req) refl
      where
        after_check :
            (c : Outcome ApiFailure Request)
            → check_redirect via req ≡ c
            → P (elim c [ err e ↦ (via, some (err e)) | ok req' ↦ go req' ])
        after_check (err e) h = stop (err e)
        after_check (ok req') h = more req req' h

    -- What an allowed redirect has passed.
    check_redirect-ok :
        (via : List Request) (req req' : Request)
        → check_redirect via req ≡ ok req'
        → (length via < 10)
          × ((u : Url) × (resolve w origin req.url ≡ ok u))
          × (keep_authorization via req ≡ req')
    unfolding check_redirect
    check_redirect-ok via req req' h =
        let (few, h') = if-err (leb 10 (length via)) too_many_redirects _ h in
        passed (resolve w origin req.url) refl h' (ground arith)
      where
        passed :
            (r : Outcome ApiFailure Url)
            → resolve w origin req.url ≡ r
            → blocked_unless r (keep_authorization via req) ≡ ok req'
            → length via < 10
            → (length via < 10)
              × ((u : Url) × (resolve w origin req.url ≡ ok u))
              × (keep_authorization via req ≡ req')
        passed (err e) q k l = absurd (cc k)
        passed (ok u) q k l = (l, (u, q), ok-inj k)

    follow-bounded :
        (fuel : ℕ) (via : List Request) (req : Request)
        → length via + suc fuel ≡ 11
        → 1 ≤ fuel
        → let out = follow fuel via req in (length out.0 ≤ 10) × (is_some out.1 ≡ true)
    unfolding follow
    follow-bounded zero via req l k = absurd (omega arith)
    follow-bounded (suc fuel) via req l k =
        let via' = via ++ (req ∷ []) in
        let n : length via' ≡ length via + 1 = length-append via (req ∷ []) in
        next_step-cases (λ out. (length out.0 ≤ 10) × (is_some out.1 ≡ true))
          (λ req'. follow fuel via' req') via' (net req) (λ out. (omega (arith, n), refl))
          (λ r r' c.
            follow-bounded fuel via' r' (omega (arith, n))
              (omega (arith, n, (check_redirect-ok via' r r' c).0)))

-- A request with the credentials, to a URL of the origin or to one that was checked to be of it.
abbrev pub IsSafe : Web → RequestOrigin → Option (Text × Text) → Request → Type 0
IsSafe w o auth r =
    (r.authorization ≡ auth)
    × ((u : Url) × (origin_parts w.canonical_ip u ≡ ok o.origin)
        × ((r.url ≡ w.show u) ⊎ (resolve w (some o) r.url ≡ ok u)))

module _ (w : Web) (o : RequestOrigin) (net : Request → Outcome ApiFailure Reply) where
  keep_authorization-head :
      (auth : Option (Text × Text)) (via : List Request) (req first : Request)
      → All (IsSafe w o auth) (via ++ (first ∷ []))
      → (keep_authorization w (some o) (via ++ (first ∷ [])) req).authorization ≡ auth
  unfolding keep_authorization
  keep_authorization-head auth [] req first a = a.0.0
  keep_authorization-head auth (v ∷ via) req first a = a.0.0

  keep_authorization-url :
      (via : List Request) (req : Request) → (keep_authorization w (some o) via req).url ≡ req.url
  unfolding keep_authorization
  keep_authorization-url [] req = refl
  keep_authorization-url (v ∷ via) req = refl

  check_redirect-IsSafe :
      (auth : Option (Text × Text)) (via : List Request) (first req req' : Request)
      → All (IsSafe w o auth) (via ++ (first ∷ []))
      → check_redirect w (some o) (via ++ (first ∷ [])) req ≡ ok req'
      → IsSafe w o auth req'
  check_redirect-IsSafe auth via first req req' a h =
      let all_via = via ++ (first ∷ []) in
      let (l, (u, q), e) = check_redirect-ok w (some o) net all_via req req' h in
      subst (IsSafe w o auth) e (
        keep_authorization-head auth via req first a,
        (
          u,
          resolve-origin w o req.url u q,
          inr (ap (resolve w (some o)) (keep_authorization-url all_via req) ∙ q),
        ),
      )

  follow-IsSafe :
      (auth : Option (Text × Text)) (fuel : ℕ) (via : List Request) (req : Request)
      → All (IsSafe w o auth) via
      → IsSafe w o auth req
      → All (IsSafe w o auth) (follow w (some o) net fuel via req).0
  unfolding follow
  follow-IsSafe auth zero via req a s = a
  follow-IsSafe auth (suc fuel) via req a s =
      let via' = via ++ (req ∷ []) in
      let a' = All-append (IsSafe w o auth) via (req ∷ []) a (s, tt) in
      next_step-cases w (some o) net (λ out. All (IsSafe w o auth) out.0)
        (λ req'. follow w (some o) net fuel via' req') via' (net req) (λ out. a')
        (λ r r' c.
          follow-IsSafe auth fuel via' r' a' (check_redirect-IsSafe auth via req r r' a' c))

  -- However the network answers, a request that the client has made is followed by redirects to an
  -- end: at most ten requests are sent. Each of them carries the client's credentials, and its URL
  -- is one of the scheme, host and port that the client was made with: either the URL that the
  -- client resolved itself, or one that the redirect check resolved to that origin.
  pub send-IsSafe :
      (opts : ClientOpts) (method value body : Text) (req : Request)
      → new_request w (some o) (some opts) method value body ≡ ok req
      → let out = send w (some o) net req in
        All (IsSafe w o (some (opts.access_key, opts.secret_key))) out.0
        × (length out.0 ≤ 10)
        × (is_some out.1 ≡ true)
  unfolding send new_request authorized
  send-IsSafe opts method value body req h =
      let (u, q, h') = bind-eq-ok (resolve w (some o) value) _ h in
      let auth : Option (Text × Text) = some (opts.access_key, opts.secret_key) in
      let safe : IsSafe w o auth req =
        subst (IsSafe w o auth) (ok-inj h') (refl, (u, resolve-origin w o value u q, inl refl)) in
      let (few, ends) = follow-bounded w (some o) net 10 [] req refl (omega arith) in
      (follow-IsSafe auth 10 [] req tt safe, few, ends)
