-- ===== src/Metadata/Confined.antt =====
-- Where the requests to the metadata service go.
use load_balancer_controller.Base.{
  ℕ, zero, suc, ◌+◌, ◌≤◌, ◌<◌, Bool, true, ◌&&◌, Option, some, none, List, [], ◌∷◌, ◌++◌, ◌≡◌, refl,
  ◌∙◌, is_some, length, length-append, all, all-append, arith,
}
use load_balancer_controller.Base.Text.{Text, equal_fold, equal_fold_refl, equal_fold_trans}
use mathlib.Core.Path.{subst}
use load_balancer_controller.Base.Outcome.{Outcome, ok, err, ok-inj, if-err}
use load_balancer_controller.Metadata.Client.{
  ClientFailure, Location, HttpClient, Reply, answer, redirect, check_redirect, step, follow,
  limited, send_to, send_request, invalid_path, traversal, endpoint, reference_of, target_of,
}

-- The scheme and the host are those of the base, up to case.
unfoldable pub is_at : Location → Location → Bool
unfolding equal_fold
is_at base l = equal_fold l.scheme base.scheme && equal_fold l.host base.host

is_at_trans : (a b c : Location) → is_at a b ≡ true → is_at b c ≡ true → is_at a c ≡ true
unfolding is_at
is_at_trans a b c h k =
    ground
      (arith, equal_fold_trans c.scheme b.scheme a.scheme, equal_fold_trans c.host b.host a.host)

-- What an allowed redirect has passed.
check_redirect-ok :
    (first : Location) (rest : List Location) (next : Location) {b : Bool}
    → check_redirect (first ∷ rest) next ≡ ok b
    → (is_at first next ≡ true) × (suc (length rest) < 5)
unfolding check_redirect is_at
check_redirect-ok first rest next h = (ground arith, ground arith)

check_redirect-via :
    (base : Location) (via : List Location) (request next : Location) {b : Bool}
    → all (is_at base) (via ++ (request ∷ [])) ≡ true
    → check_redirect (via ++ (request ∷ [])) next ≡ ok b
    → (is_at base next ≡ true) × (length (via ++ (request ∷ [])) < 5)
unfolding all
check_redirect-via base [] request next a h =
    let (s, l) = check_redirect-ok request [] next h in
    (is_at_trans base request next (ground arith) s, l)
check_redirect-via base (v ∷ vs) request next a h =
    let (s, l) = check_redirect-ok v (vs ++ (request ∷ [])) next h in
    (is_at_trans base v next (ground arith) s, l)

module _ (base : Location) (net : Location → Outcome ClientFailure Reply) where
  step-cases {ℓ} :
      (P : List Location × Option (Outcome ClientFailure (ℕ × Text)) → Type ℓ)
      (go : Location → List Location × Option (Outcome ClientFailure (ℕ × Text)))
      (via : List Location) (r : Outcome ClientFailure Reply)
      → ((out : Outcome ClientFailure (ℕ × Text)) → P (via, some out))
      → ((next : Location) (b : Bool) → check_redirect via next ≡ ok b → P (go next))
      → P (step net go via r)
  unfolding step
  step-cases P go via (err e) stop more = stop (err e)
  step-cases P go via (ok (answer code body)) stop more = stop (ok (code, body))
  step-cases P go via (ok (redirect next)) stop more = after_check (check_redirect via next) refl
    where
      after_check :
          (c : Outcome ClientFailure Bool)
          → check_redirect via next ≡ c
          → P (elim c [ err e ↦ (via, some (err e)) | ok _ ↦ go next ])
      after_check (err e) h = stop (err e)
      after_check (ok b) h = more next b h

  abbrev IsConfined : List Location × Option (Outcome ClientFailure (ℕ × Text)) → Type 0
  IsConfined out = (all (is_at base) out.0 ≡ true) × (length out.0 ≤ 5) × (is_some out.1 ≡ true)

  -- `first` is the first of the requests that are made when this one is, behind `via`.
  follow-IsConfined :
      (fuel : ℕ) (via : List Location) (request : Location)
      → length via + suc fuel ≡ 6
      → 1 ≤ fuel
      → all (is_at base) via ≡ true
      → is_at base request ≡ true
      → IsConfined (follow net fuel via request)
  unfolding follow
  follow-IsConfined zero via request l k a h = absurd (omega arith)
  follow-IsConfined (suc fuel) via request l k a h =
      let via' = via ++ (request ∷ []) in
      let n : length via' ≡ length via + 1 = length-append via (request ∷ []) in
      let a' : all (is_at base) via' ≡ true =
        all-append (is_at base) via (request ∷ []) ∙ (unfold all in rw (a, h) refl) in
      step-cases IsConfined (λ next. follow net fuel via' next) via' (net request)
        (λ out. (a', omega (arith, n), refl))
        (λ next b c.
          let (s, m) = check_redirect-via base via request next a' c in
          follow-IsConfined fuel via' next (omega (arith, n)) (omega (arith, n, m)) a' s)

limited-some :
    (net : Location → Outcome ClientFailure Reply) (r : Option (Outcome ClientFailure (ℕ × Text)))
    → is_some r ≡ true
    → is_some (limited net r) ≡ true
unfolding limited
limited-some net none h = h
limited-some net (some (err e)) h = refl
limited-some net (some (ok x)) h = refl

send_to-confined :
    (net : Location → Outcome ClientFailure Reply) (base target : Location)
    → is_at base target ≡ true
    → let out = send_to net (ok target) in
      (all (is_at base) out.0 ≡ true) × (length out.0 ≤ 5) × (is_some out.1 ≡ true)
unfolding send_to
send_to-confined net base target h =
    let (a, l, s) =
      follow-IsConfined base net 5 [] target refl (omega arith) (unfold all in refl) h in
    (a, l, limited-some net (follow net 5 [] target).1 s)

is_at-path :
    (base : Location) (path escaped raw_query : Text)
    → is_at base (record base { path = path; escaped = escaped; raw_query = raw_query }) ≡ true
unfolding is_at
is_at-path base path escaped raw_query =
    rw (equal_fold_refl base.scheme, equal_fold_refl base.host) refl

target_of-is_at :
    (parse : Text → Outcome ClientFailure Location) (is_ip : Text → Bool) (client : HttpClient)
    (reference : Location) {target : Location}
    → target_of parse is_ip client reference ≡ ok target
    → is_at client.base_url target ≡ true
unfolding target_of
target_of-is_at parse is_ip client reference h =
    let (a, h1) = if-err _ invalid_path _ h in
    let (b, h2) = if-err _ traversal _ h1 in
    subst (λ t. is_at client.base_url t ≡ true) (ok-inj h2) (is_at-path client.base_url _ _ _)

-- However the metadata service answers, a request of a metadata client, for any path, is sent with
-- the scheme and the host of the client's base URL, and so is every redirect that it follows; at
-- most five requests are made, and they come to an end.
pub send_request-confined :
    (parse : Text → Outcome ClientFailure Location) (is_ip : Text → Bool)
    (net : Location → Outcome ClientFailure Reply) (client : HttpClient) (path : Text)
    → let out = send_request parse is_ip net client path in
      (all (is_at client.base_url) out.0 ≡ true) × (length out.0 ≤ 5) × (is_some out.1 ≡ true)
unfolding send_request
send_request-confined parse is_ip net client path = made (endpoint parse is_ip client path) refl
  where
    reference :
        (r : Outcome ClientFailure Location) {target : Location}
        → reference_of parse is_ip client r ≡ ok target
        → is_at client.base_url target ≡ true
    reference (err e) h = unfold reference_of in absurd (cc h)
    reference (ok l) h = target_of-is_at parse is_ip client l (unfold reference_of in h)

    made :
        (r : Outcome ClientFailure Location)
        → endpoint parse is_ip client path ≡ r
        → let out = send_to net r in
          (all (is_at client.base_url) out.0 ≡ true) × (length out.0 ≤ 5) × (is_some out.1 ≡ true)
    made (err e) h = unfold send_to all in (refl, omega arith, refl)
    made (ok target) h =
        send_to-confined net client.base_url target (reference (parse path) (unfold endpoint in h))
