-- ===== src/ApiClient/Origin.antt =====
-- `requestOrigin`, `NormalizeUrl`, `newRequest` and `defaultTimeout`.
use load_balancer_controller.Base.{
  Bool, true, not, ◌||◌, Option, some, none, List, [], ◌∷◌, ◌++◌, ◌≡◌, refl, sym, ap, ◌∙◌,
  if◌then◌else◌, is_empty, arith,
}
use load_balancer_controller.Base.Text.{
  Text, codes, text_eq, text_eq_iff, to_lower, has_prefix, atoi, ℤ, pos, int_eq,
}
use load_balancer_controller.Base.Outcome.{
  Outcome, ok, err, ◌>>=◌, bind-eq-ok, ok-inj, if-err, if-ok,
}
use load_balancer_controller.ApiClient.Url.{
  ApiFailure, no_origin, cross_origin, no_credentials, Url, Origin, origin_parts, origin_of,
  port_of, split_host_port,
}

-- The standard library's and the operating system's part.
pub record Web : Type 0 where
  pub canonical_ip : Text → Option Text
  pub parse : Text → Outcome ApiFailure Url
  pub show : Url → Text
  -- of a base and a reference
  pub resolve_reference : Url → Url → Url
  -- the query of a text with filters added to it
  pub add_query : Text → List (Text × List Text) → Outcome ApiFailure Text

-- `NormalizeUrl`. The three bytes `/v1` are at the front of the path.
drop_version : Text → Text
drop_version (a ∷ b ∷ c ∷ s) = s
drop_version s = s

normal_path : Text → Text
unfolding text_eq has_prefix drop_version
normal_path path =
    if is_empty path || text_eq path (codes "/")
    then codes "v2-beta"
    else if text_eq path (codes "/v1") || has_prefix path (codes "/v1/")
    then codes "/v2-beta" ++ drop_version path
    else path

-- `none` as an environment variable is no number.
timeout_or : Option ℤ → ℤ
unfolding int_eq
timeout_or none = pos 10
timeout_or (some n) = if int_eq n (pos 0) then pos 10 else n

unfoldable pub default_timeout : Text → ℤ
unfolding timeout_or atoi
default_timeout variable = timeout_or (atoi variable)

pub record RequestOrigin : Type 0 where
  pub root : Url
  pub origin : Origin

unfoldable pub same_origin : Origin → Origin → Bool
unfolding text_eq
same_origin a b =
    not (
      not (text_eq a.scheme b.scheme) || not (text_eq a.host b.host) || not (text_eq a.port b.port))

pub record ClientOpts : Type 0 where
  pub url : Text
  pub access_key : Text
  pub secret_key : Text

-- A request with its basic authentication, if it has one.
pub record Request : Type 0 where
  pub method : Text
  pub url : Text
  pub body : Text
  pub authorization : Option (Text × Text)

module _ (w : Web) where
  unfoldable pub normalize_url : Text → Outcome ApiFailure Text
  unfolding normal_path
  normalize_url existing =
      w.parse existing >>= λ u. ok (w.show (record u { path = normal_path u.path }))

  unfoldable pub new_request_origin : Text → Outcome ApiFailure RequestOrigin
  unfolding origin_parts
  new_request_origin root = w.parse root >>= λ u. origin_parts w.canonical_ip u >>= λ o.
      ok (record { root = record u { scheme = o.scheme }; origin = o })

  -- A constructor-time origin, or none of it yet.
  unfoldable pub resolve : Option RequestOrigin → Text → Outcome ApiFailure Url
  unfolding origin_parts same_origin
  resolve none value = err no_origin
  resolve (some o) value = w.parse value >>= λ ref.
      let u = w.resolve_reference o.root ref in
      origin_parts w.canonical_ip u >>= λ parts.
      if same_origin parts o.origin
      then ok (record u { scheme = parts.scheme })
      else err cross_origin

  unfoldable pub authorized : Option ClientOpts → Text → Url → Text → Outcome ApiFailure Request
  authorized none method u body = err no_credentials
  authorized (some opts) method u body = ok (record {
    method = method;
    url = w.show u;
    body = body;
    authorization = some (opts.access_key, opts.secret_key);
  })

  unfoldable pub new_request :
      Option RequestOrigin → Option ClientOpts → Text → Text → Text → Outcome ApiFailure Request
  unfolding authorized resolve
  new_request origin opts method value body =
      resolve origin value >>= λ u. authorized opts method u body

-- Lower case is stable.
to_lower-idempotent : (s : Text) → to_lower (to_lower s) ≡ to_lower s
unfolding to_lower
to_lower-idempotent [] = refl
to_lower-idempotent (c ∷ s) = rw (to_lower-idempotent s) (ap (λ d. d ∷ to_lower s) (ground arith))

origin_of-scheme :
    (ip : Text → Option Text) (scheme host opaque : Text) (o : Origin)
    → origin_of ip scheme host opaque ≡ ok o
    → o.scheme ≡ scheme
unfolding origin_of
origin_of-scheme ip scheme host opaque o h =
    let (b, h') = if-err _ _ _ h in
    let (p, e, k) = bind-eq-ok (port_of scheme (split_host_port host).1) _ h' in
    sym (ap (λ (a : Origin). a.scheme) (ok-inj k))

-- The scheme of a URL set to that of its origin changes nothing about the origin.
origin_parts-scheme :
    (ip : Text → Option Text) (u : Url) (o : Origin)
    → origin_parts ip u ≡ ok o
    → origin_parts ip (record u { scheme = o.scheme }) ≡ ok o
unfolding origin_parts
origin_parts-scheme ip u o h =
    ap (λ s. origin_of ip (to_lower s) u.host u.opaque)
      (origin_of-scheme ip (to_lower u.scheme) u.host u.opaque o h)
    ∙ ap (λ s. origin_of ip s u.host u.opaque) (to_lower-idempotent u.scheme)
    ∙ h

same_origin-eq : (a b : Origin) → same_origin a b ≡ true → a ≡ b
unfolding same_origin
same_origin-eq a b h =
    let e : a.scheme ≡ b.scheme = ground (arith, text_eq_iff a.scheme b.scheme) in
    let f : a.host ≡ b.host = ground (arith, text_eq_iff a.host b.host) in
    let g : a.port ≡ b.port = ground (arith, text_eq_iff a.port b.port) in
    λ i. record { scheme = e i; host = f i; port = g i }

-- A URL that a client has resolved, whatever text the control plane or the caller gave, has the
-- scheme, host and port of the origin that the client was made with.
pub resolve-origin :
    (w : Web) (o : RequestOrigin) (value : Text) (u : Url)
    → resolve w (some o) value ≡ ok u
    → origin_parts w.canonical_ip u ≡ ok o.origin
unfolding resolve
resolve-origin w o value u h =
    let (ref, p, h1) = bind-eq-ok (w.parse value) _ h in
    let r = w.resolve_reference o.root ref in
    let (parts, q, h2) = bind-eq-ok (origin_parts w.canonical_ip r) _ h1 in
    let (same, e) = if-ok (same_origin parts o.origin) cross_origin _ h2 in
    ap (origin_parts w.canonical_ip) (sym e)
    ∙ origin_parts-scheme w.canonical_ip r parts q
    ∙ ap ok (same_origin-eq parts o.origin same)
