-- ===== src/ApiClient/Socket.antt =====
-- `Websocket`: the URL and the headers that the dialer gets.
use load_balancer_controller.Base.{
  Bool, true, false, not, ◌&&◌, Option, some, none, List, [], ◌∷◌, ◌≡◌, refl, sym, ap, ◌∙◌,
  if◌then◌else◌, if-true, if-false, is_some, all, inl, inr, Bool-cases, ◌⊎◌,
}
use load_balancer_controller.Base.Text.{Text, codes, text_eq, text_eq_iff, equal_fold}
use load_balancer_controller.Base.Outcome.{Outcome, ok, err, ◌>>=◌, bind-eq-ok, ok-inj, if-ok}
use load_balancer_controller.ApiClient.Url.{
  ApiFailure, bad_scheme, bad_host_header, Url, origin_parts,
}
use load_balancer_controller.ApiClient.Origin.{
  Web, RequestOrigin, ClientOpts, resolve, resolve-origin,
}

-- The scheme of the HTTP origin that a WebSocket scheme stands for.
http_scheme : Text → Outcome ApiFailure Text
unfolding text_eq
http_scheme scheme =
    if text_eq scheme (codes "ws")
    then ok (codes "http")
    else if text_eq scheme (codes "wss")
    then ok (codes "https")
    else err bad_scheme

-- What is dialed: the text as it was given, the headers that are kept, and the credentials.
pub record Dial : Type 0 where
  pub url : Text
  pub headers : List (Text × List Text)
  pub authorization : Option (Text × Text)

credentials : Option ClientOpts → Option (Text × Text)
credentials none = none
credentials (some o) = some (o.access_key, o.secret_key)

module _ (w : Web) (origin : Option RequestOrigin) where
  -- A host header has one value, and its URL is of the origin.
  unfoldable pub check_host : Url → List Text → Outcome ApiFailure Url
  unfolding resolve
  check_host u [] = err bad_host_header
  check_host u (v ∷ []) = resolve w origin (w.show (record u { host = v }))
  check_host u (v ∷ v' ∷ vs) = err bad_host_header

  unfoldable pub kept : Bool → Text × List Text → List (Text × List Text) → List (Text × List Text)
  unfolding equal_fold
  kept has_opts header rest =
      if equal_fold header.0 (codes "Authorization") && has_opts then rest else header ∷ rest

  unfoldable pub copy_headers :
      Bool → Url → List (Text × List Text) → Outcome ApiFailure (List (Text × List Text))
  unfolding check_host equal_fold kept
  copy_headers has_opts u [] = ok []
  copy_headers has_opts u ((k, v) ∷ rest) =
      let more = λ (_ : Url). copy_headers has_opts u rest >>= λ hs. ok (kept has_opts (k, v) hs) in
      if equal_fold k (codes "Host") then check_host u v >>= more else more u

  unfoldable pub websocket_dial :
      Option ClientOpts → Text → List (Text × List Text) → Outcome ApiFailure Dial
  unfolding http_scheme resolve copy_headers credentials
  websocket_dial opts value headers = w.parse value >>= λ parsed.
      http_scheme parsed.scheme >>= λ scheme.
      let u = record parsed { scheme = scheme } in
      resolve w origin (w.show u) >>= λ _. copy_headers (is_some opts) u headers >>= λ hs.
      ok (record { url = value; headers = hs; authorization = credentials opts })

-- A header that could set the host is checked: its URL resolves to the origin.
unfoldable pub host_is_checked : Web → RequestOrigin → Url → Text × List Text → Bool
unfolding equal_fold check_host
host_is_checked w o u (k, v) =
    if equal_fold k (codes "Host")
    then elim (check_host w (some o) u v) [ ok _ ↦ true | err _ ↦ false ]
    else true

-- With credentials of its own, a client passes on no authorization that it was given.
unfoldable pub is_no_authorization : Text × List Text → Bool
unfolding equal_fold
is_no_authorization (k, v) = not (equal_fold k (codes "Authorization"))

kept-checked :
    (w : Web) (o : RequestOrigin) (u : Url) (h : Text × List Text) (hs : List (Text × List Text))
    → host_is_checked w o u h ≡ true
    → (all (host_is_checked w o u) hs ≡ true) × (all is_no_authorization hs ≡ true)
    → let out = kept w (some o) true h hs in
      (all (host_is_checked w o u) out ≡ true) × (all is_no_authorization out ≡ true)
unfolding kept all is_no_authorization
kept-checked w o u h hs c (a, b) = elim (Bool-cases (equal_fold h.0 (codes "Authorization"))) [
  | inl e ↦ rw e (a, b)
  | inr e ↦ rw (e, c) (a, rw e b)
]

copy_headers-checked :
    (w : Web) (o : RequestOrigin) (u : Url) (hs : List (Text × List Text))
    {out : List (Text × List Text)}
    → copy_headers w (some o) true u hs ≡ ok out
    → (all (host_is_checked w o u) out ≡ true) × (all is_no_authorization out ≡ true)
unfolding copy_headers
copy_headers-checked w o u [] {out} h = rw⁻¹ (ok-inj h) (unfold all in (refl, refl))
copy_headers-checked w o u ((k, v) ∷ rest) {out} h =
    elim (Bool-cases (equal_fold k (codes "Host"))) [
      | inl e ↦
          let (u', c, h1) = bind-eq-ok (check_host w (some o) u v) _ (if-true _ _ _ e h) in
          onto (λ hs e'. copy_headers-checked w o u rest {out = hs} e') h1
            (unfold host_is_checked in rw (e, c) refl)
      | inr e ↦
          onto (λ hs e'. copy_headers-checked w o u rest {out = hs} e') (if-false _ _ _ e h)
            (unfold host_is_checked in rw e refl)
    ]
  where
    onto :
        ((hs : List (Text × List Text))
          → copy_headers w (some o) true u rest ≡ ok hs
          → (all (host_is_checked w o u) hs ≡ true) × (all is_no_authorization hs ≡ true))
        → (copy_headers w (some o) true u rest >>= λ hs. ok (kept w (some o) true (k, v) hs))
          ≡ ok out
        → host_is_checked w o u (k, v) ≡ true
        → (all (host_is_checked w o u) out ≡ true) × (all is_no_authorization out ≡ true)
    onto step h1 c =
        let (hs, e, h2) = bind-eq-ok (copy_headers w (some o) true u rest) _ h1 in
        rw⁻¹ (ok-inj h2) (kept-checked w o u (k, v) hs c (step hs e))

-- The HTTP scheme that stands for a WebSocket scheme.
abbrev pub StandsFor : Text → Text → Type 0
StandsFor scheme http =
    ((scheme ≡ codes "ws") × (http ≡ codes "http"))
    ⊎ ((scheme ≡ codes "wss") × (http ≡ codes "https"))

http_scheme-StandsFor :
    (scheme : Text) {http : Text} → http_scheme scheme ≡ ok http → StandsFor scheme http
unfolding http_scheme
http_scheme-StandsFor scheme {http} h = elim (Bool-cases (text_eq scheme (codes "ws"))) [
  | inl e ↦ inl ((text_eq_iff scheme (codes "ws")).0 e, sym (ok-inj (if-true _ _ _ e h)))
  | inr e ↦
      let h' = if-false _ _ _ e h in
      let (f, same) = if-ok (text_eq scheme (codes "wss")) bad_scheme (codes "https") h' in
      inr ((text_eq_iff scheme (codes "wss")).0 f, sym same)
]

-- A WebSocket is dialed at the URL that was asked for, with the client's credentials only. That
-- URL parses, its scheme is `ws` or `wss`, and with that read as `http` or `https` it resolves to
-- the scheme, host and port that the client was made with; a `Host` header in what is sent has one
-- value, with which the URL resolves to that origin too; and no `Authorization` header of the
-- caller is passed on.
pub websocket_dial-origin :
    (w : Web) (o : RequestOrigin) (opts : ClientOpts) (value : Text)
    (headers : List (Text × List Text)) (d : Dial)
    → websocket_dial w (some o) (some opts) value headers ≡ ok d
    → (d.url ≡ value)
      × (d.authorization ≡ some (opts.access_key, opts.secret_key))
      × (all is_no_authorization d.headers ≡ true)
      × ((parsed : Url) × (http : Text) × (w.parse d.url ≡ ok parsed)
          × StandsFor parsed.scheme http
          × ((v : Url) × (resolve w (some o) (w.show (record parsed { scheme = http })) ≡ ok v)
              × (origin_parts w.canonical_ip v ≡ ok o.origin))
          × (all (host_is_checked w o (record parsed { scheme = http })) d.headers ≡ true))
unfolding websocket_dial credentials
websocket_dial-origin w o opts value headers d h =
    let (parsed, p, h1) = bind-eq-ok (w.parse value) _ h in
    let (scheme, s, h2) = bind-eq-ok (http_scheme parsed.scheme) _ h1 in
    let u : Url = record parsed { scheme = scheme } in
    let (v, r, h3) = bind-eq-ok (resolve w (some o) (w.show u)) _ h2 in
    let (hs, c, h4) = bind-eq-ok (copy_headers w (some o) true u headers) _ h3 in
    let (checked, bare) = copy_headers-checked w o u headers c in
    let e = ok-inj h4 in
    let url : value ≡ d.url = ap (λ (x : Dial). x.url) e in
    (
      sym url,
      sym (ap (λ (x : Dial). x.authorization) e),
      sym (ap (λ (x : Dial). all is_no_authorization x.headers) e) ∙ bare,
      (
        parsed,
        scheme,
        ap w.parse (sym url) ∙ p,
        http_scheme-StandsFor parsed.scheme s,
        (v, r, resolve-origin w o (w.show u) v r),
        sym (ap (λ (x : Dial). all (host_is_checked w o u) x.headers) e) ∙ checked,
      ),
    )
