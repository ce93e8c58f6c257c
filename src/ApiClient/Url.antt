-- ===== src/ApiClient/Url.antt =====
-- A parsed URL, its host name and port as `net/url` splits them, and `originParts`.
use load_balancer_controller.Base.{
  ℕ, leb, not, ◌||◌, ◌==◌, Option, some, none, [], ◌∷◌, if◌then◌else◌, is_empty, all,
}
use load_balancer_controller.Base.Text.{Text, codes, text_eq, to_lower, contains_byte, itoa}
use load_balancer_controller.Base.Text.Number.{unsigned, is_digit}
use load_balancer_controller.Base.Outcome.{Outcome, ok, err, ◌>>=◌}
use mathlib.Core.List.{reverse}

pub data ApiFailure : Type 0 where
  -- `url.Parse`, the transport and the like
  failed : ApiFailure
  not_absolute : ApiFailure
  invalid_port : ApiFailure
  no_origin : ApiFailure
  cross_origin : ApiFailure
  no_credentials : ApiFailure
  bad_scheme : ApiFailure
  bad_host_header : ApiFailure
  too_many_redirects : ApiFailure
  blocked_redirect : ApiFailure
  nil_object : ApiFailure
  unknown_type : Text → ApiFailure
  not_allowed : Text → ApiFailure
  no_link : Text → ApiFailure
  bad_status : ℕ → ApiFailure

-- `url.URL`; `rest` is the query and the fragment, `user` the user information.
pub record Url : Type 0 where
  pub scheme : Text
  pub opaque : Text
  pub user : Text
  pub host : Text
  pub path : Text
  pub rest : Text

-- The text up to the last colon, if there is one, reversed, and the text behind it.
cut_colon : Text → Text → Option (Text × Text)
cut_colon after [] = none
cut_colon after (c ∷ s) =
    let more = cut_colon (c ∷ after) s in if c == b':' then some (s, after) else more

without_brackets : Text → Text
without_brackets [] = []
without_brackets (c ∷ s) = if c == b'[' then inner s else c ∷ s
  where
    last_off : Text → Text → Text
    last_off whole [] = whole
    last_off whole (d ∷ r) = if d == b']' then reverse r else whole

    inner : Text → Text
    inner s = last_off (b'[' ∷ s) (reverse s)

-- `splitHostPort`: a last colon with digits only behind it, or nothing, ends the host.
split_at : Text → Option (Text × Text) → Text × Text
unfolding all without_brackets
split_at host none = (without_brackets host, [])
split_at host (some (before, port)) =
    if all is_digit port
    then (without_brackets (reverse before), port)
    else (without_brackets host, [])

unfoldable pub split_host_port : Text → Text × Text
unfolding split_at cut_colon
split_host_port host = split_at host (cut_colon [] (reverse host))

-- What a URL is compared by.
pub record Origin : Type 0 where
  pub scheme : Text
  pub host : Text
  pub port : Text

default_port : Text → Text
unfolding text_eq
default_port scheme = if text_eq scheme (codes "https") then codes "443" else codes "80"

uint16_or : Option ℕ → Outcome ApiFailure Text
unfolding itoa
uint16_or none = err invalid_port
uint16_or (some n) = if leb n 65535 then ok (itoa n) else err invalid_port

-- `strconv.ParseUint` of 16 bits, printed again: `0443` is `443`.
unfoldable pub port_of : Text → Text → Outcome ApiFailure Text
unfolding default_port uint16_or unsigned
port_of scheme port = if is_empty port then ok (default_port scheme) else uint16_or (unsigned port)

-- `canonical_ip`: `netip.ParseAddr` and `String`; `none` when the text is no IP address.
module _ (canonical_ip : Text → Option Text) where
  canonical_host : Text → Option Text → Text
  unfolding contains_byte to_lower
  canonical_host host none = if not (contains_byte b':' host) then to_lower host else host
  canonical_host host (some ip) = ip

  -- `originParts` behind the scheme, in lower case.
  unfoldable pub origin_of : Text → Text → Text → Outcome ApiFailure Origin
  unfolding split_host_port canonical_host port_of text_eq
  origin_of scheme host_port opaque =
      let (name, port) = split_host_port host_port in
      let host = canonical_host name (canonical_ip name) in
      if not (text_eq scheme (codes "http") || text_eq scheme (codes "https"))
        || is_empty host
        || not (is_empty opaque)
      then err not_absolute
      else port_of scheme port >>= λ p. ok (record { scheme = scheme; host = host; port = p })

  unfoldable pub origin_parts : Url → Outcome ApiFailure Origin
  unfolding origin_of to_lower
  origin_parts u = origin_of (to_lower u.scheme) u.host u.opaque
