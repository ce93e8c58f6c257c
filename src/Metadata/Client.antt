-- ===== src/Metadata/Client.antt =====
-- The HTTP part of internal/metadata/client.go: the base URL, the redirects, the path of a request
-- and the limit of its answer. `url.Parse` and the network are parameters.
use load_balancer_controller.Base.{
  ℕ, zero, suc, leb, ltb, Bool, true, not, ◌&&◌, ◌||◌, ◌==◌, Option, some, none, List, [], ◌∷◌,
  ◌++◌, if◌then◌else◌, is_empty, length, any,
}
use load_balancer_controller.Base.Text.{Text, codes, text_eq, equal_fold, has_prefix, split_byte}
use load_balancer_controller.Base.Outcome.{Outcome, ok, err}
use mathlib.Core.List.{reverse}

pub data ClientFailure : Type 0 where
  failed : ClientFailure
  invalid_url : ClientFailure
  bad_scheme : ClientFailure
  unwanted_parts : ClientFailure
  bad_address : ClientFailure
  invalid_path : ClientFailure
  traversal : ClientFailure
  status : ℕ → ClientFailure
  too_large : ClientFailure
  changed_origin : ClientFailure
  too_many_redirects : ClientFailure

-- `url.URL`, as far as it is looked at. `escaped` is what `EscapedPath` gives.
pub record Location : Type 0 where
  pub scheme : Text
  pub host : Text
  pub has_user : Bool
  pub path : Text
  pub escaped : Text
  pub raw_query : Text
  pub fragment : Text

drop_slashes : Text → Text
drop_slashes [] = []
drop_slashes (c ∷ s) = if c == b'/' then drop_slashes s else c ∷ s

-- `strings.TrimRight(s, "/")`
unfoldable pub trim_right_slashes : Text → Text
unfolding drop_slashes
trim_right_slashes s = reverse (drop_slashes (reverse s))

pub record HttpClient : Type 0 where
  pub base_url : Location
  pub forwarded_for : Text

module _ (parse : Text → Outcome ClientFailure Location) (is_ip : Text → Bool) where
  checked_base : Location → Text → Outcome ClientFailure HttpClient
  unfolding text_eq trim_right_slashes
  checked_base u forwarded_for =
      if not (text_eq u.scheme (codes "http") || text_eq u.scheme (codes "https"))
        || is_empty u.host
      then err bad_scheme
      else if u.has_user || not (is_empty u.raw_query) || not (is_empty u.fragment)
      then err unwanted_parts
      else if not (is_empty forwarded_for) && not (is_ip forwarded_for)
      then err bad_address
      else ok (record {
        base_url = record u { path = trim_right_slashes u.path };
        forwarded_for = forwarded_for;
      })

  parsed_base : Outcome ClientFailure Location → Text → Outcome ClientFailure HttpClient
  unfolding checked_base
  parsed_base (err e) forwarded_for = err invalid_url
  parsed_base (ok u) forwarded_for = checked_base u forwarded_for

  unfoldable pub new_http_client : Text → Text → Outcome ClientFailure HttpClient
  unfolding parsed_base
  new_http_client raw_url forwarded_for = parsed_base (parse raw_url) forwarded_for

  -- A segment that goes up.
  unfoldable pub is_up : Text → Bool
  unfolding text_eq equal_fold
  is_up segment = text_eq segment (codes "..") || equal_fold segment (codes "%2e%2e")

  unfoldable pub target_of : HttpClient → Location → Outcome ClientFailure Location
  unfolding has_prefix any is_up split_byte
  target_of client reference =
      if not (is_empty reference.scheme)
        || not (is_empty reference.host)
        || not (has_prefix reference.path (codes "/"))
      then err invalid_path
      else if any is_up (split_byte b'/' reference.escaped)
      then err traversal
      else ok (record (client.base_url) {
        path = client.base_url.path ++ reference.path;
        escaped = [];
        raw_query = reference.raw_query;
      })

  unfoldable pub reference_of :
      HttpClient → Outcome ClientFailure Location → Outcome ClientFailure Location
  unfolding target_of
  reference_of client (err e) = err invalid_path
  reference_of client (ok reference) = target_of client reference

  -- `endpoint`, for a client that was made without an error.
  unfoldable pub endpoint : HttpClient → Text → Outcome ClientFailure Location
  unfolding reference_of
  endpoint client path = reference_of client (parse path)

-- `CheckRedirect`; `via` are the requests made already, the oldest first.
unfoldable pub check_redirect : List Location → Location → Outcome ClientFailure Bool
unfolding equal_fold
check_redirect [] request = ok true
check_redirect (origin ∷ rest) request =
    if not (equal_fold request.scheme origin.scheme) || not (equal_fold request.host origin.host)
    then err changed_origin
    else if leb 5 (suc (length rest))
    then err too_many_redirects
    else ok true

-- What a request brings: a status and a body, or another request.
pub data Reply : Type 0 where
  answer : ℕ → Text → Reply
  redirect : Location → Reply

module _ (net : Location → Outcome ClientFailure Reply) where
  -- The requests that are made, and the answer; `none` when the fuel has run out.
  unfoldable pub step :
      (Location → List Location × Option (Outcome ClientFailure (ℕ × Text)))
      → List Location
      → Outcome ClientFailure Reply
      → List Location × Option (Outcome ClientFailure (ℕ × Text))
  unfolding check_redirect
  step go via (err e) = (via, some (err e))
  step go via (ok (answer code body)) = (via, some (ok (code, body)))
  step go via (ok (redirect next)) = elim (check_redirect via next) [
    | err e ↦ (via, some (err e))
    | ok _ ↦ go next
  ]

  unfoldable pub follow :
      ℕ → List Location → Location → List Location × Option (Outcome ClientFailure (ℕ × Text))
  unfolding step
  follow zero via request = (via, none)
  follow (suc fuel) via request =
      let via' = via ++ (request ∷ []) in step (λ next. follow fuel via' next) via' (net request)

  abbrev pub max_response_bytes : ℕ
  max_response_bytes = 33554432

  -- A body longer than the limit is read to one byte more, and refused.
  unfoldable pub limited :
      Option (Outcome ClientFailure (ℕ × Text)) → Option (Outcome ClientFailure Text)
  limited none = none
  limited (some (err e)) = some (err e)
  limited (some (ok (code, body))) = some (
      if not (code == 200)
      then err (status code)
      else if ltb max_response_bytes (length body)
      then err too_large
      else ok body)

  unfoldable pub send_to :
      Outcome ClientFailure Location → List Location × Option (Outcome ClientFailure Text)
  unfolding limited follow
  send_to (err e) = ([], some (err e))
  send_to (ok target) = let out = follow 5 [] target in (out.0, limited out.1)

-- `sendRequest`.
unfoldable pub send_request :
    (Text → Outcome ClientFailure Location)
    → (Text → Bool)
    → (Location → Outcome ClientFailure Reply)
    → HttpClient
    → Text
    → List Location × Option (Outcome ClientFailure Text)
unfolding send_to endpoint
send_request parse is_ip net client path = send_to net (endpoint parse is_ip client path)
