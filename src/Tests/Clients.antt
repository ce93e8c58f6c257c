-- ===== src/Tests/Clients.antt =====
-- The control-plane client against a small web: a URL is a host and a path of `http`, and the
-- server answers the first request with a redirect to another spelling of its own host.
use load_balancer_controller.Base.{
  ℕ, true, ◌⊎◌, ◌==◌, some, none, List, [], ◌∷◌, ◌++◌, ◌≡◌, refl, if◌then◌else◌, is_empty, is_some,
  length, ◌≤◌, All, all,
}
use load_balancer_controller.Base.Text.{Text, codes, text_eq, has_prefix, equal_fold}
use load_balancer_controller.Base.Outcome.{Outcome, ok, err}
use load_balancer_controller.ApiClient.Url.{ApiFailure, unknown_type, Url, origin_parts}
use load_balancer_controller.ApiClient.Origin.{
  Web, RequestOrigin, ClientOpts, Request, resolve, new_request,
}
use load_balancer_controller.ApiClient.Redirects.{
  Reply, answer, redirect, send, IsSafe, send-IsSafe,
}
use load_balancer_controller.ApiClient.Resources.{Schema, Client, perform_plan}
use load_balancer_controller.ApiClient.Allowed.{Operation, plan, permits, perform_plan-permits}
use load_balancer_controller.ApiClient.Socket.{
  Dial, StandsFor, websocket_dial, is_no_authorization, host_is_checked, websocket_dial-origin,
}

-- The text behind a prefix of a length, and up to the first slash.
abbrev drop_codes : List ℕ → Text → Text
drop_codes [] s = s
drop_codes (c ∷ p) [] = []
drop_codes (c ∷ p) (d ∷ s) = drop_codes p s

abbrev host_of : Text → Text
host_of [] = []
host_of (c ∷ s) = let rest = host_of s in if c == b'/' then [] else c ∷ rest

abbrev path_of : Text → Text
path_of [] = []
path_of (c ∷ s) = let rest = path_of s in if c == b'/' then c ∷ s else rest

abbrev absolute : Text → Text → Url
absolute scheme s = record {
  scheme = scheme;
  opaque = [];
  user = [];
  host = host_of s;
  path = path_of s;
  rest = [];
}

abbrev small_parse : Text → Outcome ApiFailure Url
unfolding has_prefix
small_parse s =
    if has_prefix s (codes "http://")
    then ok (absolute (codes "http") (drop_codes (codes "http://") s))
    else if has_prefix s (codes "ws://")
    then ok (absolute (codes "ws") (drop_codes (codes "ws://") s))
    else ok (record { scheme = []; opaque = []; user = []; host = []; path = s; rest = [] })

abbrev small_web : Web
unfolding small_parse
small_web = record {
  canonical_ip = λ host. none;
  parse = small_parse;
  show = λ u. u.scheme ++ (codes "://" ++ (u.host ++ u.path));
  resolve_reference =
      λ base ref. if is_empty ref.scheme then record base { path = ref.path } else ref;
  add_query = λ url filters. ok url;
}

abbrev origin : RequestOrigin
unfolding small_web
origin = record {
  root = absolute (codes "http") (codes "lb/v2-beta");
  origin = record { scheme = codes "http"; host = codes "lb"; port = codes "80" };
}

abbrev opts : ClientOpts
opts = record { url = codes "http://lb/v2-beta"; access_key = codes "k"; secret_key = codes "s" }

abbrev moving : Request → Outcome ApiFailure Reply
unfolding text_eq
moving req =
    if text_eq req.url (codes "http://lb/old")
    then ok (redirect (record req { url = codes "http://LB:080/new"; authorization = none }))
    else ok (answer (record { status = 200; schemas = []; body = codes "{}" }))

abbrev first_request : Request
first_request = record {
  method = codes "GET";
  url = codes "http://lb/old";
  body = [];
  authorization = some (codes "k", codes "s");
}

send-IsSafe_example :
    let out = send small_web (some origin) moving first_request in
    All (IsSafe small_web origin (some (codes "k", codes "s"))) out.0
    × (length out.0 ≤ 10)
    × (is_some out.1 ≡ true)
unfolding small_web origin
send-IsSafe_example =
    send-IsSafe small_web origin moving opts (codes "GET") (codes "/old") [] first_request
      (unfold new_request resolve origin_parts in refl)

-- Both requests are sent.
two_requests : length (send small_web (some origin) moving first_request).0 ≡ 2
unfolding small_web origin moving send resolve origin_parts
two_requests = refl

abbrev dialed : Dial
dialed = record {
  url = codes "ws://LB/subscribe";
  headers = (codes "Host", codes "lb:80" ∷ []) ∷ (codes "X", codes "y" ∷ []) ∷ [];
  authorization = some (codes "k", codes "s");
}

websocket_dial-origin_example :
    (dialed.url ≡ codes "ws://LB/subscribe")
    × (dialed.authorization ≡ some (codes "k", codes "s"))
    × (all is_no_authorization dialed.headers ≡ true)
    × ((parsed : Url) × (http : Text) × (small_web.parse dialed.url ≡ ok parsed)
        × StandsFor parsed.scheme http
        × ((v : Url) × (resolve small_web
                (some origin)
                (small_web.show (record parsed { scheme = http }))
              ≡ ok v)
            × (origin_parts small_web.canonical_ip v ≡ ok origin.origin))
        × (all (host_is_checked small_web origin (record parsed { scheme = http })) dialed.headers
            ≡ true))
unfolding small_web origin
websocket_dial-origin_example =
    websocket_dial-origin small_web origin opts (codes "ws://LB/subscribe")
      ((codes "Host", codes "lb:80" ∷ [])
        ∷ (codes "authorization", codes "Basic x" ∷ [])
        ∷ (codes "X", codes "y" ∷ [])
        ∷ [])
      dialed (unfold websocket_dial resolve origin_parts equal_fold in refl)

abbrev readable : Schema
readable = record {
  collection_methods = codes "GET" ∷ [];
  resource_methods = [];
  links = (codes "collection", codes "/certificates") ∷ [];
  plural_name = codes "certificates";
}

abbrev client : Client
unfolding origin
client = record {
  opts = some opts;
  origin = some origin;
  types = (codes "certificate", readable) ∷ [];
}

perform_plan-permits_example :
    let op = Operation.list (codes "certificate") [] in
    (permits client.types op ≡ true)
    ⊎ ((e : ApiFailure) × (perform_plan small_web moving client (plan client.types op)
          ≡ ([], some (err e))))
unfolding small_web client moving
perform_plan-permits_example =
    perform_plan-permits small_web moving client (Operation.list (codes "certificate") [])

-- Another client has no type to list.
list_refused :
    perform_plan small_web moving client (plan [] (Operation.list (codes "certificate") []))
    ≡ ([], some (err (unknown_type (codes "certificate"))))
unfolding perform_plan plan
list_refused = refl
