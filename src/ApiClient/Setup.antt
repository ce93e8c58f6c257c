-- ===== src/ApiClient/Setup.antt =====
-- `setupRancherBaseClient` and the calls that are links of a resource.
use load_balancer_controller.Base.{
  Bool, false, Option, some, none, List, [], ◌∷◌, if◌then◌else◌, is_empty, ◌==◌,
}
use load_balancer_controller.Base.Text.{Text, codes, text_eq}
use load_balancer_controller.Base.Dict.{Dict, insert, lookup}
use load_balancer_controller.Base.Outcome.{Outcome, ok, err, ◌>>=◌}
use load_balancer_controller.ApiClient.Url.{ApiFailure, no_link, bad_status}
use load_balancer_controller.ApiClient.Origin.{
  Web, RequestOrigin, ClientOpts, Request, normalize_url, new_request_origin, new_request,
}
use load_balancer_controller.ApiClient.Redirects.{Answer, Reply, send}
use load_balancer_controller.ApiClient.Resources.{Schema, Resource, Client, Call}

-- `decode`: what JSON makes of the body, the schemas with their identifiers.
module _ (w : Web) (net : Request → Outcome ApiFailure Reply)
    (decode : Text → Outcome ApiFailure (List (Text × Schema))) where
  -- The answer to a GET with status 200. The fuel of `send` does not run out.
  good_answer : Option (Outcome ApiFailure Answer) → Outcome ApiFailure Answer
  good_answer none = err ApiFailure.failed
  good_answer (some (err e)) = err e
  good_answer (some (ok a)) = if a.status == 200 then ok a else err (bad_status a.status)

  ask : RequestOrigin → ClientOpts → Text → Outcome ApiFailure Answer
  unfolding new_request send good_answer
  ask origin opts url = new_request w (some origin) (some opts) (codes "GET") url [] >>= λ req.
      good_answer (send w (some origin) net req).1

  -- The schemas stand under another URL, unless it is the client's.
  schemas_at : RequestOrigin → ClientOpts → Answer → Outcome ApiFailure Answer
  unfolding ask text_eq
  schemas_at origin opts a =
      if is_empty a.schemas
      then err (no_link (codes "X-API-Schemas"))
      else if text_eq a.schemas opts.url
      then ok a
      else ask origin opts a.schemas

  types_of : List (Text × Schema) → Dict Schema → Dict Schema
  unfolding insert
  types_of [] m = m
  types_of ((id, schema) ∷ rest) m = types_of rest (insert id schema m)

  unfoldable pub setup_client : ClientOpts → Outcome ApiFailure Client
  unfolding normalize_url new_request_origin ask schemas_at types_of
  setup_client opts = normalize_url w opts.url >>= λ url.
      let opts' = record opts { url = url } in
      new_request_origin w url >>= λ origin. ask origin opts' url >>= λ a.
      schemas_at origin opts' a >>= λ b. decode b.body >>= λ schemas.
      ok (record { opts = some opts'; origin = some origin; types = types_of schemas [] })

-- `GetLink`: a missing link is the empty text.
link_url : Option Text → Text → Outcome ApiFailure Text
link_url none link = err (no_link link)
link_url (some url) link = if is_empty url then err (no_link link) else ok url

unfoldable pub plan_link : Resource → Text → Outcome ApiFailure Call
unfolding link_url lookup
plan_link r link = link_url (lookup link r.links) link >>= λ url. ok (Call.get url [])

-- `IsNotFound`.
unfoldable pub is_not_found : ApiFailure → Bool
is_not_found (bad_status n) = n == 404
is_not_found _ = false
