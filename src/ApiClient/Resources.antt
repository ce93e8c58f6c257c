-- ===== src/ApiClient/Resources.antt =====
-- The calls on resources: what each asks the control plane for, and `doGet`, `doModify`,
-- `doDelete` and `doAction` behind that.
use load_balancer_controller.Base.{
  ℕ, ltb, Bool, true, false, ◌==◌, Option, some, none, List, [], ◌∷◌, ◌++◌, if◌then◌else◌, is_empty,
  any,
}
use load_balancer_controller.Base.Text.{Text, codes, text_eq, has_prefix}
use load_balancer_controller.Base.Dict.{Dict, lookup}
use load_balancer_controller.Base.Outcome.{Outcome, ok, err, ◌>>=◌}
use load_balancer_controller.ApiClient.Url.{
  ApiFailure, nil_object, unknown_type, not_allowed, no_link, bad_status,
}
use load_balancer_controller.ApiClient.Origin.{Web, RequestOrigin, ClientOpts, Request, new_request}
use load_balancer_controller.ApiClient.Redirects.{Answer, Reply, send}

pub record Schema : Type 0 where
  pub collection_methods : List Text
  pub resource_methods : List Text
  pub links : Dict Text
  pub plural_name : Text

pub record Resource : Type 0 where
  pub kind : Text
  pub links : Dict Text
  pub actions : Dict Text

pub record Client : Type 0 where
  pub opts : Option ClientOpts
  pub origin : Option RequestOrigin
  pub types : Dict Schema

abbrev pub self : Text
self = codes "self"

abbrev pub collection : Text
collection = codes "collection"

unfoldable pub contains : List Text → Text → Bool
unfolding any text_eq
contains array item = any (λ check. text_eq check item) array

-- A query filter: its name and its values.
pub data Call : Type 0 where
  get : Text → List (Text × List Text) → Call
  modify : Text → Text → Text → Call
  remove : Text → Call
  act : Text → Text → Call

-- A Go map lookup with `ok`.
unfoldable pub found {ℓ} : {A : Type ℓ} → ApiFailure → Option A → Outcome ApiFailure A
found e none = err e
found e (some a) = ok a

unfoldable pub allowed : Bool → Text → Outcome ApiFailure Text
allowed true type_name = ok type_name
allowed false type_name = err (not_allowed type_name)

-- Up to the end of the line, from `schemas` on, the text is the plural name.
rest_of_line : Text → Text
rest_of_line [] = []
rest_of_line (c ∷ s) = let rest = rest_of_line s in if c == 10 then c ∷ s else rest

replace_schemas : Text → Text → Text
unfolding has_prefix rest_of_line
replace_schemas plural [] = []
replace_schemas plural (c ∷ s) =
    let rest = replace_schemas plural s in
    if has_prefix (c ∷ s) (codes "schemas") then plural ++ rest_of_line (c ∷ s) else c ∷ rest

text_or_empty : Option Text → Text
text_or_empty none = []
text_or_empty (some s) = s

create_url : Schema → Option Text → Text
unfolding replace_schemas text_or_empty lookup
create_url schema (some url) = url
create_url schema none =
    replace_schemas schema.plural_name (text_or_empty (lookup self schema.links))

module _ (types : Dict Schema) where
  unfoldable pub schema_of : Text → Outcome ApiFailure Schema
  unfolding lookup found
  schema_of type_name = found (unknown_type type_name) (lookup type_name types)

  unfoldable pub plan_list : Text → List (Text × List Text) → Outcome ApiFailure Call
  unfolding schema_of allowed contains found lookup
  plan_list type_name filters = schema_of type_name >>= λ schema.
      allowed (contains schema.collection_methods (codes "GET")) type_name >>= λ _.
      found (no_link collection) (lookup collection schema.links) >>= λ url. ok (get url filters)

  unfoldable pub plan_create : Text → Text → Outcome ApiFailure Call
  unfolding schema_of allowed contains create_url lookup
  plan_create type_name body = schema_of type_name >>= λ schema.
      allowed (contains schema.collection_methods (codes "POST")) type_name >>= λ _.
      ok (modify (codes "POST") (create_url schema (lookup collection schema.links)) body)

  unfoldable pub plan_update : Text → Option Resource → Text → Outcome ApiFailure Call
  unfolding schema_of allowed contains found lookup
  plan_update type_name existing body = found nil_object existing >>= λ r.
      found (no_link self) (lookup self r.links) >>= λ url. schema_of type_name >>= λ schema.
      allowed (contains schema.resource_methods (codes "PUT")) type_name >>= λ _.
      ok (modify (codes "PUT") url body)

  unfoldable pub plan_by_id : Text → Text → Outcome ApiFailure Call
  unfolding schema_of allowed contains found lookup
  plan_by_id type_name id = schema_of type_name >>= λ schema.
      allowed (contains schema.resource_methods (codes "GET")) type_name >>= λ _.
      found (no_link collection) (lookup collection schema.links) >>= λ url.
      ok (get (url ++ (b'/' ∷ id)) [])

  unfoldable pub plan_resource_delete : Text → Resource → Outcome ApiFailure Call
  unfolding schema_of allowed contains found lookup
  plan_resource_delete type_name r = schema_of type_name >>= λ schema.
      allowed (contains schema.resource_methods (codes "DELETE")) type_name >>= λ _.
      found (no_link self) (lookup self r.links) >>= λ url. ok (remove url)

  unfoldable pub plan_action : Text → Text → Option Resource → Text → Outcome ApiFailure Call
  unfolding schema_of found lookup
  plan_action type_name action existing body = found nil_object existing >>= λ r.
      found (not_allowed action) (lookup action r.actions) >>= λ url.
      schema_of type_name >>= λ schema. ok (act url body)

unfoldable pub plan_reload : Resource → Outcome ApiFailure Call
unfolding found lookup
plan_reload r = found (no_link self) (lookup self r.links) >>= λ url. ok (get url [])

unfoldable pub plan_next : Text → Call
plan_next url = get url []

module _ (w : Web) (net : Request → Outcome ApiFailure Reply) (c : Client) where
  -- An answer that is good, or an API error. A run out of fuel does not occur: `send-IsSafe`.
  unfoldable pub judged :
      (ℕ → Bool) → Option (Outcome ApiFailure Answer) → Option (Outcome ApiFailure Text)
  judged good none = none
  judged good (some (err e)) = some (err e)
  judged good (some (ok a)) = some (if good a.status then ok a.body else err (bad_status a.status))

  unfoldable pub run :
      Outcome ApiFailure Request → (ℕ → Bool) → List Request × Option (Outcome ApiFailure Text)
  unfolding send judged
  run (err e) good = ([], some (err e))
  run (ok req) good = let out = send w c.origin net req in (out.0, judged good out.1)

  unfoldable pub with_filters : Text → List (Text × List Text) → Outcome ApiFailure Text
  with_filters url filters = if is_empty filters then ok url else w.add_query url filters

  -- Each of these has the requests that it sends, and the body of the answer, which the caller
  -- reads or, behind a deletion, does not.
  do_get : Text → List (Text × List Text) → List Request × Option (Outcome ApiFailure Text)
  unfolding run with_filters new_request
  do_get url filters =
      run (with_filters url filters >>= λ u. new_request w c.origin c.opts (codes "GET") u [])
        (λ n. n == 200)

  do_modify : Text → Text → Text → List Request × Option (Outcome ApiFailure Text)
  unfolding run new_request
  do_modify method url body = run (new_request w c.origin c.opts method url body) (λ n. ltb n 300)

  do_delete : Text → List Request × Option (Outcome ApiFailure Text)
  unfolding run new_request
  do_delete url = run (new_request w c.origin c.opts (codes "DELETE") url []) (λ n. ltb n 300)

  do_action : Text → Text → List Request × Option (Outcome ApiFailure Text)
  unfolding run new_request
  do_action url body = run (new_request w c.origin c.opts (codes "POST") url body) (λ n. ltb n 300)

  unfoldable pub perform : Call → List Request × Option (Outcome ApiFailure Text)
  unfolding do_get do_modify do_delete do_action
  perform (get url filters) = do_get url filters
  perform (modify method url body) = do_modify method url body
  perform (remove url) = do_delete url
  perform (act url body) = do_action url body

  -- A call that has not been allowed sends nothing.
  unfoldable pub perform_plan :
      Outcome ApiFailure Call → List Request × Option (Outcome ApiFailure Text)
  unfolding perform
  perform_plan (err e) = ([], some (err e))
  perform_plan (ok call) = perform call
