-- ===== src/ApiClient/Allowed.antt =====
-- The calls on resources as one type of operations, and what the schemas say of each.
use load_balancer_controller.Base.{
  Bool, true, false, ◌&&◌, Option, some, none, List, [], ◌≡◌, refl, ap, is_some, inl, inr, ◌⊎◌,
}
use load_balancer_controller.Base.Text.{Text, codes}
use load_balancer_controller.Base.Dict.{Dict, lookup}
use load_balancer_controller.Base.Outcome.{Outcome, ok, err, ◌>>=◌, bind-eq-ok, ok-inj}
use load_balancer_controller.ApiClient.Url.{
  ApiFailure, unknown_type, nil_object, not_allowed, no_link,
}
use load_balancer_controller.ApiClient.Origin.{Web, Request}
use load_balancer_controller.ApiClient.Redirects.{Reply}
use load_balancer_controller.ApiClient.Resources.{
  Schema, Resource, Client, Call, contains, found, allowed, schema_of, plan_list, plan_create,
  plan_update, plan_by_id, plan_resource_delete, plan_action, perform_plan, self,
}

pub data Operation : Type 0 where
  list : Text → List (Text × List Text) → Operation
  create : Text → Text → Operation
  update : Text → Option Resource → Text → Operation
  by_id : Text → Text → Operation
  resource_delete : Text → Resource → Operation
  action : Text → Text → Option Resource → Text → Operation

unfoldable pub plan : Dict Schema → Operation → Outcome ApiFailure Call
unfolding plan_list plan_create plan_update plan_by_id plan_resource_delete plan_action
plan types (list name filters) = plan_list types name filters
plan types (create name body) = plan_create types name body
plan types (update name existing body) = plan_update types name existing body
plan types (by_id name id) = plan_by_id types name id
plan types (resource_delete name r) = plan_resource_delete types name r
plan types (action name act existing body) = plan_action types name act existing body

-- The schema is known, and passes the test.
schema_passes : (Schema → Bool) → Option Schema → Bool
schema_passes p none = false
schema_passes p (some schema) = p schema

has_action : Text → Option Resource → Bool
unfolding lookup
has_action name none = false
has_action name (some r) = is_some (lookup name r.actions)

-- The schemas list the method, or the resource the action, of the operation.
unfoldable pub permits : Dict Schema → Operation → Bool
unfolding schema_passes has_action contains lookup
permits types (list name filters) =
    schema_passes (λ s. contains s.collection_methods (codes "GET")) (lookup name types)
permits types (create name body) =
    schema_passes (λ s. contains s.collection_methods (codes "POST")) (lookup name types)
permits types (update name existing body) =
    schema_passes (λ s. contains s.resource_methods (codes "PUT")) (lookup name types)
permits types (by_id name id) =
    schema_passes (λ s. contains s.resource_methods (codes "GET")) (lookup name types)
permits types (resource_delete name r) =
    schema_passes (λ s. contains s.resource_methods (codes "DELETE")) (lookup name types)
permits types (action name act existing body) =
    has_action act existing && is_some (lookup name types)

found-ok {ℓ} : {A : Type ℓ} (e : ApiFailure) (o : Option A) {a : A} → found e o ≡ ok a → o ≡ some a
unfolding found
found-ok e none h = absurd (cc h)
found-ok e (some b) h = ap some (ok-inj h)

allowed-ok : (b : Bool) (t : Text) {a : Text} → allowed b t ≡ ok a → b ≡ true
unfolding allowed
allowed-ok true t h = refl
allowed-ok false t h = absurd (cc h)

-- The beginning that most of the calls have.
schema_allowed :
    (types : Dict Schema) (name : Text) (p : Schema → Bool) (k : Schema → Outcome ApiFailure Call)
    {call : Call}
    → (schema_of types name >>= λ s. allowed (p s) name >>= λ _. k s) ≡ ok call
    → schema_passes p (lookup name types) ≡ true
unfolding schema_of schema_passes
schema_allowed types name p k h =
    let (s, e, h1) = bind-eq-ok (schema_of types name) _ h in
    let (t, a, h2) = bind-eq-ok (allowed (p s) name) _ h1 in
    rw (found-ok (unknown_type name) (lookup name types) e) (allowed-ok (p s) name a)

plan-permits :
    (types : Dict Schema) (op : Operation) {call : Call}
    → plan types op ≡ ok call
    → permits types op ≡ true
unfolding plan permits plan_list plan_create plan_update plan_by_id plan_resource_delete plan_action
plan-permits types (list name filters) h = schema_allowed types name _ _ h
plan-permits types (create name body) h = schema_allowed types name _ _ h
plan-permits types (update name existing body) h =
    let (r, e, h1) = bind-eq-ok (found nil_object existing) _ h in
    let (url, l, h2) = bind-eq-ok (found (no_link self) (lookup self r.links)) _ h1 in
    schema_allowed types name _ _ h2
plan-permits types (by_id name id) h = schema_allowed types name _ _ h
plan-permits types (resource_delete name r) h = schema_allowed types name _ _ h
plan-permits types (action name act existing body) h =
    let (r, e, h1) = bind-eq-ok (found nil_object existing) _ h in
    let (url, l, h2) = bind-eq-ok (found (not_allowed act) (lookup act r.actions)) _ h1 in
    let (s, t, h3) = bind-eq-ok (schema_of types name) _ h2 in
    unfold has_action schema_of in
    rw
      (
        found-ok nil_object existing e,
        found-ok (not_allowed act) (lookup act r.actions) l,
        found-ok (unknown_type name) (lookup name types) t,
      )
      refl

-- However the network answers, an operation on resources gets to the network only when the schema
-- of its type is known and lists the operation's method, or, for an action, when its type is known
-- and the resource offers that action: otherwise nothing is sent, and the call returns an error.
pub perform_plan-permits :
    (w : Web) (net : Request → Outcome ApiFailure Reply) (c : Client) (op : Operation)
    → (permits c.types op ≡ true)
      ⊎ ((e : ApiFailure) × (perform_plan w net c (plan c.types op) ≡ ([], some (err e))))
unfolding perform_plan
perform_plan-permits w net c op = outcome (plan c.types op) refl
  where
    outcome :
        (r : Outcome ApiFailure Call)
        → plan c.types op ≡ r
        → (permits c.types op ≡ true)
          ⊎ ((e : ApiFailure) × (perform_plan w net c r ≡ ([], some (err e))))
    outcome (err e) h = inr (e, refl)
    outcome (ok call) h = inl (plan-permits c.types op h)
