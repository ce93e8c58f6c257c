-- ===== src/Events/Registration.antt =====
-- The external handlers of a router (internal/events/external_handler.go), over the calls of the
-- control plane, each of which may change its state.
pub mod Names
use load_balancer_controller.Base.{
  Bool, true, ◌||◌, Option, some, none, List, [], ◌∷◌, ◌++◌, if◌then◌else◌, is_empty, is_some, any,
}
use load_balancer_controller.Base.Text.{Text, codes, text_eq, to_lower, ℤ}
use load_balancer_controller.Base.Outcome.{Outcome, ok, err}
use load_balancer_controller.Base.Dict.{Dict, lookup}

pub record Handler : Type 0 where
  pub id : Text
  pub actions : Dict Text
  pub transitioning : Text

-- `ExternalHandler` as it is made, with its `ProcessConfigs`: the event and `onError`.
pub record NewHandler : Type 0 where
  pub name : Text
  pub uuid : Text
  pub priority : ℤ
  pub process_configs : List (Text × Text)

module _ (S E : Type 0) where
  -- A call: from the state of the control plane to its answer and the next state.
  abbrev pub Call : Type 0 → Type 0
  Call A = S → Outcome E A × S

  abbrev return : {A : Type 0} → A → Call A
  return a s = (ok a, s)

  unfoldable pub after_call : {A B : Type 0} → (A → Call B) → Outcome E A × S → Outcome E B × S
  after_call f (err e, s) = (err e, s)
  after_call f (ok a, s) = f a s

  unfoldable pub then_call : {A B : Type 0} → Call A → (A → Call B) → Call B
  unfolding after_call
  then_call c f s = after_call f (c s)

  -- The calls that the router makes. `wait` is `waitForTransition` on the handler with an
  -- identifier; a handler that `by_id` does not find is nil.
  pub record Api : Type 0 where
    -- the active handlers with a name
    pub active : Text → Call (List Handler)
    pub by_id : Text → Call (Option Handler)
    pub deactivate : Handler → Call Handler
    pub remove : Handler → Call Handler
    pub create : NewHandler → Call Handler
    pub wait : Text → Call Bool

  module _ (api : Api) where
    deactivated : Handler → Call Handler
    unfolding then_call lookup
    deactivated h =
        if is_some (lookup (codes "deactivate") h.actions)
        then then_call (api.deactivate h) (λ h'. then_call (api.wait h'.id) (λ _. return h'))
        else return h

    removed : Option Handler → Call Bool
    unfolding then_call lookup
    removed none = return true
    removed (some h) =
        if is_some (lookup (codes "remove") h.actions)
        then then_call (api.remove h) (λ h'. then_call (api.wait h'.id) (λ _. return true))
        else return true

    remove_each : List Handler → Call Bool
    unfolding deactivated removed then_call
    remove_each [] = return true
    remove_each (h ∷ hs) = then_call (deactivated h) (λ h'.
        then_call (api.by_id h'.id) (λ found. then_call (removed found) (λ _. remove_each hs)))

    -- `removeOldHandler`
    unfoldable pub remove_old_handler : Text → Call Bool
    unfolding remove_each then_call
    remove_old_handler name = then_call (api.active name) remove_each

    -- The loop of `RemoveExternalHandlers`; `seen` are the names that are done.
    unfoldable pub remove_unseen : Text → List Text → List Text → Call Bool
    unfolding remove_old_handler then_call text_eq any
    remove_unseen own seen [] = return true
    remove_unseen own seen (name ∷ names) =
        let past = remove_unseen own seen names in
        let more =
          then_call (remove_old_handler name) (λ _. remove_unseen own (name ∷ seen) names) in
        if is_empty name || text_eq name own || any (text_eq name) seen then past else more

    unfoldable pub remove_external_handlers : Text → List Text → Call Bool
    unfolding remove_unseen
    remove_external_handlers own names = remove_unseen own [] names

    process_configs : Text → List Text → List (Text × Text)
    unfolding to_lower
    process_configs resource_name [] = []
    process_configs resource_name (event ∷ events) =
        (event, to_lower resource_name ++ codes ".error") ∷ process_configs resource_name events

    -- `createExternalHandler`: the router's own name is freed first.
    unfoldable pub create_external_handler : Text → ℤ → Text → List Text → Call Bool
    unfolding remove_old_handler process_configs then_call
    create_external_handler name priority resource_name events =
        then_call (remove_old_handler name) (λ _.
          then_call
            (api.create (record {
              name = name;
              uuid = name;
              priority = priority;
              process_configs = process_configs resource_name events;
            }))
            (λ h. api.wait h.id))
