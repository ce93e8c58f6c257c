-- ===== src/Startup.antt =====
-- The program's entry and its registries: controller/controller.go, provider/provider.go, main.go,
-- healthcheck.go, the credentials of controller/rancher/rancher.go, and the log-level endpoint
-- (internal/logserver/server.go).
use load_balancer_controller.Base.{
  ℕ, Bool, true, not, ◌&&◌, Option, some, none, ◌≡◌, ap, ◌∙◌, if◌then◌else◌, is_empty, is_some,
  arith, inl, inr, Bool-cases,
}
use load_balancer_controller.Base.Text.{Text, codes, text_eq}
use load_balancer_controller.Base.Dict.{Dict, lookup, insert}
use load_balancer_controller.Base.Outcome.{Outcome, ok, err}
use load_balancer_controller.Config.{LoadBalancerConfig}
use load_balancer_controller.Controller.Sync
use load_balancer_controller.Controller.Sync.{stop}

-- The first of two looks into a map that finds something.
first_of {ℓ} : {A : Type ℓ} → Option A → Option A → Option A
first_of none b = b
first_of (some a) b = some a

module _ {A : Type 0} where
  -- `RegisterController` and `RegisterProvider`.
  unfoldable pub register : Text → A → Dict A → Outcome Text (Dict A)
  unfolding lookup insert
  register name a m =
      if is_some (lookup name m) then err (codes "already registered") else ok (insert name a m)

  -- `GetController`: only a controller that is found by its name is initialized.
  unfoldable pub get_controller : (A → A) → Text → Dict A → Option A
  unfolding first_of lookup
  get_controller init name m = elim (lookup name m) [
    | some c ↦ some (init c)
    | none ↦ lookup (codes "rancher") m
  ]

  -- `GetProvider`
  unfoldable pub get_provider : Text → Dict A → Option A
  unfolding first_of lookup
  get_provider name m = first_of (lookup name m) (lookup (codes "rancher") m)

-- What `run` does before it starts the controller.
pub data Start (C P : Type 0) : Type 0 where
  no_controller : Text → Start C P
  no_provider : Text → Start C P
  started : C → P → Start C P

module _ {C P : Type 0} where
  start_with : Text → Text → Option C → Option P → Start C P
  start_with controller provider none p = no_controller controller
  start_with controller provider (some c) none = no_provider provider
  start_with controller provider (some c) (some p) = started c p

  unfoldable pub run : (C → C) → Text → Text → Dict C → Dict P → Start C P
  unfolding start_with get_controller get_provider
  run init controller provider controllers providers =
      start_with controller provider (get_controller init controller controllers)
        (get_provider provider providers)

-- `firstCredential`, of the values of the two variables.
unfoldable pub first_credential : Text → Text → Text
first_credential primary compatibility = if not (is_empty primary) then primary else compatibility

-- The health check: the status and the text of the answer.
unfoldable pub healthcheck : Text → Bool → Bool → ℕ × Text
unfolding text_eq
healthcheck method controller_is_healthy provider_is_healthy =
    if not (text_eq method (codes "GET")) && not (text_eq method (codes "HEAD"))
    then (405, codes "method not allowed")
    else if not controller_is_healthy
    then (500, codes "Healthcheck failed for LB controller")
    else if not provider_is_healthy
    then (500, codes "Healthcheck failed for LB provider")
    else (200, codes "OK")

-- A request for the log level: the form that was posted, if it could be read, and the level that
-- its text stands for, if any.
module _ {L : Type 0} (parse_level : Text → Option L) (print : L → Text) where
  set_level : L → Option L → ℕ × Text × L
  set_level level none = (400, codes "invalid log level", level)
  set_level level (some l) = (200, codes "OK", l)

  post_level : L → Option Text → ℕ × Text × L
  unfolding set_level
  post_level level none = (400, codes "invalid form", level)
  post_level level (some text) = set_level level (parse_level text)

  unfoldable pub log_level : Text → Option Text → L → ℕ × Text × L
  unfolding post_level text_eq
  log_level method form level =
      if text_eq method (codes "GET")
      then (200, print level, level)
      else if text_eq method (codes "POST")
      then post_level level form
      else (405, codes "method not allowed", level)

-- `handleSigterm`: the code that the program exits with.
exit_code : Outcome Text (Unit {0}) → ℕ
exit_code (ok _) = 0
exit_code (err e) = 1

module _ (P : Type 0) (apply : LoadBalancerConfig → P → Bool × P) where
  unfoldable pub handle_sigterm :
      Outcome Text (Unit {0}) → Sync.Controller P apply → ℕ × Sync.Controller P apply
  unfolding exit_code stop
  handle_sigterm r c = let out = stop P apply r c in (exit_code out.0, out.1)

  stop-err :
      (r : Outcome Text (Unit {0})) (c : Sync.Controller P apply)
      → exit_code (stop P apply r c).0 ≡ 1
  unfolding exit_code stop Sync.after_stop
  stop-err (err e) c = ground arith
  stop-err (ok _) c = ground arith

  -- A program that gets the termination signal exits with code 1, whatever its state and whatever
  -- the provider's stop returns: also when the provider has stopped and the controller, which was
  -- running, has shut down as it should.
  pub handle_sigterm-fails :
      (r : Outcome Text (Unit {0})) (c : Sync.Controller P apply)
      → ((handle_sigterm r c).0 ≡ 1) × ((handle_sigterm (ok tt) c).1.shutdown ≡ true)
  unfolding handle_sigterm
  handle_sigterm-fails r c = (
    stop-err r c,
    elim (Bool-cases c.shutdown) [
      | inl e ↦
          ap (λ (x : Sync.Controller P apply). x.shutdown) (Sync.stop_down P apply (ok tt) c e) ∙ e
      | inr e ↦ ap (λ (x : Sync.Controller P apply). x.shutdown) (Sync.stop_up P apply c e)
    ],
  )
