-- ===== src/Events/Listener.antt =====
-- The event router (internal/events/listener.go) and its pings (websocket_pings.go), without the
-- socket: the subscription, the loop over messages, and the wait for a transition (util.go).
use load_balancer_controller.Base.{
  ℕ, ◌+◌, ltb, Bool, true, false, Option, some, none, List, [], ◌∷◌, ◌++◌, if◌then◌else◌, is_empty,
  map,
}
use load_balancer_controller.Base.Text.{
  Text, codes, text_eq, has_suffix, trim_space, atoi, ℤ, pos, int_eq,
}
use load_balancer_controller.Base.Dict.{Dict, lookup, insert}
use load_balancer_controller.Base.Outcome.{Outcome, ok, err}
use load_balancer_controller.Events.{Event}
use mathlib.Core.List.{reverse}

-- The scheme, path, query and fragment of a URL.
pub record Address : Type 0 where
  pub scheme : Text
  pub host : Text
  pub path : Text
  pub raw_query : Text
  pub fragment : Text

socket_scheme : Text → Option Text
unfolding text_eq
socket_scheme scheme =
    if text_eq scheme (codes "http")
    then some (codes "ws")
    else if text_eq scheme (codes "https")
    then some (codes "wss")
    else none

last_off : Text → Text
last_off [] = []
last_off (c ∷ s) = s

-- `strings.TrimSuffix(path, "/")`
without_slash : Text → Text
unfolding has_suffix last_off
without_slash path = if has_suffix path (codes "/") then reverse (last_off (reverse path)) else path

-- The subscription of `NewEventRouter`; `none` is an unsupported scheme.
unfoldable pub subscription : Address → Option Address
unfolding socket_scheme without_slash
subscription u = elim (socket_scheme u.scheme) [
  | none ↦ none
  | some scheme ↦ some (record u {
    scheme = scheme;
    path = without_slash u.path ++ codes "/subscribe";
    raw_query = [];
    fragment = [];
  })
]

-- `defaultTimeout`
timeout_or : Option ℤ → ℤ
unfolding int_eq
timeout_or none = pos 30
timeout_or (some n) = if int_eq n (pos 0) then pos 30 else n

unfoldable pub default_timeout : Text → ℤ
unfolding timeout_or atoi
default_timeout variable = timeout_or (atoi variable)

module _ {H : Type 0} where
  add_suffixed : Text → Dict H → Dict H → Dict H
  unfolding insert
  add_suffixed suffix [] m = m
  add_suffixed suffix ((event, handler) ∷ rest) m =
      add_suffixed suffix rest (insert (event ++ suffix) handler m)

  ping_only : Option H → Dict H
  ping_only none = []
  ping_only (some h) = (codes "ping", h) ∷ []

  -- The handlers of `run`: the ping keeps its name.
  unfoldable pub make_handlers : Text → Dict H → Dict H
  unfolding add_suffixed ping_only lookup
  make_handlers suffix handlers =
      add_suffixed suffix handlers (ping_only (lookup (codes "ping") handlers))

  -- `eventNames` of the subscription.
  unfoldable pub event_names : Text → Dict H → List Text
  event_names suffix handlers = map (λ (e : Text × H). e.0 ++ suffix) handlers

-- What JSON makes of a message. The text `null` makes the event nil, which the worker then reads.
pub data Decoded : Type 0 where
  event : Event → Decoded
  null : Decoded
  invalid : Decoded

-- A message that is read, until the connection ends; `decode` is JSON's.
module _ (decode : Text → Decoded) where
  take_decoded : Decoded → Option (List Event) → Option (List Event)
  take_decoded (event e) none = none
  take_decoded (event e) (some es) = some (e ∷ es)
  take_decoded null rest = none
  take_decoded invalid rest = rest

  -- The events that are given to the worker pool, in order; `none` is a panic.
  unfoldable pub run_messages : List Text → Option (List Event)
  unfolding take_decoded trim_space
  run_messages [] = some []
  run_messages (m ∷ ms) =
      let rest = run_messages ms in
      if is_empty (trim_space m) then rest else take_decoded (decode (trim_space m)) rest

-- `waitForTransition` over its ticks: the time since the start in milliseconds, and what the wait
-- function says then. `none`: it still waits.
pub data Transition (E : Type 0) : Type 0 where
  reached : Transition E
  timed_out : Transition E
  failed : E → Transition E

module _ {E : Type 0} where
  tick_result : ℕ → Outcome E Bool → Option (Transition E) → Option (Transition E)
  tick_result tick (err e) rest = some (failed e)
  tick_result tick (ok true) rest = some reached
  tick_result tick (ok false) rest = if ltb 10000 tick then some timed_out else rest

  unfoldable pub wait_for_transition : List (ℕ × Outcome E Bool) → Option (Transition E)
  unfolding tick_result
  wait_for_transition [] = none
  wait_for_transition ((tick, answer) ∷ ticks) = tick_result tick answer (wait_for_transition ticks)

-- `pongHandler`: the time of the last pong, and the check of the timer, which closes the stream.
unfoldable pub is_overdue : ℕ → ℕ → ℕ → Bool
is_overdue max_wait last_ping now = ltb (last_ping + max_wait) now

-- What happens to the handler: a pong, or a tick of its timer, at a time.
pub data Beat : Type 0 where
  pong : ℕ → Beat
  tick : ℕ → Beat

-- The times at which the timer closes the stream.
unfoldable pub closings : ℕ → ℕ → List Beat → List ℕ
unfolding is_overdue
closings max_wait last_ping [] = []
closings max_wait last_ping (pong now ∷ beats) = closings max_wait now beats
closings max_wait last_ping (tick now ∷ beats) =
    let rest = closings max_wait last_ping beats in
    if is_overdue max_wait last_ping now then now ∷ rest else rest
