-- ===== src/Events/Drains.antt =====
-- `REventsHandler` (controller/rancher/rancher_events_handler.go): drain events, the poller and the
-- timer of a drain, and the replies. The provider's four drain operations are an interface, the
-- hash of an address and the parser of a duration are parameters, and so is the API that takes
-- the replies.
pub mod Replies
pub mod Provided
use load_balancer_controller.Base.{
  ℕ, zero, suc, Bool, true, false, not, Option, some, none, List, [], ◌∷◌, ◌++◌, ◌≡◌, if◌then◌else◌,
  is_empty,
}
use load_balancer_controller.Base.Text.{Text, codes, ℤ, pos, negsuc, text_eq}
use load_balancer_controller.Base.Dict.{Dict, insert, lookup, delete}
use load_balancer_controller.Config.{Endpoint}
use load_balancer_controller.Events.{Event, Publish, Datum, null, text, other}

-- `CheckOnEvent`, `DoOnEvent`, `PollStatus` and `DoOnTimeout`, with what the handler relies on.
pub record Drainer : Type 1 where
  pub State : Type 0
  pub check : Endpoint → State → Bool
  pub start : Endpoint → State → Bool × State
  pub poll : Endpoint → State → Bool × State
  pub remove : Endpoint → State → State
  pub start_check :
      (ep : Endpoint) (s : State) → (start ep s).0 ≡ true → check ep (start ep s).1 ≡ true
  pub remove_check : (ep : Endpoint) (s : State) → check ep (remove ep s) ≡ false

-- `NewReply`
unfoldable pub new_reply : Event → Publish
new_reply event = record {
  name = event.reply_to;
  previous_ids = event.id ∷ [];
  resource_type = event.resource_type;
  resource_id = event.resource_id;
  transitioning = [];
  transitioning_message = [];
}

-- A goroutine that was started for an endpoint and an event.
pub data Task : Type 0 where
  poller : Endpoint → Event → Task
  timer : Endpoint → Event → Task

-- What `HandleDrainEvent` returns: whether to reply. `panicked` is a failed type assertion.
pub data Verdict : Type 0 where
  reply_now : Verdict
  reply_later : Verdict
  panicked : Verdict

module _ (d : Drainer) where
  -- The handler's map, the replies sent (the newest first), and the state of the provider.
  pub record Handler : Type 0 where
    pub event_map : Dict Event
    pub sent : List Publish
    pub drains : d.State

abbrev pub default_timeout : Text
default_timeout = codes "15000"

-- The endpoint of an event, before its timeout is read.
unfoldable pub target : (Text → Text) → Text → Text → Endpoint
target hash_ip ip timeout = record {
  name = hash_ip ip;
  ip = ip;
  port = pos 0;
  config = [];
  is_cname = false;
  drain_timeout = timeout;
  weight = pos 0;
  stopping = false;
}

-- `drainTimeout.(string)`, if the key is there.
unfoldable pub timeout_of : Option Datum → Option Text
timeout_of none = some default_timeout
timeout_of (some (text t)) = some t
timeout_of (some null) = none
timeout_of (some other) = none

module _ (d : Drainer) (hash_ip : Text → Text) (accepts : List Publish → Publish → Bool) where
  save_event : Endpoint → Event → Handler d → Handler d
  unfolding insert
  save_event ep event h = record h { event_map = insert ep.name event h.event_map }

  start_drain : Endpoint → Event → Handler d → Bool × d.State → Verdict × Handler d × List Task
  unfolding save_event
  start_drain ep event h (false, s) = (reply_now, record h { drains = s }, [])
  start_drain ep event h (true, s) = (
    reply_later,
    save_event ep event (record h { drains = s }),
    poller ep event ∷ timer ep event ∷ [],
  )

  -- The endpoint is known: join its drain, or start one.
  unfoldable pub drain_target : Endpoint → Event → Handler d → Verdict × Handler d × List Task
  unfolding save_event start_drain
  drain_target ep event h =
      if d.check ep h.drains
      then (reply_later, save_event ep event h, [])
      else start_drain ep event h (d.start ep h.drains)

  drain_address : Text → Option Text → Event → Handler d → Verdict × Handler d × List Task
  unfolding drain_target target
  drain_address ip none event h = (panicked, h, [])
  drain_address ip (some timeout) event h = drain_target (target hash_ip ip timeout) event h

  drain_datum : Option Datum → Event → Handler d → Verdict × Handler d × List Task
  unfolding drain_address timeout_of lookup
  drain_datum none event h = (reply_later, h, [])
  drain_datum (some null) event h = (reply_now, h, [])
  drain_datum (some other) event h = (panicked, h, [])
  drain_datum (some (text ip)) event h =
      drain_address ip (timeout_of (lookup (codes "drainTimeout") event.payload)) event h

  -- `HandleDrainEvent`
  unfoldable pub handle_drain_event : Event → Handler d → Verdict × Handler d × List Task
  unfolding drain_datum lookup
  handle_drain_event event h = drain_datum (lookup (codes "targetIPaddress") event.payload) event h

  -- `CreateAndPublishReply`: whether it returned nil. A reply with no name is not sent.
  unfoldable pub publish_reply : Event → Handler d → Bool × Handler d
  unfolding new_reply
  publish_reply event h =
      if is_empty event.reply_to
      then (true, h)
      else (accepts h.sent (new_reply event), record h { sent = new_reply event ∷ h.sent })

  after_drain : Event → Verdict × Handler d × List Task → Option Bool × Handler d × List Task
  unfolding publish_reply
  after_drain event (panicked, h, tasks) = (none, h, tasks)
  after_drain event (reply_later, h, tasks) = (some true, h, tasks)
  after_drain event (reply_now, h, tasks) =
      let (sent, h') = publish_reply event h in (some sent, h', tasks)

  -- `handle`: whether it returned nil, or `none` for a panic. Any event but a drain is passed over.
  unfoldable pub handle : Event → Handler d → Option Bool × Handler d × List Task
  unfolding after_drain handle_drain_event text_eq
  handle event h =
      if text_eq event.name (codes "target.drain")
      then after_drain event (handle_drain_event event h)
      else (some true, h, [])

  forget : Text → Bool × Handler d → Handler d
  unfolding delete
  forget name (false, h) = h
  forget name (true, h) = record h { event_map = delete name h.event_map }

  reply_saved : Endpoint → Event → Option Event → Handler d → Handler d
  unfolding publish_reply forget
  reply_saved ep event (some saved) h = forget ep.name (publish_reply saved h)
  reply_saved ep event none h = (publish_reply event h).1

  -- `replyToEvent`: the event saved last is replied to, and forgotten once the reply is taken.
  unfoldable pub reply_to_event : Endpoint → Event → Handler d → Handler d
  unfolding reply_saved lookup
  reply_to_event ep event h = reply_saved ep event (lookup ep.name h.event_map) h

  -- One round of `pollOnDrainResults`; true: another round follows after two seconds.
  unfoldable pub poll_round : Endpoint → Event → Handler d → Bool × Handler d
  unfolding publish_reply reply_to_event
  poll_round ep event h =
      let (drained, s) = d.poll ep h.drains in
      if not (d.check ep h.drains)
      then (false, (publish_reply event h).1)
      else if drained
      then (false, reply_to_event ep event (record h { drains = d.remove ep s }))
      else (true, record h { drains = s })

  -- The first tick of `doOnDrainTimeout`, which is its last: it returns or stops its ticker.
  unfoldable pub timer_tick : Endpoint → Event → Handler d → Handler d
  unfolding publish_reply reply_to_event
  timer_tick ep event h =
      let (drained, s) = d.poll ep h.drains in
      if not (d.check ep h.drains)
      then (publish_reply event h).1
      else reply_to_event ep event (record h { drains = if not drained then d.remove ep s else s })

-- What `doOnDrainTimeout` does with the timeout, which `time.ParseDuration` reads with "ms" behind
-- it, in nanoseconds: it gives up on one that
-- is no duration, and `time.NewTicker` panics on one that is not positive.
pub data Ticker : Type 0 where
  given_up : Ticker
  ticker_panic : Ticker
  ticking : ℕ → Ticker

unfoldable pub start_timer : (Text → Option ℤ) → Endpoint → Ticker
start_timer parse_duration ep = elim (parse_duration ep.drain_timeout) [
  | none ↦ given_up
  | some (pos zero) ↦ ticker_panic
  | some (pos (suc n)) ↦ ticking (suc n)
  | some (negsuc n) ↦ ticker_panic
]
