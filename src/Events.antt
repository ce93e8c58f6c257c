-- ===== src/Events.antt =====
-- The event listener's workers (internal/events/worker.go) and the handler of drain events
-- (controller/rancher/rancher_events_handler.go).
pub mod Work
pub mod Pool
pub mod Blocking
pub mod Drains
pub mod Listener
pub mod Registration
use load_balancer_controller.Base.{Bool, Option, List}
use load_balancer_controller.Base.Text.{Text}
use load_balancer_controller.Base.Dict.{Dict}

-- A value of `Data`: JSON null, a string, or anything else.
pub data Datum : Type 0 where
  null : Datum
  text : Text → Datum
  other : Datum

-- The fields of an `Event` that the code reads.
pub record Event : Type 0 where
  pub name : Text
  pub id : Text
  pub reply_to : Text
  pub resource_id : Text
  pub resource_type : Text
  pub payload : Dict Datum

-- The fields of a `Publish` that the code writes.
pub record Publish : Type 0 where
  pub name : Text
  pub previous_ids : List Text
  pub resource_type : Text
  pub resource_id : Text
  pub transitioning : Text
  pub transitioning_message : Text
