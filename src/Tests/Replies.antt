-- ===== src/Tests/Replies.antt =====
-- Drain events over the HAProxy provider.
use load_balancer_controller.Base.{Bool, true, List, [], ◌∷◌}
use load_balancer_controller.Base.Text.{Text, codes}
use load_balancer_controller.Events.{Event, Publish}
use load_balancer_controller.Events.Drains.{Handler}
use load_balancer_controller.Events.Drains.Provided.{haproxy_drainer}
use load_balancer_controller.Tests.Machine.{haproxy, draining}

abbrev drain_event : Event
drain_event = record {
  name = codes "target.drain";
  id = codes "1";
  reply_to = codes "reply";
  resource_id = codes "5";
  resource_type = codes "target";
  payload = [];
}

abbrev later_event : Event
later_event = record drain_event { id = codes "2" }

abbrev same_name : Text → Text
same_name ip = ip

abbrev taken : List Publish → Publish → Bool
taken sent reply = true

-- The endpoint drains, and the newest event is the later one.
abbrev listening : Handler (haproxy_drainer haproxy)
listening = record {
  event_map = (codes "s1", later_event) ∷ [];
  sent = [];
  drains = (draining, []);
}
