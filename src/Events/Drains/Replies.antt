-- ===== src/Events/Drains/Replies.antt =====
-- The outcome of `HandleDrainEvent`, and who is replied to when a drain ends.
use load_balancer_controller.Base.{
  Bool, true, false, Option, some, none, List, [], ◌∷◌, ◌≡◌, refl, ◌∙◌, inl, inr, if◌then◌else◌,
  is_empty, Bool-cases,
}
use load_balancer_controller.Base.Text.{Text, text_eq_refl}
use load_balancer_controller.Base.Dict.{lookup, lookup-insert, lookup-delete}
use load_balancer_controller.Config.{Endpoint}
use load_balancer_controller.Events.{Event, Publish}
use load_balancer_controller.Events.Drains.{
  Drainer, Handler, Verdict, reply_now, reply_later, panicked, Task, poller, timer, new_reply,
  save_event, start_drain, drain_target, publish_reply, forget, reply_saved, reply_to_event,
  poll_round,
}

module _ (d : Drainer) (hash_ip : Text → Text) (accepts : List Publish → Publish → Bool) where
  -- A reply at once leaves the map alone and starts nothing. A reply that waits is for an
  -- endpoint in the drain list whose newest event is this one, and the goroutines are started
  -- both or not at all.
  abbrev pub Joined : Endpoint → Event → Handler d → Verdict × Handler d × List Task → Type 0
  Joined ep event h (reply_now, h', tasks) = (h'.event_map ≡ h.event_map) × (tasks ≡ [])
  Joined ep event h (panicked, h', tasks) = ⊥
  Joined ep event h (reply_later, h', tasks) =
      (lookup ep.name h'.event_map ≡ some event)
      × (d.check ep h'.drains ≡ true)
      × (tasks ≡ (if d.check ep h.drains then [] else poller ep event ∷ timer ep event ∷ []))

  start_drain-Joined :
      (ep : Endpoint) (event : Event) (h : Handler d) (r : Bool × d.State)
      → d.check ep h.drains ≡ false
      → (r.0 ≡ true → d.check ep r.1 ≡ true)
      → Joined ep event h (start_drain d hash_ip accepts ep event h r)
  unfolding start_drain save_event
  start_drain-Joined ep event h (false, s) e k = (refl, refl)
  start_drain-Joined ep event h (true, s) e k = (rw (lookup-insert, text_eq_refl), k refl, rw e)

  -- A drain event for an endpoint is either answered at once, with nothing recorded, or recorded
  -- as the newest event of an endpoint in the drain list; a second event joins the drain.
  pub drain_target-Joined :
      (ep : Endpoint) (event : Event) (h : Handler d)
      → Joined ep event h (drain_target d hash_ip accepts ep event h)
  unfolding drain_target save_event
  drain_target-Joined ep event h = elim (Bool-cases (d.check ep h.drains)) [
    | inl e ↦ rw e (rw (lookup-insert, text_eq_refl), e, rw e)
    | inr e ↦
        rw e (start_drain-Joined ep event h (d.start ep h.drains) e (d.start_check ep h.drains))
  ]

  publish_reply-same :
      (event : Event) (h : Handler d)
      → ((publish_reply d hash_ip accepts event h).1.drains ≡ h.drains)
        × ((publish_reply d hash_ip accepts event h).1.event_map ≡ h.event_map)
  unfolding publish_reply
  publish_reply-same event h = elim (Bool-cases (is_empty event.reply_to)) [
    | inl e ↦ rw e (refl, refl)
    | inr e ↦ rw e (refl, refl)
  ]

  forget-drains :
      (name : Text) (r : Bool × Handler d) → (forget d hash_ip accepts name r).drains ≡ r.1.drains
  unfolding forget
  forget-drains name (false, h) = refl
  forget-drains name (true, h) = refl

  reply_saved-drains :
      (ep : Endpoint) (event : Event) (o : Option Event) (h : Handler d)
      → (reply_saved d hash_ip accepts ep event o h).drains ≡ h.drains
  unfolding reply_saved
  reply_saved-drains ep event none h = (publish_reply-same event h).0
  reply_saved-drains ep event (some saved) h =
      forget-drains ep.name (publish_reply d hash_ip accepts saved h)
      ∙ (publish_reply-same saved h).0

  reply_to_event-drains :
      (ep : Endpoint) (event : Event) (h : Handler d)
      → (reply_to_event d hash_ip accepts ep event h).drains ≡ h.drains
  unfolding reply_to_event
  reply_to_event-drains ep event h = reply_saved-drains ep event (lookup ep.name h.event_map) h

  -- When the poller of an endpoint ends, the endpoint is not in the drain list any more.
  pub poll_round_ended :
      (ep : Endpoint) (event : Event) (h : Handler d)
      → (poll_round d hash_ip accepts ep event h).0 ≡ false
      → d.check ep (poll_round d hash_ip accepts ep event h).1.drains ≡ false
  unfolding poll_round
  poll_round_ended ep event h ended = elim (Bool-cases (d.check ep h.drains)) [
    | inr e ↦ rw (e, (publish_reply-same event h).0) e
    | inl e ↦ elim (Bool-cases (d.poll ep h.drains).0) [
      | inl f ↦ rw (e, f, reply_to_event-drains) (d.remove_check ep (d.poll ep h.drains).1)
      | inr f ↦ absurd (cc (rw (e, f) at ended))
    ]
  ]

  -- The reply of a drain that ends goes to the event saved last, if that names a reply, not to the one that started the
  -- drain; the saved event is forgotten exactly when the API takes the reply.
  pub reply_to_event-newest :
      (ep : Endpoint) (event saved : Event) (h : Handler d)
      → lookup ep.name h.event_map ≡ some saved
      → is_empty saved.reply_to ≡ false
      → let h' = reply_to_event d hash_ip accepts ep event h in
        (h'.sent ≡ new_reply saved ∷ h.sent)
        × (lookup ep.name h'.event_map
            ≡ (if accepts h.sent (new_reply saved) then none else some saved))
  unfolding reply_to_event reply_saved publish_reply
  reply_to_event-newest ep event saved h found named =
      rw (found, named)
        (elim (Bool-cases (accepts h.sent (new_reply saved))) [
          | inl e ↦ rw e (unfold forget in (refl, rw (lookup-delete, text_eq_refl)))
          | inr e ↦ rw e (unfold forget in (refl, found))
        ])
