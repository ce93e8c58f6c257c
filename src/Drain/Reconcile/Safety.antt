-- ===== src/Drain/Reconcile/Safety.antt =====
-- The commands that one inner loop of `reconcileDrains` sends.
use load_balancer_controller.Base.{Bool, true, false, [], ◌∷◌, ◌≡◌, refl, arith, ◌⊎◌, inl, inr}
use load_balancer_controller.Base.Text.{Text, ℤ, pos}
use load_balancer_controller.Base.Dict.{lookup}
use load_balancer_controller.Drain.State.{ServerState, DrainWeight, Weights}
use load_balancer_controller.Drain.Runtime.{Command, show_servers_state, set_weight, Log, Env}
use load_balancer_controller.Drain.Servers.{set_weight_verified}
use load_balancer_controller.Drain.Reconcile.Extends.{
  Extends, same, Extends-trans, Extends-map, set_weight_verified-Extends,
}
use load_balancer_controller.Drain.Reconcile.Actions.{
  Chosen, active-Chosen, idle-Chosen, active-ne-restore, idle-ne-reapply,
}
use load_balancer_controller.Drain.Reconcile.{
  Action, disown, hold, reapply, restore, Pass, decide, perform, active_action, idle_action, sweep,
}
use mathlib.Core.List.{Memᴰ}

-- The commands that a sweep may send: reads, and weights for entries that it was given, at a
-- wish and a server state under which the command is allowed.
pub data Justified (p : Pass) (active : Bool) (ws : Weights) : Command → Type 0 where
  looking : Justified p active ws show_servers_state
  setting :
      (key : Text) (w : DrainWeight) (v : ℤ)
      → Memᴰ (key, w) ws
      → Chosen p.pid w (lookup key p.desired) (lookup key p.states) active v
      → Justified p active ws (set_weight key v)

Justified-tail :
    {p : Pass} {active : Bool} {ws : Weights} (e : Text × DrainWeight) (c : Command)
    → Justified p active ws c
    → Justified p active (e ∷ ws) c
Justified-tail e c looking = looking
Justified-tail e c (setting key w v m h) = setting key w v (Memᴰ.tail m) h

perform_one :
    (p : Pass) (active : Bool) (ws : Weights) (key : Text) (w : DrainWeight) (v : ℤ) (log : Log)
    → Chosen p.pid w (lookup key p.desired) (lookup key p.states) active v
    → Extends (Justified p active ((key, w) ∷ ws)) log (set_weight_verified p.env key v log).1
perform_one p active ws key w v log c =
    set_weight_verified-Extends p.env key v log (setting key w v (Memᴰ.head refl) c) looking

perform-reapply_log :
    (env : Env) (key : Text) (s : ServerState) (w : DrainWeight) (log : Log)
    → ((perform env key (reapply s w) log).log ≡ log)
      ⊎ ((perform env key (reapply s w) log).log ≡ (set_weight_verified env key (pos 0) log).1)
unfolding perform
perform-reapply_log env key s w log = ground arith

perform-restore_log :
    (env : Env) (key : Text) (s : ServerState) (w : DrainWeight) (v : ℤ) (log : Log)
    → ((perform env key (restore s w v) log).log ≡ log)
      ⊎ ((perform env key (restore s w v) log).log ≡ (set_weight_verified env key v log).1)
unfolding perform
perform-restore_log env key s w v log = ground arith

module _ (p : Pass) (ws : Weights) (key : Text) (w : DrainWeight) (log : Log) where
  perform_active-Justified :
      (a : Action)
      → active_action p.pid w (lookup key p.desired) (lookup key p.states) ≡ a
      → Extends (Justified p true ((key, w) ∷ ws)) log (perform p.env key a log).log
  perform_active-Justified disown e = unfold perform in same
  perform_active-Justified (hold w') e = unfold perform in same
  perform_active-Justified (reapply s w') e = elim (perform-reapply_log p.env key s w' log) [
    | inl q ↦ rw q same
    | inr q ↦ rw q (perform_one p true ws key w (pos 0) log (active-Chosen p.pid w _ _ e).0)
  ]
  perform_active-Justified (restore s w' v) e =
      absurd (active-ne-restore p.pid w (lookup key p.desired) (lookup key p.states) e)

  perform_idle-Justified :
      (a : Action)
      → idle_action p.pid w (lookup key p.desired) (lookup key p.states) ≡ a
      → Extends (Justified p false ((key, w) ∷ ws)) log (perform p.env key a log).log
  perform_idle-Justified disown e = unfold perform in same
  perform_idle-Justified (hold w') e = unfold perform in same
  perform_idle-Justified (reapply s w') e =
      absurd (idle-ne-reapply p.pid w (lookup key p.desired) (lookup key p.states) e)
  perform_idle-Justified (restore s w' v) e = elim (perform-restore_log p.env key s w' v log) [
    | inl q ↦ rw q same
    | inr q ↦ rw q (perform_one p false ws key w v log (idle-Chosen p.pid w _ _ e).0)
  ]

  perform-Justified :
      (active : Bool)
      → Extends
          (Justified p active ((key, w) ∷ ws))
          log
          (perform p.env key (decide p active key w) log).log
  perform-Justified true = unfold decide in perform_active-Justified _ refl
  perform-Justified false = unfold decide in perform_idle-Justified _ refl

-- Every command that a sweep over the weights of one endpoint sends is justified.
pub sweep-Justified :
    (p : Pass) (active : Bool) (ws : Weights) (log : Log)
    → Extends (Justified p active ws) log (sweep p active ws log).log
unfolding sweep
sweep-Justified p active [] log = same
sweep-Justified p active ((key, w) ∷ ws) log =
    Extends-trans (perform-Justified p ws key w log active)
      (Extends-map (Justified-tail (key, w)) (sweep-Justified p active ws _))
