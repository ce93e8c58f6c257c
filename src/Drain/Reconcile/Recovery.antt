-- ===== src/Drain/Reconcile/Recovery.antt =====
-- What becomes of an owned weight in `reconcileDrains`: dropped, kept, carried over a reload, or
-- restored.
use load_balancer_controller.Base.{
  ◌<◌, Bool, true, false, Option, some, none, [], ◌∷◌, ◌≡◌, ◌≢◌, refl, arith, ◌++◌, if◌then◌else◌,
  ◌∙◌,
}
use load_balancer_controller.Base.Text.{Text, pos, int_eq, int_eq_iff, text_eq_iff}
use load_balancer_controller.Base.Dict.{lookup}
use Prim.Native.Nat.{bit_and}
use load_balancer_controller.Drain.State.{
  operator_owned, ServerState, DrainWeight, DesiredEndpoint, Weights,
}
use load_balancer_controller.Drain.Runtime.{Log}
use load_balancer_controller.Drain.Reconcile.{
  disown, hold, restore, active_action, idle_action, Pass, protected, stopping, moved_on,
  restore_weight, running_reload, decide, perform, sweep,
}

-- Why an owned weight is not the manager's any more: no configuration wants the server, HAProxy
-- has it no longer, the configuration disables it or gives it the weight zero for good, or its
-- admin state has one of the bits of an operator or of the configuration.
pub data Withdrawn (od : Option DesiredEndpoint) (os : Option ServerState) : Type 0 where
  unwanted : od ≡ none → Withdrawn od os
  gone : os ≡ none → Withdrawn od os
  disabled : (d : DesiredEndpoint) → od ≡ some d → d.disabled ≡ true → Withdrawn od os
  zeroed :
      (d : DesiredEndpoint)
      → od ≡ some d
      → d.weight ≡ pos 0
      → d.temporary_zero ≡ false
      → Withdrawn od os
  operated : (s : ServerState) → os ≡ some s → bit_and s.admin 0x5f ≢ 0 → Withdrawn od os

protected-Withdrawn :
    (d : DesiredEndpoint) (s : ServerState) → Withdrawn (some d) (some s) → protected d s ≡ true
unfolding protected operator_owned
protected-Withdrawn d s (unwanted e) = absurd (cc e)
protected-Withdrawn d s (gone e) = absurd (cc e)
protected-Withdrawn d s (disabled d' e h) = let same : d ≡ d' = cc e in rw (same, h) refl
protected-Withdrawn d s (zeroed d' e w t) =
    let same : d ≡ d' = cc e in rw (same, (int_eq_iff d'.weight (pos 0)).1 w, t) (ground arith)
protected-Withdrawn d s (operated s' e h) = let same : s ≡ s' = cc e in rw same (ground arith)

decide-Withdrawn :
    (p : Pass) (active : Bool) (key : Text) (w : DrainWeight) (od : Option DesiredEndpoint)
    (os : Option ServerState)
    → lookup key p.desired ≡ od
    → lookup key p.states ≡ os
    → Withdrawn od os
    → decide p active key w ≡ disown
unfolding decide active_action idle_action
decide-Withdrawn p true key w (some d) (some s) a b h = rw (a, b, protected-Withdrawn d s h) refl
decide-Withdrawn p false key w (some d) (some s) a b h = rw (a, b, protected-Withdrawn d s h) refl
decide-Withdrawn p true key w none os a b h = rw a refl
decide-Withdrawn p false key w none os a b h = rw a refl
decide-Withdrawn p true key w (some d) none a b h = rw (a, b) refl
decide-Withdrawn p false key w (some d) none a b h = rw (a, b) refl

-- An owned weight is dropped wherever it stands, in either loop, when no configuration wants its
-- server, HAProxy does not list the server, the configuration disables it or gives it the weight
-- zero for good, or its admin state has one of the bits 0x5f: the pass leaves the weights, has the
-- failures and sends the commands that it would without the entry.
pub sweep-withdrawn :
    (p : Pass) (active : Bool) (before : Weights) (key : Text) (w : DrainWeight) (ws : Weights)
    (log : Log)
    → Withdrawn (lookup key p.desired) (lookup key p.states)
    → sweep p active (before ++ (key, w) ∷ ws) log ≡ sweep p active (before ++ ws) log
unfolding sweep perform
sweep-withdrawn p active [] key w ws log h =
    rw (decide-Withdrawn p active key w _ _ refl refl h) refl
sweep-withdrawn p active ((k, v) ∷ before) key w ws log h =
    rw (sweep-withdrawn p active before key w ws _ h) refl

stopping_held :
    (pid : Text) (w : DrainWeight) (d : DesiredEndpoint) (s : ServerState)
    → protected d s ≡ false
    → stopping d ≡ true
    → s.weight ≡ 0
    → s.initial_weight ≡ 0
    → moved_on pid w ≡ true
    → idle_action pid w (some d) (some s) ≡ hold (record w { pid = pid; stopping_reload = true })
unfolding idle_action
stopping_held pid w d s a b c f g = rw (a, b, c, f, g)

running_reload-carried :
    (old pid : Text) (w : DrainWeight) (d : DesiredEndpoint) (s : ServerState)
    → old ≢ pid
    → 0 < s.weight
    → s.weight ≡ s.initial_weight
    → pos s.initial_weight ≡ d.weight
    → running_reload pid (record w { pid = old; stopping_reload = true }) d s ≡ true
unfolding running_reload moved_on
running_reload-carried old pid w d s ne up same config =
    ground (arith, text_eq_iff old pid, int_eq_iff (pos s.initial_weight) d.weight)

running_restored :
    (pid : Text) (w : DrainWeight) (d : DesiredEndpoint) (s : ServerState)
    → protected d s ≡ false
    → stopping d ≡ false
    → running_reload pid w d s ≡ true
    → s.admin ≡ 0
    → s.operational ≡ 2
    → idle_action pid w (some d) (some s) ≡ restore s w (restore_weight w d)
unfolding idle_action
running_restored pid w d s a b c f g = ground arith

-- The weight of a finished drain survives two reloads. The first process starts the server at zero
-- from a stopping configuration; the second starts it from a running one, at the configured
-- weight, healthy and in a normal admin state. In the first the entry is kept, in the second the
-- weight is restored: to the one saved before the drain, or to the configured weight if that is
-- not the one the server had first.
pub decide_two_reloads :
    (p q : Pass) (key : Text) (w : DrainWeight) (d e : DesiredEndpoint) (s t : ServerState)
    → lookup key p.desired ≡ some d
    → lookup key p.states ≡ some s
    → lookup key q.desired ≡ some e
    → lookup key q.states ≡ some t
    → protected d s ≡ false
    → stopping d ≡ true
    → s.weight ≡ 0
    → s.initial_weight ≡ 0
    → moved_on p.pid w ≡ true
    → protected e t ≡ false
    → stopping e ≡ false
    → p.pid ≢ q.pid
    → 0 < t.weight
    → t.weight ≡ t.initial_weight
    → pos t.initial_weight ≡ e.weight
    → t.admin ≡ 0
    → t.operational ≡ 2
    → let carried = record w { pid = p.pid; stopping_reload = true } in
      (decide p false key w ≡ hold carried)
      × (decide q false key carried
          ≡ restore t carried
              (if int_eq e.weight (pos w.initial_weight) then pos w.weight else e.weight))
unfolding decide restore_weight
decide_two_reloads p q key w d e s t a b c f g h i j k l m n o u v x y = (
  rw (a, b) (stopping_held p.pid w d s g h i j k),
  rw (c, f)
      (running_restored q.pid _ e t l m (running_reload-carried p.pid q.pid w e t n o u v) x y
        ∙ ground arith),
)

-- An active drain that is settled in the running process needs no command, as long as the server
-- stays at zero and belongs to neither the operator nor the configuration: a pass changes nothing.
pub sweep-settled :
    (p : Pass) (key : Text) (w : DrainWeight) (d : DesiredEndpoint) (s : ServerState) (log : Log)
    → lookup key p.desired ≡ some d
    → lookup key p.states ≡ some s
    → protected d s ≡ false
    → s.weight ≡ 0
    → moved_on p.pid w ≡ false
    → w.retry ≡ false
    → sweep p true ((key, w) ∷ []) log ≡ record { weights = (key, w) ∷ []; faults = []; log = log }
unfolding sweep decide perform active_action
sweep-settled p key w d s log a b c f g h = rw (a, b) (ground arith)
