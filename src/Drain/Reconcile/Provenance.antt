-- ===== src/Drain/Reconcile/Provenance.antt =====
-- Where the owned weights come from that a pass of `reconcileDrains` keeps.
use load_balancer_controller.Base.{
  Bool, true, false, Option, some, none, [], ◌∷◌, ◌≡◌, refl, ap, arith, ◌⊎◌, inl, inr, Option-cases,
}
use load_balancer_controller.Base.Text.{Text, ℤ}
use load_balancer_controller.Base.Dict.{Dict, lookup}
use load_balancer_controller.Base.Outcome.{Outcome, ok, err}
use load_balancer_controller.Drain.State.{
  ServerState, DrainWeight, DesiredEndpoint, Weights, DrainMgr,
}
use load_balancer_controller.Drain.Runtime.{Log, Env, Fault, read_pid}
use load_balancer_controller.Drain.Servers.{read_server_states}
use load_balancer_controller.Drain.Reconcile.Actions.{
  SameOwner, active-Chosen, idle-Chosen, active-hold, idle-hold, active-ne-restore, idle-ne-reapply,
}
use load_balancer_controller.Drain.Reconcile.{
  Action, disown, hold, reapply, restore, active_action, idle_action, Pass, decide, perform, sweep,
  entries, reconcile_with, reconcile_in, reconcile_desired, reconcile_drains,
}
use mathlib.Core.List.{Memᴰ}

perform-reapply_owner :
    (env : Env) (key : Text) (s : ServerState) (w : DrainWeight) (log : Log) {kept : DrainWeight}
    → (perform env key (reapply s w) log).entry ≡ some kept
    → SameOwner w kept
unfolding perform
perform-reapply_owner env key s w log h = ground arith

perform-restore_owner :
    (env : Env) (key : Text) (s : ServerState) (w : DrainWeight) (v : ℤ) (log : Log)
    {kept : DrainWeight}
    → (perform env key (restore s w v) log).entry ≡ some kept
    → SameOwner w kept
unfolding perform
perform-restore_owner env key s w v log h = ground arith

SameOwner-trans : (a b c : DrainWeight) → SameOwner a b → SameOwner b c → SameOwner a c
SameOwner-trans a b c h k = (cc, cc)

module _ (p : Pass) (key : Text) (w : DrainWeight) (log : Log) {kept : DrainWeight} where
  perform_active-SameOwner :
      (a : Action)
      → active_action p.pid w (lookup key p.desired) (lookup key p.states) ≡ a
      → (perform p.env key a log).entry ≡ some kept
      → SameOwner w kept
  perform_active-SameOwner disown e h = unfold perform in cc h
  perform_active-SameOwner (hold w') e h =
      SameOwner-trans w w' kept (active-hold p.pid w _ _ e) (unfold perform in ground arith)
  perform_active-SameOwner (reapply s w') e h =
      SameOwner-trans w w' kept (active-Chosen p.pid w _ _ e).1
        (perform-reapply_owner p.env key s w' log h)
  perform_active-SameOwner (restore s w' v) e h =
      absurd (active-ne-restore p.pid w (lookup key p.desired) (lookup key p.states) e)

  perform_idle-SameOwner :
      (a : Action)
      → idle_action p.pid w (lookup key p.desired) (lookup key p.states) ≡ a
      → (perform p.env key a log).entry ≡ some kept
      → SameOwner w kept
  perform_idle-SameOwner disown e h = unfold perform in cc h
  perform_idle-SameOwner (hold w') e h =
      SameOwner-trans w w' kept (idle-hold p.pid w _ _ e) (unfold perform in ground arith)
  perform_idle-SameOwner (reapply s w') e h =
      absurd (idle-ne-reapply p.pid w (lookup key p.desired) (lookup key p.states) e)
  perform_idle-SameOwner (restore s w' v) e h =
      rw (← (idle-Chosen p.pid w _ _ e).1) (perform-restore_owner p.env key s w' v log h)

  pub perform-SameOwner :
      (active : Bool)
      → (perform p.env key (decide p active key w) log).entry ≡ some kept
      → SameOwner w kept
  perform-SameOwner true = unfold decide in perform_active-SameOwner _ refl
  perform-SameOwner false = unfold decide in perform_idle-SameOwner _ refl

-- The entry that a kept one comes from.
pub record Origin (key : Text) (kept : DrainWeight) (ws : Weights) : Type 0 where
  pub source : DrainWeight
  pub owned : Memᴰ (key, source) ws
  pub saved : SameOwner source kept

Origin-tail :
    {key : Text} {kept : DrainWeight} {ws : Weights} (e : Text × DrainWeight)
    → Origin key kept ws
    → Origin key kept (e ∷ ws)
Origin-tail e o = record { source = o.source; owned = Memᴰ.tail o.owned; saved = o.saved }

entries-Origin :
    (key k : Text) (o : Option DrainWeight) (rest : Weights) {kept : DrainWeight}
    → Memᴰ (k, kept) (entries key o rest)
    → ((k ≡ key) × (o ≡ some kept)) ⊎ Memᴰ (k, kept) rest
entries-Origin key k none rest m = inr m
entries-Origin key k (some w) rest (Memᴰ.head e) = inl (ground arith)
entries-Origin key k (some w) rest (Memᴰ.tail m) = inr m

-- Whatever a sweep keeps was owned before, with the same saved weight and initial weight.
pub sweep-Origin :
    (p : Pass) (active : Bool) (ws : Weights) (log : Log) (k : Text) (kept : DrainWeight)
    → Memᴰ (k, kept) (sweep p active ws log).weights
    → Origin k kept ws
unfolding sweep
sweep-Origin p active [] log k kept m = elim m [ ]
sweep-Origin p active ((key, w) ∷ ws) log k kept m =
    elim (entries-Origin key k (perform p.env key (decide p active key w) log).entry _ m) [
      | inl (same, e) ↦ record {
        source = w;
        owned = Memᴰ.head (ap (λ t. (t, w)) same);
        saved = perform-SameOwner p key w log active e;
      }
      | inr m' ↦ Origin-tail (key, w) (sweep-Origin p active ws _ k kept m')
    ]

with_failure :
    (env : Env) (dm : DrainMgr) (desired : Dict DesiredEndpoint) (r : Outcome Fault Text)
    (log : Log) {e : Fault}
    → (r ≡ err e) ⊎ ((read_server_states env log).0 ≡ err e)
    → (reconcile_in env dm desired r log).0 ≡ dm
unfolding reconcile_in reconcile_with
with_failure env dm desired (err x) log h = refl
with_failure env dm desired (ok pid) log h = ground arith

-- Where the pid file or the server states cannot be read, a pass keeps the manager as it is:
-- an unreadable process costs no ownership.
pub reconcile_drains-unreadable :
    (env : Env) (blocked : Bool) (dm : DrainMgr) (log : Log) {e : Fault}
    → (read_pid env log ≡ err e) ⊎ ((read_server_states env log).0 ≡ err e)
    → (reconcile_drains env blocked dm log).0 ≡ dm
unfolding reconcile_drains reconcile_desired
reconcile_drains-unreadable env blocked dm log h = elim (Option-cases dm.desired) [
  | inl n ↦ ground arith
  | inr (desired, n) ↦ ground (arith, with_failure env dm desired (read_pid env log) log h)
]
