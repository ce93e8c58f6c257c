-- ===== src/Drain/Reconcile/Actions.antt =====
-- When the inner loops of `reconcileDrains` choose each action.
use load_balancer_controller.Base.{Bool, true, false, Option, some, none, ◌≡◌, refl, arith, ◌⊎◌}
use load_balancer_controller.Base.Text.{Text, ℤ, pos}
use load_balancer_controller.Drain.State.{ServerState, DrainWeight, DesiredEndpoint}
use load_balancer_controller.Drain.Reconcile.{
  hold, reapply, restore, active_action, idle_action, protected, stopping, moved_on, restore_weight,
  running_reload,
}

-- What holds when the action is a command on the runtime socket.
pub data Allowed (pid : Text) (w : DrainWeight) (d : DesiredEndpoint) (s : ServerState)
    : Bool → ℤ → Type 0 where
  -- an active drain whose entry is not settled in this process
  zeroing :
      protected d s ≡ false
      → s.admin ≡ 0
      → (moved_on pid w ≡ true) ⊎ (w.retry ≡ true)
      → Allowed pid w d s true (pos 0)
  -- a finished drain: the server is healthy and at the zero that this controller set, or at
  -- the weight that the running configuration gave it after a stopping one
  restoring :
      protected d s ≡ false
      → stopping d ≡ false
      → s.admin ≡ 0
      → s.operational ≡ 2
      → (s.weight ≡ 0) × (moved_on pid w ≡ false) ⊎ (running_reload pid w d s ≡ true)
      → Allowed pid w d s false (restore_weight w d)

-- The entry is the same but for the process and the flags.
abbrev pub SameOwner : DrainWeight → DrainWeight → Type 0
SameOwner w w' = (w'.weight ≡ w.weight) × (w'.initial_weight ≡ w.initial_weight)

module _ (pid : Text) (w : DrainWeight) where
  active-reapply :
      (d : DesiredEndpoint) (s t : ServerState) {w' : DrainWeight}
      → active_action pid w (some d) (some s) ≡ reapply t w'
      → (t ≡ s)
        × (w' ≡ record w { pid = pid; retry = true })
        × (protected d s ≡ false)
        × (s.admin ≡ 0)
        × ((moved_on pid w ≡ true) ⊎ (w.retry ≡ true))
  unfolding active_action
  active-reapply d s t h = ground arith

  pub active-hold :
      (od : Option DesiredEndpoint) (os : Option ServerState) {w' : DrainWeight}
      → active_action pid w od os ≡ hold w'
      → SameOwner w w'
  unfolding active_action
  active-hold (some d) (some s) h = ground arith
  active-hold _ _ h = ground arith

  pub active-ne-restore :
      (od : Option DesiredEndpoint) (os : Option ServerState) {t : ServerState} {w' : DrainWeight}
      {v : ℤ}
      → ¬ (active_action pid w od os ≡ restore t w' v)
  unfolding active_action
  active-ne-restore (some d) (some s) h = ground arith
  active-ne-restore _ _ h = ground arith

  idle-restore :
      (d : DesiredEndpoint) (s t : ServerState) {w' : DrainWeight} {v : ℤ}
      → idle_action pid w (some d) (some s) ≡ restore t w' v
      → (t ≡ s)
        × (w' ≡ w)
        × (v ≡ restore_weight w d)
        × (protected d s ≡ false)
        × (stopping d ≡ false)
        × (s.admin ≡ 0)
        × (s.operational ≡ 2)
        × ((s.weight ≡ 0) × (moved_on pid w ≡ false) ⊎ (running_reload pid w d s ≡ true))
  unfolding idle_action
  idle-restore d s t h = ground arith

  pub idle-hold :
      (od : Option DesiredEndpoint) (os : Option ServerState) {w' : DrainWeight}
      → idle_action pid w od os ≡ hold w'
      → SameOwner w w'
  unfolding idle_action
  idle-hold (some d) (some s) h = ground arith
  idle-hold _ _ h = ground arith

  pub idle-ne-reapply :
      (od : Option DesiredEndpoint) (os : Option ServerState) {t : ServerState} {w' : DrainWeight}
      → ¬ (idle_action pid w od os ≡ reapply t w')
  unfolding idle_action
  idle-ne-reapply (some d) (some s) h = ground arith
  idle-ne-reapply _ _ h = ground arith

-- An action that sends a command, with the entry, the wish and the server that it was chosen for.
pub record Chosen (pid : Text) (w : DrainWeight) (od : Option DesiredEndpoint)
    (os : Option ServerState) (active : Bool) (v : ℤ) : Type 0 where
  pub wish : DesiredEndpoint
  pub server : ServerState
  pub wished : od ≡ some wish
  pub found : os ≡ some server
  pub allowed : Allowed pid w wish server active v

pub active-Chosen :
    (pid : Text) (w : DrainWeight) (od : Option DesiredEndpoint) (os : Option ServerState)
    {t : ServerState} {w' : DrainWeight}
    → active_action pid w od os ≡ reapply t w'
    → Chosen pid w od os true (pos 0) × SameOwner w w'
active-Chosen pid w (some d) (some s) {t} h =
    let (_, same, free, admin, why) = active-reapply pid w d s t h in
    (
      record {
        wish = d;
        server = s;
        wished = refl;
        found = refl;
        allowed = zeroing free admin why;
      },
      rw same (refl, refl),
    )
active-Chosen pid w none os h = unfold active_action in cc h
active-Chosen pid w (some d) none h = unfold active_action in cc h

pub idle-Chosen :
    (pid : Text) (w : DrainWeight) (od : Option DesiredEndpoint) (os : Option ServerState)
    {t : ServerState} {w' : DrainWeight} {v : ℤ}
    → idle_action pid w od os ≡ restore t w' v
    → Chosen pid w od os false v × (w' ≡ w)
idle-Chosen pid w (some d) (some s) {t} h =
    let (_, same, target, free, running, admin, up, why) = idle-restore pid w d s t h in
    (
      record {
        wish = d;
        server = s;
        wished = refl;
        found = refl;
        allowed = rw target (restoring free running admin up why);
      },
      same,
    )
idle-Chosen pid w none os h = unfold idle_action in cc h
idle-Chosen pid w (some d) none h = unfold idle_action in cc h
