-- ===== src/Drain/Reconcile/Extends.antt =====
-- The commands that a part of `reconcileDrains` adds to the log, and those of `setWeightVerified`.
use load_balancer_controller.Base.{◌∷◌, inl, inr}
use load_balancer_controller.Base.Text.{Text, ℤ}
use load_balancer_controller.Drain.Runtime.{Command, show_servers_state, set_weight, Log, Env}
use load_balancer_controller.Drain.Servers.{set_weight_verified, set_weight_verified-log}

-- The commands between two logs all satisfy `P`.
pub data Extends {ℓ} (P : Command → Type ℓ) (start : Log) : Log → Type ℓ where
  same : Extends P start start
  more : {c : Command} {log : Log} → P c → Extends P start log → Extends P start (c ∷ log)

pub Extends-trans {ℓ} :
    {P : Command → Type ℓ} {a b c : Log} → Extends P a b → Extends P b c → Extends P a c
Extends-trans ab same = ab
Extends-trans ab (more p bc) = more p (Extends-trans ab bc)

pub Extends-map {ℓ κ} :
    {P : Command → Type ℓ} {Q : Command → Type κ} {a b : Log}
    → ((c : Command) → P c → Q c)
    → Extends P a b
    → Extends Q a b
Extends-map f same = same
Extends-map f (more {c} p e) = more (f c p) (Extends-map f e)

pub set_weight_verified-Extends {ℓ} :
    {P : Command → Type ℓ} (env : Env) (key : Text) (v : ℤ) (log : Log)
    → P (set_weight key v)
    → P show_servers_state
    → Extends P log (set_weight_verified env key v log).1
set_weight_verified-Extends env key v log w l = elim (set_weight_verified-log env key v log) [
  | inl e ↦ rw e (more w same)
  | inr e ↦ rw e (more l (more w same))
]
