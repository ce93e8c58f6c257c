-- ===== src/Controller/Sync.antt =====
-- `sync`, `requeue` and `Stop` of the controller. The provider is a state with an operation that
-- applies a configuration, and what `GetLBConfigs` gives is an argument.
pub mod Backoff
use load_balancer_controller.Base.{
  ℕ, zero, suc, ◌+◌, ◌*◌, ◌≤◌, Bool, true, false, not, ◌||◌, Option, some, none, length, List, [],
  ◌∷◌, ◌≡◌, refl, ap, ◌∙◌, if◌then◌else◌, Bool-cases, inl, inr, arith,
}
use load_balancer_controller.Base.Text.{
  Text, codes, ℤ, pos, int_add, int_add-pos, int_mul, int_mul-pos, max_int,
}
use load_balancer_controller.Base.Outcome.{Outcome, ok, err}
use load_balancer_controller.Config.{LoadBalancerConfig}
use load_balancer_controller.Metadata.{Failure}
use load_balancer_controller.TaskQueue.{TaskQueue, requeue}

-- `incrementalBackoffInterval`
abbrev pub backoff_interval : ℤ
backoff_interval = pos 5

-- `time.Second`, in nanoseconds.
abbrev pub second : ℕ
second = 1000000000

module _ (P : Type 0) (apply : LoadBalancerConfig → P → Bool × P) where
  pub record Controller : Type 0 where
    pub shutdown : Bool
    pub stop_closed : Bool
    pub backoff : ℤ
    pub queue : TaskQueue
    pub provider : P

  -- The loop over the configurations: whether one failed, and the provider after all of them.
  unfoldable pub apply_all : List LoadBalancerConfig → P → Bool × P
  apply_all [] p = (false, p)
  apply_all (cfg ∷ cfgs) p =
      let (applied, p') = apply cfg p in
      let (failed, last) = apply_all cfgs p' in (not applied || failed, last)

  after_configs : Outcome Failure (List LoadBalancerConfig) → Controller → Bool × Controller
  unfolding apply_all
  after_configs (err e) c = (true, c)
  after_configs (ok cfgs) c =
      let (failed, p) = apply_all cfgs c.provider in (failed, record c { provider = p })

  clear_backoff : Bool × Controller → Bool × Controller
  clear_backoff (true, c) = (true, c)
  clear_backoff (false, c) = (false, record c { backoff = pos 0 })

  -- `sync`: whether a `requeue` was started, and the controller.
  unfoldable pub sync : Outcome Failure (List LoadBalancerConfig) → Controller → Bool × Controller
  unfolding clear_backoff after_configs
  sync configs c = if c.shutdown then (false, c) else clear_backoff (after_configs configs c)

  -- `requeue` up to its sleep: the nanoseconds that it sleeps, `time.Duration(backoff)*time.Second`,
  -- and the controller. Both the sum and the product wrap as an int64.
  unfoldable pub begin_requeue : Controller → ℤ × Controller
  unfolding int_add int_mul
  begin_requeue c =
      let backoff = int_add c.backoff backoff_interval in
      (int_mul backoff (pos second), record c { backoff = backoff })

  -- `requeue` behind its sleep.
  unfoldable pub end_requeue : Text → Controller → Controller
  unfolding requeue
  end_requeue key c = record c { queue = requeue key tt c.queue }

  unfoldable pub after_stop :
      Outcome Text (Unit {0}) → Controller → Outcome Text (Unit {0}) × Controller
  after_stop (err e) c = (err e, c)
  after_stop (ok _) c =
      (err (codes "shutdown already in progress"), record c { stop_closed = true; shutdown = true })

  -- `Stop`, with what the provider's `Stop` returns.
  unfoldable pub stop : Outcome Text (Unit {0}) → Controller → Outcome Text (Unit {0}) × Controller
  unfolding after_stop
  stop r c =
      if not c.shutdown then after_stop r c else (err (codes "shutdown already in progress"), c)

  after_sync : Text → Bool × Controller → Option ℤ × Controller
  unfolding begin_requeue end_requeue
  after_sync key (false, c) = (none, c)
  after_sync key (true, c) = let (wait, c') = begin_requeue c in (some wait, end_requeue key c')

  -- A sync, and the whole `requeue` that it starts if it does: the wait, and the controller.
  unfoldable pub round :
      Text → Outcome Failure (List LoadBalancerConfig) → Controller → Option ℤ × Controller
  unfolding after_sync sync
  round key r c = after_sync key (sync r c)

  -- Rounds one after the other, on what `GetLBConfigs` gives each time.
  unfoldable pub rounds :
      Text
      → List (Outcome Failure (List LoadBalancerConfig))
      → Controller
      → List (Option ℤ) × Controller
  unfolding round
  rounds key [] c = ([], c)
  rounds key (r ∷ rs) c =
      let (wait, c') = round key r c in let (waits, last) = rounds key rs c' in (wait ∷ waits, last)

  sync_down :
      (configs : Outcome Failure (List LoadBalancerConfig)) (c : Controller)
      → c.shutdown ≡ true
      → sync configs c ≡ (false, c)
  unfolding sync
  sync_down configs c h = simp h

  sync_up :
      (configs : Outcome Failure (List LoadBalancerConfig)) (c : Controller)
      → c.shutdown ≡ false
      → sync configs c ≡ clear_backoff (after_configs configs c)
  unfolding sync
  sync_up configs c h = simp h

  pub stop_down :
      (r : Outcome Text (Unit {0})) (c : Controller) → c.shutdown ≡ true → (stop r c).1 ≡ c
  unfolding stop
  stop_down r c h = simp h

  pub stop_up :
      (c : Controller)
      → c.shutdown ≡ false
      → (stop (ok tt) c).1 ≡ record c { stop_closed = true; shutdown = true }
  unfolding stop
  stop_up c h = simp h

  clear_backoff-lem :
      (r : Bool × Controller) → (clear_backoff r).0 ≡ false → (clear_backoff r).1.backoff ≡ pos 0
  unfolding clear_backoff
  clear_backoff-lem (true, c) h = absurd (cc h)
  clear_backoff-lem (false, c) h = refl

  -- A sync that needs no retry leaves no backoff.
  pub sync-backoff :
      (configs : Outcome Failure (List LoadBalancerConfig)) (c : Controller)
      → c.shutdown ≡ false
      → (sync configs c).0 ≡ false
      → (sync configs c).1.backoff ≡ pos 0
  sync-backoff configs c h r =
      rw (sync_up configs c h)
        (clear_backoff-lem (after_configs configs c) (rw (sync_up configs c h) at r))

  -- Once the provider has stopped, the controller is shut down: every later sync does nothing, and
  -- every later stop too.
  pub stop-halts :
      (c : Controller) (configs : Outcome Failure (List LoadBalancerConfig))
      (later : Outcome Text (Unit {0}))
      → let c' = (stop (ok tt) c).1 in
        (c'.shutdown ≡ true) × (sync configs c' ≡ (false, c')) × ((stop later c').1 ≡ c')
  stop-halts c configs later = elim (Bool-cases c.shutdown) [
    | inl e ↦ rw (stop_down (ok tt) c e) (e, sync_down configs c e, stop_down later c e)
    | inr e ↦ rw (stop_up c e) (refl, sync_down configs _ refl, stop_down later _ refl)
  ]
