-- ===== src/Controller/Sync/Backoff.antt =====
-- The backoff of the controller over a row of syncs that fail (`sync` and `requeue`).
use load_balancer_controller.Base.{
  ℕ, zero, suc, ◌+◌, ◌*◌, ◌≤◌, Bool, true, false, Option, some, length, List, [], ◌∷◌, ◌≡◌, refl,
  ap, ◌∙◌, arith,
}
use load_balancer_controller.Base.Text.{Text, ℤ, pos, int_add, int_add-pos, int_mul-pos, max_int}
use load_balancer_controller.Base.Outcome.{Outcome, ok, err}
use load_balancer_controller.Config.{LoadBalancerConfig}
use load_balancer_controller.Metadata.{Failure}
use load_balancer_controller.Controller.Sync.{
  Controller, backoff_interval, second, sync, sync_up, round, rounds, begin_requeue, end_requeue,
  after_sync, after_configs, apply_all, clear_backoff,
}

-- The waits that begin behind a backoff of `b` seconds, in nanoseconds.
abbrev pub rising : ℕ → ℕ → List (Option ℤ)
rising b zero = []
rising b (suc n) = some (pos ((b + 5) * second)) ∷ rising (b + 5) n

module _ (P : Type 0) (apply : LoadBalancerConfig → P → Bool × P) where
  -- The provider refuses one of the configurations, in the state that those before it led to.
  pub data Refused : List LoadBalancerConfig → P → Type 0 where
    at_first :
        {cfgs : List LoadBalancerConfig} {p : P} {cfg : LoadBalancerConfig}
        {rest : List LoadBalancerConfig}
        → cfgs ≡ cfg ∷ rest
        → (apply cfg p).0 ≡ false
        → Refused cfgs p
    at_later :
        {cfgs : List LoadBalancerConfig} {p : P} {cfg : LoadBalancerConfig}
        {rest : List LoadBalancerConfig}
        → cfgs ≡ cfg ∷ rest
        → Refused rest (apply cfg p).1
        → Refused cfgs p

  -- A sync fails if the configurations could not be built, or one of them is refused.
  pub data Fails (r : Outcome Failure (List LoadBalancerConfig)) (p : P) : Type 0 where
    unbuilt : (e : Failure) → r ≡ err e → Fails r p
    refused : (cfgs : List LoadBalancerConfig) → r ≡ ok cfgs → Refused cfgs p → Fails r p

  -- Each of the rounds fails, on the provider as the rounds before left it.
  abbrev pub AllFail :
      Text → List (Outcome Failure (List LoadBalancerConfig)) → Controller P apply → Type 0
  AllFail key [] c = Unit
  AllFail key (r ∷ rs) c = Fails r c.provider × AllFail key rs (round P apply key r c).1

  apply_all-Refused :
      (cfgs : List LoadBalancerConfig) (p : P)
      → Refused cfgs p
      → (apply_all P apply cfgs p).0 ≡ true
  unfolding apply_all
  apply_all-Refused [] p (at_first e h) = absurd (cc e)
  apply_all-Refused [] p (at_later e h) = absurd (cc e)
  apply_all-Refused (cfg ∷ cfgs) p (at_first {cfg = c} e h) =
      let same : cfg ≡ c = cc e in rw (same, h) refl
  apply_all-Refused (cfg ∷ cfgs) p (at_later {cfg = c} {rest = rest} e h) =
      let same : cfg ≡ c = cc e in
      let others : cfgs ≡ rest = cc e in
      rw (same, others, apply_all-Refused rest (apply c p).1 h) (ground arith)

  after_configs-Fails :
      (r : Outcome Failure (List LoadBalancerConfig)) (c : Controller P apply)
      → Fails r c.provider
      → (after_configs P apply r c).0 ≡ true
  unfolding after_configs
  after_configs-Fails (err e) c h = refl
  after_configs-Fails (ok cfgs) c (unbuilt e q) = absurd (cc q)
  after_configs-Fails (ok cfgs) c (refused cfgs' q h) =
      let same : cfgs ≡ cfgs' = cc q in apply_all-Refused cfgs c.provider (rw same h)

  after_configs-shutdown :
      (r : Outcome Failure (List LoadBalancerConfig)) (c : Controller P apply)
      → (after_configs P apply r c).1.shutdown ≡ c.shutdown
  unfolding after_configs
  after_configs-shutdown (err e) c = refl
  after_configs-shutdown (ok cfgs) c = refl

  after_configs-backoff :
      (r : Outcome Failure (List LoadBalancerConfig)) (c : Controller P apply)
      → (after_configs P apply r c).1.backoff ≡ c.backoff
  unfolding after_configs
  after_configs-backoff (err e) c = refl
  after_configs-backoff (ok cfgs) c = refl

  clear_backoff-again :
      (x : Bool × Controller P apply) → x.0 ≡ true → clear_backoff P apply x ≡ (true, x.1)
  unfolding clear_backoff
  clear_backoff-again (true, c) h = refl
  clear_backoff-again (false, c) h = absurd (cc h)

  -- A sync that fails starts a `requeue`, which waits for five seconds more than the last one.
  round-Fails :
      (key : Text) (r : Outcome Failure (List LoadBalancerConfig)) (c : Controller P apply) (b : ℕ)
      → c.shutdown ≡ false
      → c.backoff ≡ pos b
      → (b + 5) * second ≤ max_int
      → Fails r c.provider
      → let out = round P apply key r c in
        (out.0 ≡ some (pos ((b + 5) * second)))
        × (out.1.backoff ≡ pos (b + 5))
        × (out.1.shutdown ≡ false)
  unfolding round after_sync clear_backoff begin_requeue end_requeue
  round-Fails key r c b h e top f =
      let sum : int_add (after_configs P apply r c).1.backoff backoff_interval ≡ pos (b + 5) =
        rw (after_configs-backoff r c, e) (int_add-pos b 5 (omega arith)) in
      let again : sync P apply r c ≡ (true, (after_configs P apply r c).1) =
        sync_up P apply r c h
        ∙ clear_backoff-again (after_configs P apply r c) (after_configs-Fails r c f) in
      rw again (
        rw sum (ap some (int_mul-pos (b + 5) second (omega arith) (omega arith) top)),
        sum,
        after_configs-shutdown r c ∙ h,
      )

  -- A row of syncs that each fail, because the configurations cannot be built or because the
  -- provider refuses one of them: each starts a `requeue`, each waits five seconds longer than the
  -- one before, and the backoff has grown by five times their number, as long as the waits fit an
  -- int64 of nanoseconds.
  pub failures-backoff :
      (key : Text) (rs : List (Outcome Failure (List LoadBalancerConfig))) (c : Controller P apply)
      (b : ℕ)
      → c.shutdown ≡ false
      → c.backoff ≡ pos b
      → (b + 5 * length rs) * second ≤ max_int
      → AllFail key rs c
      → let out = rounds P apply key rs c in
        (out.0 ≡ rising b (length rs)) × (out.1.backoff ≡ pos (b + 5 * length rs))
  unfolding rounds
  failures-backoff key [] c b h e top f = (refl, e ∙ ap pos (omega arith))
  failures-backoff key (r ∷ rs) c b h e top f =
      let (wait, more, up) = round-Fails key r c b h e (omega arith) f.0 in
      let (waits, last) =
        failures-backoff key rs (round P apply key r c).1 (b + 5) up more (omega arith) f.1 in
      (rw (wait, waits) refl, last ∙ ap pos (omega arith))
