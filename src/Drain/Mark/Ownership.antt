-- ===== src/Drain/Mark/Ownership.antt =====
-- What a sweep of `drainEndpoint` leaves in the owned weights.
use load_balancer_controller.Base.{
  ℕ, ◌<◌, false, Option, some, none, [], ◌∷◌, ◌≡◌, ◌≢◌, refl, sym, ap, arith, ◌⊎◌, inl, inr,
  Bool-cases,
}
use load_balancer_controller.Base.Text.{Text, text_eq, text_eq_iff, text_eq_refl}
use load_balancer_controller.Base.Dict.{Dict, lookup, insert, lookup-insert}
use load_balancer_controller.Drain.State.{ServerState, DrainWeight, Weights, DrainMgr}
use load_balancer_controller.Drain.Runtime.{Log, Env}
use load_balancer_controller.Drain.Mark.{
  Sweep, claim, skipped, mark_server, mark_step, mark_servers, weights_or_new, drain_endpoint,
}
use mathlib.Core.List.{Memᴰ}

-- The claim, without the command.
mark_server-weights :
    (env : Env) (name pid key : Text) (s : ServerState) (w : Sweep)
    → (mark_server env name pid key s w).weights
      ≡ insert key (claim pid s (lookup key w.weights)) w.weights
unfolding mark_server
mark_server-weights env name pid key s w = refl

-- What a step may do to an owned entry: keep it, or move it to the process that drains.
abbrev pub Keeps : Text → DrainWeight → DrainWeight → Type 0
Keeps pid old w =
    (w.weight ≡ old.weight)
    × (w.initial_weight ≡ old.initial_weight)
    × ((w.pid ≡ old.pid) ⊎ (w.pid ≡ pid))

-- An entry in the owned weights that an older one became.
pub record Kept (pid : Text) (old : DrainWeight) (found : Option DrainWeight) : Type 0 where
  pub new : DrainWeight
  pub is_found : found ≡ some new
  pub keeps : Keeps pid old new

Kept-trans :
    {pid : Text} {a : DrainWeight} {o o' : Option DrainWeight} (x : Kept pid a o)
    → Kept pid x.new o'
    → Kept pid a o'
Kept-trans x y = record { new = y.new; is_found = y.is_found; keeps = ground arith }

module _ (env : Env) (name pid : Text) where
  mark_server-Kept :
      (key : Text) (s : ServerState) (w : Sweep) (k : Text) {old : DrainWeight}
      → lookup k w.weights ≡ some old
      → Kept pid old (lookup k (mark_server env name pid key s w).weights)
  mark_server-Kept key s w k {old} h =
      rw (mark_server-weights, lookup-insert)
        (elim (Bool-cases (text_eq key k)) [
          | inl e ↦ record {
            new = record old { pid = pid };
            is_found = rw (e, (text_eq_iff key k).0 e, h) (unfold claim in refl);
            keeps = (refl, refl, inr refl);
          }
          | inr e ↦ record { new = old; is_found = rw e h; keeps = (refl, refl, inl refl) }
        ])

  mark_step-Kept :
      (key : Text) (s : ServerState) (w : Sweep) (k : Text) {old : DrainWeight}
      → lookup k w.weights ≡ some old
      → Kept pid old (lookup k (mark_step env name pid key s w).weights)
  unfolding mark_step
  mark_step-Kept key s w k {old} h = elim (Bool-cases (skipped env name pid s)) [
    | inl e ↦ rw e (record { new = old; is_found = h; keeps = (refl, refl, inl refl) })
    | inr e ↦ rw e (mark_server-Kept key s w k h)
  ]

  -- An entry that was owned stays owned, with the weights saved first.
  pub mark_servers-Kept :
      (states : Dict ServerState) (w : Sweep) (k : Text) {old : DrainWeight}
      → lookup k w.weights ≡ some old
      → Kept pid old (lookup k (mark_servers env name pid states w).weights)
  unfolding mark_servers
  mark_servers-Kept [] w k {old} h = record {
    new = old;
    is_found = h;
    keeps = (refl, refl, inl refl);
  }
  mark_servers-Kept ((key, s) ∷ states) w k h =
      let one = mark_step-Kept key s w k h in
      Kept-trans one (mark_servers-Kept states (mark_step env name pid key s w) k one.is_found)

  -- The entry of a server that is taken: its saved weight is the one it had when it was first
  -- taken, and it belongs to the process that drains.
  mark_step-claims :
      (key : Text) (s : ServerState) (w : Sweep)
      → skipped env name pid s ≡ false
      → lookup key (mark_step env name pid key s w).weights
        ≡ some (claim pid s (lookup key w.weights))
  unfolding mark_step
  mark_step-claims key s w h = rw h (rw (mark_server-weights, lookup-insert) (rw text_eq_refl))

  -- The weight that a claim saves: the one saved before, or the one that the server has.
  abbrev saved_weight : ServerState → Option DrainWeight → ℕ
  saved_weight s none = s.weight
  saved_weight s (some w) = w.weight

  claim_lem :
      (s : ServerState) (o : Option DrainWeight)
      → ((claim pid s o).pid ≡ pid) × ((claim pid s o).weight ≡ saved_weight s o)
  unfolding claim
  claim_lem s none = (refl, refl)
  claim_lem s (some w) = (refl, refl)

  -- Every server of the endpoint in a normal admin state with a weight is owned by the process
  -- `pid` after the sweep, whatever HAProxy answered.
  pub mark_servers-owns :
      (states : Dict ServerState) (w : Sweep) (key : Text) (s : ServerState)
      → Memᴰ (key, s) states
      → skipped env name pid s ≡ false
      → (new : DrainWeight) × (lookup key (mark_servers env name pid states w).weights ≡ some new)
        × (new.pid ≡ pid)
  unfolding mark_servers
  mark_servers-owns [] w key s m h = elim m [ ]
  mark_servers-owns ((k, t) ∷ states) w key s (Memᴰ.head e) h =
      let claimed = mark_step-claims key s w h in
      let o = lookup key w.weights in
      let kept = mark_servers-Kept states (mark_step env name pid key s w) key claimed in
      (
        kept.new,
        rw (← ap (λ (x : Text × ServerState). x.0) e, ← ap (λ (x : Text × ServerState). x.1) e)
            kept.is_found,
        ground (arith, kept.keeps, claim_lem s o),
      )
  mark_servers-owns ((k, t) ∷ states) w key s (Memᴰ.tail m) h =
      mark_servers-owns states (mark_step env name pid k t w) key s m h

-- After `drainEndpoint`, every server of the endpoint that was in a normal admin state with a
-- weight is owned by the process that drains, whether or not HAProxy took the command.
pub drain_endpoint-owns :
    (env : Env) (name pid : Text) (states : Dict ServerState) (dm : DrainMgr) (log : Log)
    (key : Text) (s : ServerState)
    → Memᴰ (key, s) states
    → s.name ≡ name
    → s.admin ≡ 0
    → 0 < s.weight
    → (ws : Weights) × (new : DrainWeight) × (lookup name
          (drain_endpoint env name pid states dm log).0.weights
        ≡ some ws)
      × (lookup key ws ≡ some new)
      × (new.pid ≡ pid)
unfolding drain_endpoint
drain_endpoint-owns env name pid states dm log key s m same admin up =
    let start : Sweep = record {
      weights = weights_or_new (lookup name dm.weights);
      faults = [];
      log = log;
    } in
    let (new, found, here) =
      mark_servers-owns env name pid states start key s m
        (unfold skipped in ground (arith, text_eq_iff s.name name)) in
    (
      (mark_servers env name pid states start).weights,
      new,
      rw (lookup-insert, text_eq_refl),
      found,
      here,
    )

-- Any entry that was owned before `drainEndpoint`, under the name of whichever endpoint, is owned
-- after it under that name, with the saved weights; and what is owned for other endpoints is as it
-- was.
pub drain_endpoint-Kept :
    (env : Env) (name pid : Text) (states : Dict ServerState) (dm : DrainMgr) (log : Log)
    (owner : Text) (ws : Weights) (key : Text) (old : DrainWeight)
    → lookup owner dm.weights ≡ some ws
    → lookup key ws ≡ some old
    → let after = (drain_endpoint env name pid states dm log).0.weights in
      ((ws' : Weights) × (lookup owner after ≡ some ws') × Kept pid old (lookup key ws'))
      × (owner ≢ name → lookup owner after ≡ some ws)
unfolding drain_endpoint
drain_endpoint-Kept env name pid states dm log owner ws key old n k =
    let start : Sweep = record {
      weights = weights_or_new (lookup name dm.weights);
      faults = [];
      log = log;
    } in
    elim (Bool-cases (text_eq name owner)) [
      | inl e ↦
          let same = (text_eq_iff name owner).0 e in
          (
            (
              (mark_servers env name pid states start).weights,
              rw (lookup-insert, e) refl,
              mark_servers-Kept env name pid states start key (rw (same, n) k),
            ),
            λ other. absurd (other (sym same)),
          )
      | inr e ↦ (
        (
          ws,
          rw (lookup-insert, e) n,
          record { new = old; is_found = k; keeps = (refl, refl, inl refl) },
        ),
        λ other. rw (lookup-insert, e) n,
      )
    ]
