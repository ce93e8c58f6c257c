-- ===== src/Provider/Failure.antt =====
-- What `applyHaproxyConfig` leaves behind when it fails, and what it did when it succeeds.
use load_balancer_controller.Base.{
  true, List, [], ◌∷◌, ◌++◌, ◌≡◌, refl, sym, ap, ◌∙◌, inl, inr, arith, Bool-cases, map,
}
use load_balancer_controller.Base.Text.{Text, codes}
use load_balancer_controller.Base.Outcome.{ok, err}
use load_balancer_controller.Config.{LoadBalancerConfig, Certificate}
use load_balancer_controller.Drain.Runtime.{Env, Fault}
use load_balancer_controller.Drain.Reconcile.{reconcile_drains}
use load_balancer_controller.Provider.Selection.{select}
use load_balancer_controller.Provider.Apply.{
  write_all, make_dir, write_config, reload, Done, Disk, Ran, perform_op, then_ran, ensure_dir,
  cert_op, write_certs, certs_of, install, after_install, with_drains, Provider, tick,
  apply_haproxy_config, new_certs,
}
use mathlib.Core.List.{map-append, append_assoc}

after_install-failed :
    (env : Env) (cfg : LoadBalancerConfig) (p : Provider) (r : Ran) {e : Fault}
    → r.0 ≡ err e
    → after_install env cfg p r ≡ (record p { recovery_blocked = true; done = r.1 }, e ∷ [])
unfolding after_install
after_install-failed env cfg p (err x, done) h = ground arith
after_install-failed env cfg p (ok _, done) h = absurd (cc h)

-- A configuration that could not be installed blocks the recovery of drained weights: the wishes
-- and the owned weights stay as they were, no command is sent, the failure is returned, and the
-- timer does nothing on the state that is left.
pub apply_haproxy_config-failed :
    (env : Env) (disk : Disk) (cfg : LoadBalancerConfig) (p : Provider) {e : Fault}
    → (install disk p.cert_dir cfg p.done).0 ≡ err e
    → let q = (apply_haproxy_config env disk cfg p).0 in
      (q.drain_mgr ≡ p.drain_mgr)
      × (q.log ≡ p.log)
      × ((apply_haproxy_config env disk cfg p).1 ≡ e ∷ [])
      × (tick env q ≡ (q, []))
unfolding apply_haproxy_config tick reconcile_drains with_drains
apply_haproxy_config-failed env disk cfg p h =
    rw (after_install-failed env cfg p (install disk p.cert_dir cfg p.done) h)
      (refl, refl, refl, refl)

then_ran-ok :
    (r : Ran) (next : Done → Ran)
    → (then_ran r next).0 ≡ ok tt
    → (r.0 ≡ ok tt) × (then_ran r next ≡ next r.1)
unfolding then_ran
then_ran-ok (err e, done) next h = absurd (cc h)
then_ran-ok (ok _, done) next h = (refl, refl)

ensure_dir-done :
    (disk : Disk) (path : Text) (done : Done)
    → (made : List Text) × ((ensure_dir disk path done).1 ≡ map make_dir made ++ done)
unfolding ensure_dir perform_op
ensure_dir-done disk path done = elim (Bool-cases (disk.missing done path)) [
  | inl e ↦ rw e (path ∷ [], refl)
  | inr e ↦ rw e ([], refl)
]

-- The operations for the certificates, the newest first.
abbrev cert_ops : Text → List Certificate → Done → Done
cert_ops dir [] done = done
cert_ops dir (c ∷ cs) done = cert_ops dir cs (cert_op dir c ∷ done)

write_certs-done :
    (disk : Disk) (dir : Text) (cs : List Certificate) (done : Done)
    → (write_certs disk dir cs done).0 ≡ ok tt
    → (write_certs disk dir cs done).1 ≡ cert_ops dir cs done
unfolding write_certs perform_op
write_certs-done disk dir [] done h = refl
write_certs-done disk dir (c ∷ cs) done h =
    let (first, rest) =
      then_ran-ok (perform_op disk (cert_op dir c) done) (λ d. write_certs disk dir cs d) h in
    ap (λ (r : Ran). r.1) rest
    ∙ write_certs-done disk dir cs (cert_op dir c ∷ done) (sym (ap (λ (r : Ran). r.0) rest) ∙ h)

-- An installed configuration: the missing directories first, then every certificate, the default
-- one first, then the configuration, and the reload last.
abbrev pub Installed : Text → LoadBalancerConfig → Done → Done → Type 0
Installed dir cfg before after =
    (made : List Text) × (after
      ≡ reload
        ∷ write_config (select cfg)
        ∷ cert_ops dir (certs_of cfg) (map make_dir made ++ before))

-- The continuation after the directories.
write_all-done :
    (disk : Disk) (dir : Text) (cfg : LoadBalancerConfig) (done : Done)
    → (write_all disk dir cfg done).0 ≡ ok tt
    → (write_all disk dir cfg done).1
      ≡ reload ∷ write_config (select cfg) ∷ cert_ops dir (certs_of cfg) done
unfolding write_all perform_op
write_all-done disk dir cfg done h =
    let k = λ (d : Done).
      then_ran (perform_op disk (write_config (select cfg)) d) (λ e. perform_op disk reload e) in
    let (certs, rest) = then_ran-ok (write_certs disk dir (certs_of cfg) done) k h in
    let h1 = sym (ap (λ (r : Ran). r.0) rest) ∙ h in
    let (wrote, last) =
      then_ran-ok
        (perform_op disk (write_config (select cfg)) (write_certs disk dir (certs_of cfg) done).1)
        (λ e. perform_op disk reload e) h1 in
    ap (λ (r : Ran). r.1) rest
    ∙ ap (λ (r : Ran). r.1) last
    ∙ ap (λ (d : Done). reload ∷ write_config (select cfg) ∷ d)
        (write_certs-done disk dir (certs_of cfg) done certs)

made_join :
    (a b c : List Text) (d0 : Done) {d1 d2 d3 : Done}
    → d1 ≡ map make_dir a ++ d0
    → d2 ≡ map make_dir b ++ d1
    → d3 ≡ map make_dir c ++ d2
    → d3 ≡ map make_dir (c ++ (b ++ a)) ++ d0
made_join a b c d0 p q r = simp (r, q, p, map-append, append_assoc)

-- An installation that succeeds made the directories that were missing, then wrote every
-- certificate, the default one first, then the configuration, and reloaded HAProxy last.
pub install-Installed :
    (disk : Disk) (dir : Text) (cfg : LoadBalancerConfig) (before : Done)
    → (install disk dir cfg before).0 ≡ ok tt
    → Installed dir cfg before (install disk dir cfg before).1
unfolding install
install-Installed disk dir cfg d0 h =
    let k3 = λ (d : Done). write_all disk dir cfg d in
    let k2 = λ (d : Done). then_ran (ensure_dir disk (new_certs dir) d) k3 in
    let k1 = λ (d : Done). then_ran (ensure_dir disk (dir ++ codes "/current") d) k2 in
    let r1 = ensure_dir disk dir d0 in
    let (_, e1) = then_ran-ok r1 k1 h in
    let h1 = sym (ap (λ (r : Ran). r.0) e1) ∙ h in
    let r2 = ensure_dir disk (dir ++ codes "/current") r1.1 in
    let (_, e2) = then_ran-ok r2 k2 h1 in
    let h2 = sym (ap (λ (r : Ran). r.0) e2) ∙ h1 in
    let r3 = ensure_dir disk (new_certs dir) r2.1 in
    let (_, e3) = then_ran-ok r3 k3 h2 in
    let h3 = sym (ap (λ (r : Ran). r.0) e3) ∙ h2 in
    let (m1, q1) = ensure_dir-done disk dir d0 in
    let (m2, q2) = ensure_dir-done disk (dir ++ codes "/current") r1.1 in
    let (m3, q3) = ensure_dir-done disk (new_certs dir) r2.1 in
    (
      m3 ++ (m2 ++ m1),
      ap (λ (r : Ran). r.1) e1
          ∙ ap (λ (r : Ran). r.1) e2
          ∙ ap (λ (r : Ran). r.1) e3
          ∙ write_all-done disk dir cfg r3.1 h3
          ∙ ap (λ (d : Done). reload ∷ write_config (select cfg) ∷ cert_ops dir (certs_of cfg) d)
              (made_join m1 m2 m3 d0 q1 q2 q3),
    )
