-- ===== src/Controller/Certificates/Rooted.antt =====
-- The files that the certificate fetcher reads: with symbolic links resolved, they are inside the
-- resolved form of a configured directory.
use load_balancer_controller.Base.{
  Bool, true, false, Option, some, none, List, [], ◌∷◌, ◌≡◌, refl, ap, ◌∙◌, if◌then◌else◌, is_empty,
  inl, inr, ◌⊎◌,
}
use load_balancer_controller.Base.Text.{Text}
use load_balancer_controller.Base.Outcome.{Outcome, ok, err, bind-eq-ok, if-ok}
use mathlib.Core.List.{Memᴰ}
use mathlib.Core.Path.{subst}
use load_balancer_controller.Controller.Certificates.Paths.{abs, join_path, path_is_within_root}
use load_balancer_controller.Controller.Certificates.Read.{
  FileSystem, FileFailure, outside, Fetcher, read_target, evaluate_link_and_read_file, judge,
  within_roots, path_is_within_configured_root, resolved_within,
}

-- The path lies inside the resolved form of one of the directories, the first that the source of
-- the link lies in.
pub record IsRooted (fs : FileSystem) (dirs : List Text) (target : Text) : Type 0 where
  pub configured : Text
  pub root : Text
  pub resolved : Text
  pub is_listed : Memᴰ configured dirs
  pub is_configured : is_empty configured ≡ false
  pub is_root : abs fs.working_dir configured ≡ ok root
  pub is_resolved : fs.eval_symlinks root ≡ ok resolved
  pub is_within : path_is_within_root resolved target ≡ true

-- The text is the content of a file that has no links left in its path, being what a file of a
-- directory of the walk resolves to, and that lies inside a configured directory.
pub record IsFrom (fs : FileSystem) (dirs : List Text) (content : Text) : Type 0 where
  pub dir : Text
  pub name : Text
  pub source : Text
  pub target : Text
  pub is_source : abs fs.working_dir (join_path dir name) ≡ ok source
  pub is_target : fs.eval_symlinks source ≡ ok target
  pub is_rooted : IsRooted fs dirs target
  pub is_content : fs.read_file target ≡ ok content

abbrev pub dirs : Fetcher → List Text
dirs f = f.cert_dir ∷ f.default_cert_dir ∷ []

module _ (fs : FileSystem) (f : Fetcher) where
  IsRooted-cons : (d t : Text) (ds : List Text) → IsRooted fs ds t → IsRooted fs (d ∷ ds) t
  IsRooted-cons d t ds h = record {
    configured = h.configured;
    root = h.root;
    resolved = h.resolved;
    is_listed = Memᴰ.tail h.is_listed;
    is_configured = h.is_configured;
    is_root = h.is_root;
    is_resolved = h.is_resolved;
    is_within = h.is_within;
  }

  resolved_within-true :
      (target : Text) (r : Outcome FileFailure Text)
      → resolved_within fs f target r ≡ true
      → (root : Text) × (r ≡ ok root) × (path_is_within_root root target ≡ true)
  unfolding resolved_within
  resolved_within-true target (err e) h = absurd (cc h)
  resolved_within-true target (ok root) h = (root, refl, h)

  if-some : (c b : Bool) → (if c then some b else none) ≡ some true → b ≡ true
  if-some true b h = cc h
  if-some false b h = absurd (cc h)

  judge-true :
      (source target : Text) (r : Outcome FileFailure Text)
      → judge fs f source target r ≡ some true
      → (root : Text) × (r ≡ ok root) × (resolved_within fs f target (fs.eval_symlinks root) ≡ true)
  unfolding judge
  judge-true source target (err e) h = absurd (cc h)
  judge-true source target (ok root) h = (root, refl, if-some (path_is_within_root root source) _ h)

  -- How `within_roots` comes to be true at a directory.
  decided :
      (e : Bool) (j : Option Bool) (more : Bool)
      → (if e then more else elim j [ none ↦ more | some d ↦ d ]) ≡ true
      → (more ≡ true) ⊎ ((e ≡ false) × (j ≡ some true))
  decided true j more h = inl h
  decided false none more h = inl h
  decided false (some d) more h = inr (refl, ap some h)

  within_roots-IsRooted :
      (source target : Text) (dirs : List Text)
      → within_roots fs f source target dirs ≡ true
      → IsRooted fs dirs target
  unfolding within_roots
  within_roots-IsRooted source target [] h = absurd (cc h)
  within_roots-IsRooted source target (d ∷ ds) h =
      let r = abs fs.working_dir d in
      elim (decided (is_empty d) (judge fs f source target r) (within_roots fs f source target ds)
        h) [
          | inl more ↦ IsRooted-cons d target ds (within_roots-IsRooted source target ds more)
          | inr own ↦
              let (root, e, w) = judge-true source target r own.1 in
              let (resolved, q, i) = resolved_within-true target (fs.eval_symlinks root) w in
              record {
                configured = d;
                root = root;
                resolved = resolved;
                is_listed = Memᴰ.head refl;
                is_configured = own.0;
                is_root = e;
                is_resolved = q;
                is_within = i;
              }
        ]

  read_target-IsRooted :
      (dir name t : Text)
      → read_target fs f dir name ≡ ok t
      → (source : Text) × (abs fs.working_dir (join_path dir name) ≡ ok source)
        × (fs.eval_symlinks source ≡ ok t)
        × IsRooted fs (dirs f) t
  unfolding read_target path_is_within_configured_root
  read_target-IsRooted dir name t h =
      let (path, p, h1) = bind-eq-ok (abs fs.working_dir (join_path dir name)) _ h in
      let (seen, l, h2) = bind-eq-ok (fs.lstat path) _ h1 in
      let (target, q, h3) = bind-eq-ok (fs.eval_symlinks path) _ h2 in
      let (w, same) = if-ok (within_roots fs f path target (dirs f)) (outside path) target h3 in
      (
        path,
        p,
        q ∙ ap (λ (x : Text). ok x) same,
        subst (IsRooted fs (dirs f)) same (within_roots-IsRooted path target (dirs f) w),
      )

  pub evaluate-IsFrom :
      (dir name content : Text)
      → evaluate_link_and_read_file fs f dir name ≡ ok content
      → IsFrom fs (dirs f) content
  unfolding evaluate_link_and_read_file
  evaluate-IsFrom dir name content h =
      let (t, r, c) = bind-eq-ok (read_target fs f dir name) (λ target. fs.read_file target) h in
      let (source, p, q, rooted) = read_target-IsRooted dir name t r in
      record {
        dir = dir;
        name = name;
        source = source;
        target = t;
        is_source = p;
        is_target = q;
        is_rooted = rooted;
        is_content = c;
      }
