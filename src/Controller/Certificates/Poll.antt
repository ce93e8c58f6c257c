-- ===== src/Controller/Certificates/Poll.antt =====
-- `pollCertificateDirectories` and the loop of `LookForCertUpdates`.
use load_balancer_controller.Base.{
  ℕ, leb, ◌-◌, Bool, true, false, not, ◌&&◌, ◌||◌, ◌==◌, Option, some, none, [], ◌∷◌, if◌then◌else◌,
  is_empty, length, all,
}
use load_balancer_controller.Base.Text.{Text, text_eq}
use load_balancer_controller.Base.Dict.{Dict, lookup}
use load_balancer_controller.Base.Outcome.{Outcome, ok, err}
use load_balancer_controller.Config.{Certificate}
use load_balancer_controller.Controller.Certificates.Read.{Fetcher, FileSystem, FileFailure, walk}

-- `reflect.DeepEqual` of certificates, and of maps of them: a nil map is only equal to a nil map.
unfoldable pub same_certificate : Certificate → Certificate → Bool
unfolding text_eq
same_certificate a b =
    text_eq a.name b.name
    && text_eq a.cert b.cert
    && text_eq a.key b.key
    && (if a.fetch then b.fetch else not b.fetch)

unfoldable pub same_option : Option Certificate → Option Certificate → Bool
unfolding same_certificate
same_option none none = true
same_option (some a) (some b) = same_certificate a b
same_option _ _ = false

unfoldable pub same_map : Option (Dict Certificate) → Dict Certificate → Bool
unfolding same_option lookup all
same_map none m = false
same_map (some cache) m =
    length cache == length m
    && all (λ (e : Text × Certificate). same_option (some e.1) (lookup e.0 m)) cache

-- The last certificate of the map; which one that is, is up to the order of the range.
unfoldable pub last_certificate : Dict Certificate → Option Certificate
last_certificate [] = none
last_certificate ((k, c) ∷ []) = some c
last_certificate ((k, c) ∷ e ∷ m) = last_certificate (e ∷ m)

module _ (fs : FileSystem) where
  unfoldable pub cache_certs :
      Bool → Outcome FileFailure (Dict Certificate) → Fetcher → Bool × Fetcher
  unfolding same_map
  cache_certs force (err e) f = (false, f)
  cache_certs force (ok m) f =
      if force || not (same_map f.certs_cache m)
      then (true, record f { certs_cache = some m })
      else (false, f)

  unfoldable pub poll_certs : Bool → Fetcher → Bool × Fetcher
  unfolding cache_certs walk
  poll_certs force f =
      if is_empty f.cert_dir
      then (false, f)
      else cache_certs force (walk fs f (fs.visits f.cert_dir) []) f

  unfoldable pub cache_default :
      Bool → Outcome FileFailure (Dict Certificate) → Fetcher → Bool × Fetcher
  unfolding same_option last_certificate
  cache_default force (err e) f = (false, f)
  cache_default force (ok m) f =
      if force || not (same_option f.default_cert (last_certificate m))
      then (true, record f { default_cert = last_certificate m })
      else (false, f)

  unfoldable pub poll_default : Bool → Fetcher → Bool × Fetcher
  unfolding cache_default walk
  poll_default force f =
      if is_empty f.default_cert_dir
      then (false, f)
      else cache_default force (walk fs f (fs.visits f.default_cert_dir) []) f

  unfoldable pub poll_certificate_directories : Bool → Fetcher → Bool × Fetcher
  unfolding poll_certs poll_default
  poll_certificate_directories force f =
      let (updated, f1) = poll_certs force f in
      let (updated_default, f2) = poll_default force f1 in
      (updated || updated_default, record f2 { init_poll_done = true })

  -- A round of the loop at the time `now`, in seconds: whether `doOnUpdate` is called, the fetcher,
  -- and the new `lastUpdated`.
  unfoldable pub look_for_cert_updates : ℕ → ℕ → ℕ → Fetcher → Bool × Fetcher × ℕ
  unfolding poll_certificate_directories
  look_for_cert_updates force_update_interval now last_updated f =
      if is_empty f.cert_dir && is_empty f.default_cert_dir
      then (false, f, last_updated)
      else let (updated, f') =
          poll_certificate_directories (leb force_update_interval (now - last_updated)) f in
        (updated, f', if updated then now else last_updated)
