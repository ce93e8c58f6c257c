-- ===== src/Controller/Certificates/Pages.antt =====
-- `listLoadBalancerServices` over a chain of pages, and `FetchCertificates` behind a poll.
use load_balancer_controller.Base.{
  ℕ, zero, suc, ◌≤◌, Bool, true, false, some, List, [], ◌∷◌, ◌++◌, ◌≡◌, refl, ap, ◌∙◌, is_some,
  length, arith,
}
use load_balancer_controller.Base.Outcome.{Outcome, ok, err}
use load_balancer_controller.Base.Text.{Text}
use load_balancer_controller.Metadata.{LbConfig}
use load_balancer_controller.Controller.Certificates.Read.{FileSystem, Fetcher}
use load_balancer_controller.Controller.Certificates.Poll.{poll_certificate_directories}
use load_balancer_controller.Controller.Certificates.Fetch.{
  Page, ApiCertificate, more_pages, list_load_balancer_services, fetch_certificates,
}
use mathlib.Core.List.{append_assoc, append-nil}

module _ {A E : Type 0} (next : Page A → Outcome E (Page A)) where
  -- The pages behind a page: each but the last says that there are more, and leads to its next.
  abbrev pub IsChain : Page A → List (Page A) → Type 0
  IsChain p [] = p.partial ≡ false
  IsChain p (q ∷ qs) = (p.partial ≡ true) × (next p ≡ ok q) × IsChain q qs

  -- The last of them is asked for its next, which fails.
  abbrev pub IsBroken : Page A → List (Page A) → E → Type 0
  IsBroken p [] e = (p.partial ≡ true) × (next p ≡ err e)
  IsBroken p (q ∷ qs) e = (p.partial ≡ true) × (next p ≡ ok q) × IsBroken q qs e

  unfoldable pub all_items : List (Page A) → List A
  all_items [] = []
  all_items (p ∷ ps) = p.items ++ all_items ps

  more_pages-IsChain :
      (p : Page A) (ps : List (Page A)) (fuel : ℕ) (acc : List A)
      → length ps ≤ fuel
      → IsChain p ps
      → more_pages next fuel p acc ≡ some (ok (acc ++ all_items ps))
  unfolding more_pages all_items
  more_pages-IsChain p [] zero acc l h = rw (h, append-nil acc) refl
  more_pages-IsChain p [] (suc n) acc l h = rw (h, append-nil acc) refl
  more_pages-IsChain p (q ∷ qs) zero acc l h = absurd (omega arith)
  more_pages-IsChain p (q ∷ qs) (suc n) acc l (h0, h1, h2) = rw h1 (
      rw h0 (
        more_pages-IsChain q qs n (acc ++ q.items) (omega arith) h2
        ∙ ap (λ r. some (ok r)) (append_assoc acc q.items (all_items qs))))

  more_pages-IsBroken :
      (p : Page A) (ps : List (Page A)) (e : E) (fuel : ℕ) (acc : List A)
      → suc (length ps) ≤ fuel
      → IsBroken p ps e
      → more_pages next fuel p acc ≡ some (err e)
  unfolding more_pages
  more_pages-IsBroken p ps e zero acc l h = absurd (omega arith)
  more_pages-IsBroken p [] e (suc n) acc l (h0, h1) = rw h1 (rw h0 refl)
  more_pages-IsBroken p (q ∷ qs) e (suc n) acc l (h0, h1, h2) =
      rw h1 (rw h0 (more_pages-IsBroken q qs e n (acc ++ q.items) (omega arith) h2))

  -- When the pages behind the first are a chain that ends, with fuel for each of them, the list is
  -- the items of all the pages, in their order.
  pub list_load_balancer_services-IsChain :
      (p : Page A) (ps : List (Page A)) (fuel : ℕ)
      → length ps ≤ fuel
      → IsChain p ps
      → list_load_balancer_services next fuel (ok p) ≡ some (ok (all_items (p ∷ ps)))
  unfolding list_load_balancer_services all_items
  list_load_balancer_services-IsChain p ps fuel l h = more_pages-IsChain p ps fuel p.items l h

  -- When a page behind the first fails to load, with fuel for the pages before it, the call returns
  -- that error and nothing of those pages.
  pub list_load_balancer_services-IsBroken :
      (p : Page A) (ps : List (Page A)) (e : E) (fuel : ℕ)
      → suc (length ps) ≤ fuel
      → IsBroken p ps e
      → list_load_balancer_services next fuel (ok p) ≡ some (err e)
  unfolding list_load_balancer_services
  list_load_balancer_services-IsBroken p ps e fuel l h = more_pages-IsBroken p ps e fuel p.items l h

-- Once the directories have been polled, also by a poll that failed, `FetchCertificates` does not
-- wait any more: it returns for every load balancer configuration, the default certificate or the
-- others, whatever the control plane answers.
pub fetch_certificates-polled :
    {E : Type 0} (list_certificates : Text → Outcome E (List ApiCertificate)) (fs : FileSystem)
    (force : Bool) (f : Fetcher) (meta : LbConfig) (is_default : Bool)
    → let f' = (poll_certificate_directories fs force f).1 in
      is_some (fetch_certificates list_certificates f' meta is_default) ≡ true
unfolding fetch_certificates poll_certificate_directories
fetch_certificates-polled list_certificates fs force f meta is_default = ground arith
