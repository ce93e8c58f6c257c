-- ===== src/Controller/Certificates/Fetch.antt =====
-- `FetchCertificates`, `FetchRancherCertificate`, `UpdateEndpoints` and the paging below it.
use load_balancer_controller.Base.{
  ℕ, zero, suc, Bool, true, false, not, ◌&&◌, Option, some, none, List, [], ◌∷◌, ◌++◌,
  if◌then◌else◌, is_empty, map,
}
use load_balancer_controller.Base.Text.{Text}
use load_balancer_controller.Base.Dict.{Dict}
use load_balancer_controller.Base.Outcome.{Outcome, ok, err, ◌>>=◌}
use load_balancer_controller.Config.{Certificate}
use load_balancer_controller.Controller.Certificates.Read.{Fetcher}
use load_balancer_controller.Metadata.{LbConfig}

-- `client.Certificate`, as far as it is read.
pub record ApiCertificate : Type 0 where
  pub name : Text
  pub cert : Text
  pub cert_chain : Text
  pub key : Text

module _ {E : Type 0} (list_certificates : Text → Outcome E (List ApiCertificate)) where
  -- A name that no certificate has gives an empty one.
  rancher_certificate : List ApiCertificate → Certificate
  rancher_certificate [] = record { name = []; cert = []; key = []; fetch = false }
  rancher_certificate (c ∷ cs) = record {
    name = c.name;
    cert = c.cert ++ (10 ∷ c.cert_chain);
    key = c.key;
    fetch = false;
  }

  -- The certificate pointer: `none` is nil.
  unfoldable pub fetch_rancher_certificate : Text → Outcome E (Option Certificate)
  unfolding rancher_certificate
  fetch_rancher_certificate name =
      if is_empty name
      then ok none
      else list_certificates name >>= λ cs. ok (some (rancher_certificate cs))

  unfoldable pub fetch_named : List Text → Outcome E (List (Option Certificate))
  unfolding fetch_rancher_certificate
  fetch_named [] = ok []
  fetch_named (name ∷ names) =
      fetch_rancher_certificate name >>= λ c. fetch_named names >>= λ cs. ok (c ∷ cs)

  one : Option Certificate → List (Option Certificate)
  one none = []
  one (some c) = some c ∷ []

  cached : Option (Dict Certificate) → List (Option Certificate)
  cached none = []
  cached (some m) = map (λ (e : Text × Certificate). some e.1) m

  fetch_cached : Fetcher → Bool → List (Option Certificate)
  unfolding one cached
  fetch_cached f true = if is_empty f.default_cert_dir then [] else one f.default_cert
  fetch_cached f false = if is_empty f.cert_dir then [] else cached f.certs_cache

  fetch_default : Text → Outcome E (List (Option Certificate))
  unfolding one fetch_rancher_certificate
  fetch_default name =
      if is_empty name then ok [] else fetch_rancher_certificate name >>= λ c. ok (one c)

  -- `none`: the call waits for the first poll of the directories.
  unfoldable pub fetch_certificates :
      Fetcher → LbConfig → Bool → Option (Outcome E (List (Option Certificate)))
  unfolding fetch_cached fetch_named fetch_default
  fetch_certificates f meta is_default =
      if not (is_empty f.cert_dir && is_empty f.default_cert_dir)
      then (if f.init_poll_done then some (ok (fetch_cached f is_default)) else none)
      else if is_default
      then some (fetch_default meta.default_cert)
      else some (fetch_named meta.certs)

-- A page of load balancer services: the data, and whether there is more.
pub record Page (A : Type 0) : Type 0 where
  pub items : List A
  pub partial : Bool

-- `next` asks for the page behind a page.
module _ {A E : Type 0} (next : Page A → Outcome E (Page A)) where
  -- `none`: the fuel has run out.
  after_next :
      (Page A → Option (Outcome E (List A))) → Outcome E (Page A) → Option (Outcome E (List A))
  after_next go (err e) = some (err e)
  after_next go (ok page) = go page

  unfoldable pub more_pages : ℕ → Page A → List A → Option (Outcome E (List A))
  unfolding after_next
  more_pages zero page all = if page.partial then none else some (ok all)
  more_pages (suc fuel) page all =
      let rest = λ (page' : Page A). more_pages fuel page' (all ++ page'.items) in
      if page.partial then after_next rest (next page) else some (ok all)

  unfoldable pub list_load_balancer_services : ℕ → Outcome E (Page A) → Option (Outcome E (List A))
  unfolding more_pages
  list_load_balancer_services fuel (err e) = some (err e)
  list_load_balancer_services fuel (ok page) = more_pages fuel page page.items

  -- The update of the first service of the list.
  update_first : (A → Outcome E A) → Outcome E (List A) → Outcome E (Option A)
  update_first update (err e) = err e
  update_first update (ok []) = ok none
  update_first update (ok (lb ∷ lbs)) = update lb >>= λ lb'. ok (some lb')

  -- `UpdateEndpoints`, with the service that is updated, if any.
  unfoldable pub update_endpoints :
      ℕ → Outcome E (Page A) → (A → Outcome E A) → Option (Outcome E (Option A))
  unfolding update_first list_load_balancer_services
  update_endpoints fuel first_page update = elim (list_load_balancer_services fuel first_page) [
    | none ↦ none
    | some r ↦ some (update_first update r)
  ]
