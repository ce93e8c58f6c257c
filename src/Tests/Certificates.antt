-- ===== src/Tests/Certificates.antt =====
-- The certificate fetcher on a small file system: a complete pair, a directory with a link that
-- leads outside, and pages of load balancer services.
use load_balancer_controller.Base.{
  ℕ, suc, Bool, true, false, some, none, List, [], ◌∷◌, ◌≡◌, refl, if◌then◌else◌, All, ◌⊎◌,
}
use load_balancer_controller.Base.Text.{Text, codes, text_eq}
use load_balancer_controller.Base.Dict.{Dict}
use load_balancer_controller.Base.Outcome.{Outcome, ok, err}
use load_balancer_controller.Config.{Certificate}
use load_balancer_controller.Controller.Certificates.Paths.{
  path_is_within_root, clean_parts, is_abs,
}
use load_balancer_controller.Controller.Certificates.Read.{FileSystem, Entry, Visit, Fetcher}
use load_balancer_controller.Controller.Certificates.Poll.{poll_certificate_directories}
use load_balancer_controller.Controller.Certificates.Fetch.{Page, ApiCertificate}
use load_balancer_controller.Controller.Certificates.Within.{is_start, path_is_within_root-is_start}
use load_balancer_controller.Controller.Certificates.Rooted.{dirs}
use load_balancer_controller.Controller.Certificates.Inside.{EntryFrom, DefaultFrom, poll-From}

path_is_within_root-is_start_example :
    path_is_within_root (codes "/certs/") (codes "/certs/../certs-old/a")
    ≡ is_start (clean_parts (codes "/certs/")) (clean_parts (codes "/certs/../certs-old/a"))
path_is_within_root-is_start_example =
    path_is_within_root-is_start (codes "/certs/") (codes "/certs/../certs-old/a")
      (unfold is_abs in refl) (unfold is_abs in refl)

-- That path is not within.
sibling_is_outside : path_is_within_root (codes "/certs/") (codes "/certs/../certs-old/a") ≡ false
unfolding path_is_within_root
sibling_is_outside = refl

abbrev file : Text → Entry
file name = record { name = name; is_dir = false }

abbrev visit : Text → Text → Visit
visit path name = record {
  path = path;
  info = some (record { name = name; is_dir = true });
  error = none;
}

-- The key of the directory `b` is a link out of the root.
abbrev disk : FileSystem
unfolding text_eq
disk = record {
  working_dir = ok (codes "/");
  lstat = λ path. ok true;
  eval_symlinks =
      λ path. ok (if text_eq path (codes "/certs/b/key") then codes "/etc/secret" else path);
  read_file = λ path. ok path;
  read_dir = λ path. ok (file (codes "cert") ∷ file (codes "key") ∷ []);
  visits = λ dir. visit (codes "/certs/a") (codes "a") ∷ visit (codes "/certs/b") (codes "b") ∷ [];
}

abbrev fetcher : Fetcher
fetcher = record {
  cert_dir = codes "/certs";
  default_cert_dir = [];
  certs_cache = none;
  default_cert = none;
  cert_name = codes "cert";
  key_name = codes "key";
  init_poll_done = false;
}

abbrev polled : Fetcher
unfolding disk poll_certificate_directories
polled = (poll_certificate_directories disk false fetcher).1

-- Only the pair whose key is inside gets into the cache.
one_pair :
    polled.certs_cache
    ≡ some (
        (
          codes "/certs/a",
          record {
            name = codes "a";
            cert = codes "/certs/a/cert";
            key = codes "/certs/a/key";
            fetch = false;
          },
        )
        ∷ [])
unfolding polled disk poll_certificate_directories
one_pair = refl

poll-From_example :
    ((polled.certs_cache ≡ none)
      ⊎ ((m : Dict Certificate) × (polled.certs_cache ≡ some m)
          × All (EntryFrom disk (dirs fetcher)) m))
    × ((polled.default_cert ≡ none) ⊎ DefaultFrom disk (dirs fetcher) polled.default_cert)
unfolding polled
poll-From_example = poll-From disk false fetcher

abbrev no_certificates : Text → Outcome ℕ (List ApiCertificate)
no_certificates name = err 0

abbrev page : ℕ → Bool → Page ℕ
page n partial = record { items = n ∷ []; partial = partial }

abbrev next_page : Page ℕ → Outcome ℕ (Page ℕ)
next_page p = elim p.items [ [] ↦ err 0 | n ∷ ns ↦ ok (page (suc n) false) ]
