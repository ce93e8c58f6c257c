-- ===== src/Controller/Certificates/Inside.antt =====
-- Where the certificates come from: every one that a poll puts into the cache is the content of
-- files inside the configured directories.
use load_balancer_controller.Base.{
  Bool, not, ◌||◌, Option, some, none, List, [], ◌∷◌, ◌≡◌, refl, sym, ◌∙◌, if-true, if-false,
  is_empty, All, inl, inr, ◌⊎◌, Bool-cases,
}
use load_balancer_controller.Base.Text.{Text, text_eq}
use load_balancer_controller.Base.Dict.{Dict, All-insert}
use load_balancer_controller.Base.Outcome.{Outcome, ok, err, bind-eq-ok, ok-inj}
use load_balancer_controller.Config.{Certificate}
use mathlib.Core.Path.{subst}
use load_balancer_controller.Controller.Certificates.Read.{
  FileSystem, FileFailure, Fetcher, Entry, Visit, Found, evaluate_link_and_read_file, take_content,
  read_entries, keep_pair, put_pair, pair_of, read_certificate, read_directory, read_listing, walk,
}
use load_balancer_controller.Controller.Certificates.Poll.{
  poll_certs, poll_default, poll_certificate_directories, last_certificate, cache_certs,
  cache_default, same_map, same_option,
}
use load_balancer_controller.Controller.Certificates.Rooted.{dirs, IsFrom, evaluate-IsFrom}

-- The certificate and the key of an entry.
abbrev pub EntryFrom : FileSystem → List Text → Text × Certificate → Type 0
EntryFrom fs ds e = IsFrom fs ds e.1.cert × IsFrom fs ds e.1.key

module _ (fs : FileSystem) (f : Fetcher) where
  -- What is found is the content of such files.
  abbrev AllFrom : Option Text → Type 0
  AllFrom none = Unit
  AllFrom (some content) = IsFrom fs (dirs f) content

  take_content-AllFrom :
      (dir name : Text) (r : Outcome FileFailure Text) (found : Found)
      → r ≡ evaluate_link_and_read_file fs f dir name
      → AllFrom found.cert × AllFrom found.key
      → AllFrom (take_content fs f name r found).cert × AllFrom (take_content fs f name r found).key
  unfolding take_content
  take_content-AllFrom dir name (err e) found eq h = h
  take_content-AllFrom dir name (ok content) found eq h =
      let here = evaluate-IsFrom fs f dir name content (sym eq) in
      elim (Bool-cases (text_eq name f.cert_name)) [
        | inl c ↦ rw c (here, h.1)
        | inr c ↦ elim (Bool-cases (text_eq name f.key_name)) [
          | inl k ↦ rw (c, k) (h.0, here)
          | inr k ↦ rw (c, k) h
        ]
      ]

  read_entries-AllFrom :
      (dir : Text) (es : List Entry) (found : Found)
      → AllFrom found.cert × AllFrom found.key
      → let out = read_entries fs f dir es found in AllFrom out.cert × AllFrom out.key
  unfolding read_entries
  read_entries-AllFrom dir [] found h = h
  read_entries-AllFrom dir (e ∷ es) found h = elim (Bool-cases e.is_dir) [
    | inl d ↦ rw d (read_entries-AllFrom dir es found h)
    | inr d ↦ rw d (
        read_entries-AllFrom dir es _ (
          take_content-AllFrom dir e.name (evaluate_link_and_read_file fs f dir e.name) found refl
            h))
  ]

  put_pair-From :
      (path name : Text) (c k : Option Text) (m : Dict Certificate)
      → AllFrom c × AllFrom k
      → All (EntryFrom fs (dirs f)) m
      → All (EntryFrom fs (dirs f)) (put_pair path (pair_of name c k) m)
  unfolding put_pair pair_of
  put_pair-From path name none none m h a = a
  put_pair-From path name (some c) none m h a = a
  put_pair-From path name none (some k) m h a = a
  put_pair-From path name (some c) (some k) m h a = All-insert (EntryFrom fs (dirs f)) path _ m h a

  keep_pair-From :
      (path name : Text) (found : Found) (m : Dict Certificate)
      → AllFrom found.cert × AllFrom found.key
      → All (EntryFrom fs (dirs f)) m
      → All (EntryFrom fs (dirs f)) (keep_pair path name found m)
  unfolding keep_pair
  keep_pair-From path name found m h a = put_pair-From path name found.cert found.key m h a

  read_listing-From :
      (path name : Text) (m out : Dict Certificate) (r : Outcome FileFailure (List Entry))
      → All (EntryFrom fs (dirs f)) m
      → read_listing fs f path name m r ≡ ok out
      → All (EntryFrom fs (dirs f)) out
  unfolding read_listing
  read_listing-From path name m out (err e) a h = absurd (cc h)
  read_listing-From path name m out (ok es) a h = subst (All (EntryFrom fs (dirs f))) (cc h) (
      keep_pair-From path name _ m
        (read_entries-AllFrom path es (record { cert = none; key = none }) (tt, tt)) a)

  read_directory-From :
      (path name : Text) (e : Option FileFailure) (m out : Dict Certificate)
      → All (EntryFrom fs (dirs f)) m
      → read_directory fs f path name e m ≡ ok out
      → All (EntryFrom fs (dirs f)) out
  unfolding read_directory
  read_directory-From path name (some e) m out a h = absurd (cc h)
  read_directory-From path name none m out a h =
      read_listing-From path name m out (fs.read_dir path) a h

  visit-From :
      (path : Text) (info : Option Entry) (e : Option FileFailure) (m out : Dict Certificate)
      → All (EntryFrom fs (dirs f)) m
      → read_certificate fs f (record { path = path; info = info; error = e }) m ≡ ok out
      → All (EntryFrom fs (dirs f)) out
  unfolding read_certificate
  visit-From path none e m out a h = subst (All (EntryFrom fs (dirs f))) (cc h) a
  visit-From path (some info) e m out a h = elim (Bool-cases info.is_dir) [
    | inl d ↦ read_directory-From path info.name e m out a (if-true _ _ _ d h)
    | inr d ↦ subst (All (EntryFrom fs (dirs f))) (ok-inj (if-false _ _ _ d h)) a
  ]

  walk-From :
      (vs : List Visit) (m out : Dict Certificate)
      → All (EntryFrom fs (dirs f)) m
      → walk fs f vs m ≡ ok out
      → All (EntryFrom fs (dirs f)) out
  unfolding walk
  walk-From [] m out a h = subst (All (EntryFrom fs (dirs f))) (ok-inj h) a
  walk-From (v ∷ vs) m out a h =
      let (m', r, h') = bind-eq-ok (read_certificate fs f v m) (λ m'. walk fs f vs m') h in
      walk-From vs m' out (visit-From v.path v.info v.error m m' a r) h'

-- The certificate of the default directory.
abbrev pub DefaultFrom : FileSystem → List Text → Option Certificate → Type 0
DefaultFrom fs ds none = Unit
DefaultFrom fs ds (some c) = IsFrom fs ds c.cert × IsFrom fs ds c.key

last_certificate-From :
    (fs : FileSystem) (ds : List Text) (m : Dict Certificate)
    → All (EntryFrom fs ds) m
    → DefaultFrom fs ds (last_certificate m)
unfolding last_certificate
last_certificate-From fs ds [] a = tt
last_certificate-From fs ds ((k, c) ∷ []) a = a.0
last_certificate-From fs ds ((k, c) ∷ e ∷ m) a = last_certificate-From fs ds (e ∷ m) a.1

-- A poll of one directory: the directories stay, and the cache is left alone or made anew.
abbrev CacheFrom : FileSystem → List Text → Fetcher → Fetcher → Type 0
CacheFrom fs ds f f' =
    (f'.certs_cache ≡ f.certs_cache)
    ⊎ ((m : Dict Certificate) × (f'.certs_cache ≡ some m) × All (EntryFrom fs ds) m)

cache_certs-From :
    (fs : FileSystem) (force : Bool) (r : Outcome FileFailure (Dict Certificate)) (f : Fetcher)
    → r ≡ walk fs f (fs.visits f.cert_dir) []
    → let f' = (cache_certs fs force r f).1 in
      CacheFrom fs (dirs f) f f' × (f'.default_cert ≡ f.default_cert) × (dirs f' ≡ dirs f)
unfolding cache_certs
cache_certs-From fs force (err e) f h = (inl refl, refl, refl)
cache_certs-From fs force (ok m) f h = elim (Bool-cases (force || not (same_map f.certs_cache m))) [
  | inl c ↦ rw c (inr (m, refl, walk-From fs f (fs.visits f.cert_dir) [] m tt (sym h)), refl, refl)
  | inr c ↦ rw c (inl refl, refl, refl)
]

poll_certs-From :
    (fs : FileSystem) (force : Bool) (f : Fetcher)
    → let f' = (poll_certs fs force f).1 in
      CacheFrom fs (dirs f) f f' × (f'.default_cert ≡ f.default_cert) × (dirs f' ≡ dirs f)
unfolding poll_certs
poll_certs-From fs force f = elim (Bool-cases (is_empty f.cert_dir)) [
  | inl c ↦ rw c (inl refl, refl, refl)
  | inr c ↦ rw c (cache_certs-From fs force (walk fs f (fs.visits f.cert_dir) []) f refl)
]

cache_default-From :
    (fs : FileSystem) (force : Bool) (r : Outcome FileFailure (Dict Certificate)) (f : Fetcher)
    → r ≡ walk fs f (fs.visits f.default_cert_dir) []
    → let f' = (cache_default fs force r f).1 in
      ((f'.default_cert ≡ f.default_cert) ⊎ DefaultFrom fs (dirs f) f'.default_cert)
      × (f'.certs_cache ≡ f.certs_cache)
unfolding cache_default
cache_default-From fs force (err e) f h = (inl refl, refl)
cache_default-From fs force (ok m) f h =
    elim (Bool-cases (force || not (same_option f.default_cert (last_certificate m)))) [
      | inl c ↦ rw c (
        inr (
            last_certificate-From fs (dirs f) m
              (walk-From fs f (fs.visits f.default_cert_dir) [] m tt (sym h))),
        refl,
      )
      | inr c ↦ rw c (inl refl, refl)
    ]

poll_default-From :
    (fs : FileSystem) (force : Bool) (f : Fetcher)
    → let f' = (poll_default fs force f).1 in
      ((f'.default_cert ≡ f.default_cert) ⊎ DefaultFrom fs (dirs f) f'.default_cert)
      × (f'.certs_cache ≡ f.certs_cache)
unfolding poll_default
poll_default-From fs force f = elim (Bool-cases (is_empty f.default_cert_dir)) [
  | inl c ↦ rw c (inl refl, refl)
  | inr c ↦ rw c (cache_default-From fs force (walk fs f (fs.visits f.default_cert_dir) []) f refl)
]

-- After a poll, forced or not, the certificates of the cache are those of before, or every one of
-- them, and its key, is the content of a file whose path is what all symbolic links of a path
-- resolve to, and that lies inside the resolved form of a configured directory; so is the default
-- certificate. Nothing that a link leads to outside of them gets into the cache.
pub poll-From :
    (fs : FileSystem) (force : Bool) (f : Fetcher)
    → let f' = (poll_certificate_directories fs force f).1 in
      ((f'.certs_cache ≡ f.certs_cache)
        ⊎ ((m : Dict Certificate) × (f'.certs_cache ≡ some m) × All (EntryFrom fs (dirs f)) m))
      × ((f'.default_cert ≡ f.default_cert) ⊎ DefaultFrom fs (dirs f) f'.default_cert)
unfolding poll_certificate_directories
poll-From fs force f =
    let f1 = (poll_certs fs force f).1 in
    let (a, b, c) = poll_certs-From fs force f in
    let (d, e) = poll_default-From fs force f1 in
    (
      rw e a,
      elim d [
        | inl k ↦ inl (k ∙ b)
        | inr k ↦
            inr (subst (λ ds. DefaultFrom fs ds (poll_default fs force f1).1.default_cert) c k)
      ],
    )
