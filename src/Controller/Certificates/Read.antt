-- ===== src/Controller/Certificates/Read.antt =====
-- The files of a certificate: what `filepath.Walk` calls for each directory.
use load_balancer_controller.Base.{
  Bool, false, Option, some, none, List, [], ◌∷◌, if◌then◌else◌, is_empty,
}
use load_balancer_controller.Base.Text.{Text, text_eq}
use load_balancer_controller.Base.Dict.{Dict, insert}
use load_balancer_controller.Base.Outcome.{Outcome, ok, err, ◌>>=◌}
use load_balancer_controller.Config.{Certificate}
use load_balancer_controller.Controller.Certificates.Paths.{abs, join_path, path_is_within_root}

pub data FileFailure : Type 0 where
  failed : FileFailure
  outside : Text → FileFailure

-- An entry of `os.ReadDir`.
pub record Entry : Type 0 where
  pub name : Text
  pub is_dir : Bool

-- A call that `filepath.Walk` makes: the path, the `FileInfo` (none is nil), and the error.
pub record Visit : Type 0 where
  pub path : Text
  pub info : Option Entry
  pub error : Option FileFailure

-- The operating system at the time of a poll. `visits` are the calls that a walk of the directory
-- makes as long as they return nil.
pub record FileSystem : Type 0 where
  pub working_dir : Outcome FileFailure Text
  -- the answer is not looked at
  pub lstat : Text → Outcome FileFailure Bool
  pub eval_symlinks : Text → Outcome FileFailure Text
  pub read_file : Text → Outcome FileFailure Text
  pub read_dir : Text → Outcome FileFailure (List Entry)
  pub visits : Text → List Visit

-- `RCertificateFetcher`, without its locks and the client. `tempCertsMap` is emptied before each
-- walk, so it is a value of the walk.
pub record Fetcher : Type 0 where
  pub cert_dir : Text
  pub default_cert_dir : Text
  -- none is the nil map of a new fetcher
  pub certs_cache : Option (Dict Certificate)
  pub default_cert : Option Certificate
  pub cert_name : Text
  pub key_name : Text
  pub init_poll_done : Bool

-- The certificate and key that are found so far.
pub record Found : Type 0 where
  pub cert : Option Text
  pub key : Option Text

unfoldable pub pair_of : Text → Option Text → Option Text → Option Certificate
pair_of name (some c) (some k) = some (record { name = name; cert = c; key = k; fetch = false })
pair_of name _ _ = none

unfoldable pub put_pair : Text → Option Certificate → Dict Certificate → Dict Certificate
unfolding insert
put_pair path none m = m
put_pair path (some c) m = insert path c m

-- Only a pair of certificate and key is kept, under the path of its directory.
unfoldable pub keep_pair : Text → Text → Found → Dict Certificate → Dict Certificate
unfolding pair_of put_pair
keep_pair path name found m = put_pair path (pair_of name found.cert found.key) m

module _ (fs : FileSystem) (f : Fetcher) where
  unfoldable pub resolved_within : Text → Outcome FileFailure Text → Bool
  unfolding path_is_within_root
  resolved_within target (err e) = false
  resolved_within target (ok root) = path_is_within_root root target

  -- A root is passed over (none), or decides.
  unfoldable pub judge : Text → Text → Outcome FileFailure Text → Option Bool
  unfolding path_is_within_root resolved_within
  judge source target (err e) = none
  judge source target (ok root) =
      if path_is_within_root root source
      then some (resolved_within target (fs.eval_symlinks root))
      else none

  unfoldable pub within_roots : Text → Text → List Text → Bool
  unfolding judge abs
  within_roots source target [] = false
  within_roots source target (configured ∷ rest) =
      let more = within_roots source target rest in
      if is_empty configured
      then more
      else elim (judge source target (abs fs.working_dir configured)) [
        | none ↦ more
        | some decision ↦ decision
      ]

  unfoldable pub path_is_within_configured_root : Text → Text → Bool
  unfolding within_roots
  path_is_within_configured_root source target =
      within_roots source target (f.cert_dir ∷ f.default_cert_dir ∷ [])

  -- The file that `evaluatueLinkAndReadFile` reads.
  unfoldable pub read_target : Text → Text → Outcome FileFailure Text
  unfolding path_is_within_configured_root abs join_path
  read_target dir file_name = abs fs.working_dir (join_path dir file_name) >>= λ path.
      fs.lstat path >>= λ _. fs.eval_symlinks path >>= λ target.
      if path_is_within_configured_root path target then ok target else err (outside path)

  unfoldable pub evaluate_link_and_read_file : Text → Text → Outcome FileFailure Text
  unfolding read_target
  evaluate_link_and_read_file dir file_name =
      read_target dir file_name >>= λ target. fs.read_file target

  unfoldable pub take_content : Text → Outcome FileFailure Text → Found → Found
  unfolding text_eq
  take_content file_name (err e) found = found
  take_content file_name (ok content) found =
      if text_eq file_name f.cert_name
      then record found { cert = some content }
      else if text_eq file_name f.key_name
      then record found { key = some content }
      else found

  unfoldable pub read_entries : Text → List Entry → Found → Found
  unfolding take_content evaluate_link_and_read_file
  read_entries path [] found = found
  read_entries path (e ∷ es) found = read_entries path es (
      if e.is_dir
      then found
      else take_content e.name (evaluate_link_and_read_file path e.name) found)

  unfoldable pub read_listing :
      Text
      → Text
      → Dict Certificate
      → Outcome FileFailure (List Entry)
      → Outcome FileFailure (Dict Certificate)
  unfolding keep_pair read_entries
  read_listing path name m (err e) = err e
  read_listing path name m (ok entries) =
      ok (keep_pair path name (read_entries path entries (record { cert = none; key = none })) m)

  unfoldable pub read_directory :
      Text → Text → Option FileFailure → Dict Certificate → Outcome FileFailure (Dict Certificate)
  unfolding read_listing
  read_directory path name (some e) m = err e
  read_directory path name none m = read_listing path name m (fs.read_dir path)

  unfoldable pub read_certificate :
      Visit → Dict Certificate → Outcome FileFailure (Dict Certificate)
  unfolding read_directory
  read_certificate v m = elim v.info [
    | none ↦ ok m
    | some info ↦ if info.is_dir then read_directory v.path info.name v.error m else ok m
  ]

  -- `filepath.Walk` ends at the first error of a call.
  unfoldable pub walk : List Visit → Dict Certificate → Outcome FileFailure (Dict Certificate)
  unfolding read_certificate
  walk [] m = ok m
  walk (v ∷ vs) m = read_certificate v m >>= λ m'. walk vs m'
