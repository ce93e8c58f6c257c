-- ===== src/Metadata/Accessors/Services.antt =====
-- What `GetServiceInLocalEnvironment` asks for (internal/metadata/client.go).
use load_balancer_controller.Base.{
  Bool, true, ◌||◌, some, [], ◌∷◌, ◌++◌, ◌≡◌, refl, sym, if◌then◌else◌, any,
}
use load_balancer_controller.Base.Text.{
  Text, codes, text_eq, has_prefix, split_byte, contains_byte, split_byte-whole, more_pieces,
}
use load_balancer_controller.Base.Outcome.{Outcome, ok, err}
use load_balancer_controller.Metadata.Client.{
  ClientFailure, Location, HttpClient, traversal, is_up, endpoint, target_of, reference_of,
}
use load_balancer_controller.Metadata.Accessors.{path_escape, path_of, service_in_local_environment}
use load_balancer_controller.Metadata.Accessors.Escapes.{
  unescape, is_bytes, unescape-plain, unescape-whole, unescape-path_escape, path_escape-no_slash,
  escape-end, escape-dot, escape-spelled, or-last,
}

abbrev service_path : Text → Text → Text
service_path stack n = codes "/stacks/" ++ (stack ++ (codes "/services/" ++ n))

-- The path of a service has five pieces, whatever the names.
service_pieces :
    (stack n : Text)
    → split_byte b'/' (path_of (service_in_local_environment stack n))
      ≡ [] ∷ codes "stacks" ∷ path_escape stack ∷ codes "services" ∷ path_escape n ∷ []
unfolding path_of contains_byte
service_pieces stack n =
    let last = split_byte-whole b'/' (path_escape n) (path_escape-no_slash n) in
    let three = more_pieces b'/' (codes "services") _ refl last in
    let four = more_pieces b'/' (path_escape stack) _ (path_escape-no_slash stack) three in
    more_pieces b'/' [] _ refl (more_pieces b'/' (codes "stacks") _ refl four)

-- The path that is read back has the names themselves.
unescape-service_path :
    (stack n : Text)
    → is_bytes stack ≡ true
    → is_bytes n ≡ true
    → unescape (path_of (service_in_local_environment stack n)) ≡ some (service_path stack n)
unfolding path_of contains_byte
unescape-service_path stack n b c =
    let rest = unescape-plain (codes "/services/") _ refl (unescape-whole n c) in
    unescape-plain (codes "/stacks/") _ refl (unescape-path_escape stack _ b rest)

module _ (parse : Text → Outcome ClientFailure Location) (is_ip : Text → Bool) where
  -- A segment that is an escaped name goes up only if the name is `..`.
  is_up-path_escape : (s : Text) → is_up parse is_ip (path_escape s) ≡ text_eq s (codes "..")
  unfolding is_up
  is_up-path_escape s =
      rw (escape-dot s (b'.' ∷ []) (λ r. escape-dot r [] escape-end), escape-spelled s)
        (or-last (text_eq s (codes "..")))

  -- A request for a service of a stack, with the path parsed as `url.Parse` does it: it is refused
  -- exactly when a name is `..`, and otherwise asks for `/stacks/<stack>/services/<name>` below the
  -- path of the base URL, on its scheme and host, with the names themselves in it: whatever was
  -- escaped in them is itself again, a slash too.
  pub endpoint-service :
      (client : HttpClient) (stack n : Text) {reference : Location}
      → is_bytes stack ≡ true
      → is_bytes n ≡ true
      → parse (path_of (service_in_local_environment stack n)) ≡ ok reference
      → reference.scheme ≡ []
      → reference.host ≡ []
      → reference.escaped ≡ path_of (service_in_local_environment stack n)
      → unescape reference.escaped ≡ some reference.path
      → endpoint parse is_ip client (path_of (service_in_local_environment stack n)) ≡ (
          if text_eq stack (codes "..") || text_eq n (codes "..")
          then err traversal
          else ok (record (client.base_url) {
            path = client.base_url.path ++ service_path stack n;
            escaped = [];
            raw_query = reference.raw_query;
          }))
  unfolding endpoint reference_of target_of has_prefix any
  endpoint-service client stack n {reference} b c p scheme host escaped read =
      let path : service_path stack n ≡ reference.path =
        cc (unescape-service_path stack n b c, escaped, read) in
      rw
        (
          p,
          scheme,
          host,
          sym path,
          escaped,
          service_pieces stack n,
          is_up-path_escape stack,
          is_up-path_escape n,
          or-last (text_eq n (codes "..")),
        )
        refl
