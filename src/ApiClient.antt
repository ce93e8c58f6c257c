-- ===== src/ApiClient.antt =====
-- The control-plane API client (internal/rancherclient/v2/common.go): the origin that a client is
-- bound to, the requests that it makes and the redirects that it follows, and the calls on
-- resources. `url.Parse`, `URL.String` and `ResolveReference`, the IP address syntax, the query
-- and the network are parameters; a response body is left as its bytes.
pub mod Url
pub mod Origin
pub mod Redirects
pub mod Resources
pub mod Socket
pub mod Allowed
pub mod Setup
