-- ===== src/Proxy/Director.antt =====
-- internal/core/routing/proxy/http_proxy.go: the request that is sent to the target, by the reverse proxy and by the
-- connection pool. Texts are lists of runes, and the target of the reverse proxy is parsed already.
pub mod Paths
mod Tests
use mini_gateway.Common.{
  ℕ, Bool, true, false, not, ◌&&◌, List, [], ◌∷◌, ◌++◌, Option, none, some, codes, ◌==◌,
  if◌then◌else◌,
}

abbrev pub Text : Type 0
Text = List ℕ

-- `strings.HasSuffix` and `strings.HasPrefix` with a slash.
unfoldable pub has_suffix_slash : Text → Bool
has_suffix_slash [] = false
has_suffix_slash (x ∷ []) = x == b'/'
has_suffix_slash (x ∷ y ∷ s) = has_suffix_slash (y ∷ s)

unfoldable pub has_prefix_slash : Text → Bool
has_prefix_slash [] = false
has_prefix_slash (x ∷ s) = x == b'/'

-- `b[1:]` of a text that is not empty.
abbrev pub rest_of : Text → Text
rest_of [] = []
rest_of (x ∷ s) = s

unfoldable pub single_joining_slash : Text → Text → Text
unfolding has_suffix_slash has_prefix_slash
single_joining_slash a b =
    if has_suffix_slash a && has_prefix_slash b
    then a ++ rest_of b
    else if not (has_suffix_slash a) && not (has_prefix_slash b)
    then a ++ b'/' ∷ b
    else a ++ b

pub record Url : Type 0 where
  pub scheme : Text
  pub host : Text
  pub path : Text

-- What the proxies send: the address, the `Host` header, and `X-Env` if it is there.
pub record Forwarded : Type 0 where
  pub url : Url
  pub host : Text
  pub x_env : Option Text

unfoldable pub default_director : Url → Forwarded → Forwarded
unfolding single_joining_slash
default_director target r = record r {
  url = record {
    scheme = target.scheme;
    host = target.host;
    path = single_joining_slash target.path r.url.path;
  };
  host = target.host;
}

-- The header is set for the canary environment, and is the client's else.
unfoldable pub with_env : Bool → Option Text → Option Text
with_env is_canary_env x_env = if is_canary_env then some (codes "canary") else x_env

unfoldable pub create_director : Url → Bool → Forwarded → Forwarded
unfolding default_director with_env
create_director target is_canary_env r =
    let r' = default_director target r in record r' { x_env = with_env is_canary_env r'.x_env }

abbrev query_of : Text → Text
query_of [] = []
query_of (x ∷ query) = b'?' ∷ x ∷ query

-- The address that `prepareFastHTTPRequest` makes of a target, a path and a query.
unfoldable pub request_uri : Text → Text → Text → Text
request_uri target path raw_query = codes "http://" ++ (target ++ (path ++ query_of raw_query))
