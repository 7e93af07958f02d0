-- ===== src/Proxy/Director/Tests.antt =====
-- The two proxies with a target of the configuration.
use mini_gateway.Common.{◌≡◌, refl, false, [], none, codes}
use mini_gateway.Proxy.Director.{single_joining_slash, create_director, request_uri}
use mini_gateway.Proxy.Director.Paths.{single_joining_slash_lem}

joined_by_one : single_joining_slash (codes "/v1/") (codes "/users") ≡ codes "/v1/users"
joined_by_one = single_joining_slash_lem (codes "/v1/") (codes "/users")

-- The text of an address, for a target without a scheme and for one with it.
address_without_scheme :
    request_uri (codes "127.0.0.1:8381") (codes "/users") (codes "a=1")
    ≡ codes "http://127.0.0.1:8381/users?a=1"
unfolding request_uri
address_without_scheme = refl

address_with_scheme :
    request_uri (codes "http://127.0.0.1:8381") (codes "/users") (codes "a=1")
    ≡ codes "http://http://127.0.0.1:8381/users?a=1"
unfolding request_uri
address_with_scheme = refl

-- The reverse proxy asks the target with a scheme for the path.
directed :
    (create_director
      (record { scheme = codes "http"; host = codes "127.0.0.1:8381"; path = [] })
      false
      (record {
        url = record { scheme = []; host = []; path = codes "/users" };
        host = codes "gateway";
        x_env = none;
      })).url
    ≡ record { scheme = codes "http"; host = codes "127.0.0.1:8381"; path = codes "/users" }
unfolding create_director
directed = refl
