-- ===== src/Ingress/Rewrites.antt =====
-- nginx/configurator.go: the annotations of an Ingress that name services, getWebsocketServices,
-- getSSLServices and getRewrites.
pub mod Laws
use lbex.Prelude.{String, ℕ, Bool, true, Option, none, some, List, [], ◌∷◌}
use lbex.Prelude.Split.{split, split_2}
use lbex.Prelude.Dict.{Dict, get, put}

-- the loop of getWebsocketServices and of getSSLServices
put_services : List String → Dict Bool → Dict Bool
unfolding put
put_services [] services = services
put_services (svc ∷ rest) services = put_services rest (put svc true services)

-- what both do, with the names of their annotations
services_of : Option String → Dict Bool
unfolding split put_services
services_of none = []
services_of (some services) = put_services (split b',' services) []

unfoldable pub get_websocket_services : Dict String → Dict Bool
unfolding get split put services_of put_services
get_websocket_services annotations = services_of (get "nginx.org/websocket-services" annotations)

unfoldable pub get_ssl_services : Dict String → Dict Bool
unfolding get split put services_of put_services
get_ssl_services annotations = services_of (get "nginx.org/ssl-services" annotations)

-- the second of exactly two parts
abbrev pub second_of_two : List String → Option String
second_of_two (first ∷ second ∷ []) = some second
second_of_two _ = none

abbrev pub both : Option String → Option String → Option (String × String)
both (some a) (some b) = some (a, b)
both _ _ = none

unfoldable pub rewrite_parts : List String → Option (String × String)
unfolding split
rewrite_parts (service ∷ path ∷ []) =
    both (second_of_two (split b'=' service)) (second_of_two (split b'=' path))
rewrite_parts _ = none

-- parseRewrites; `none` is its error
unfoldable pub parse_rewrites : String → Option (String × String)
unfolding split split_2 rewrite_parts
parse_rewrites service = rewrite_parts (split_2 b' ' service)

unfoldable pub put_rewrites : List String → Dict String → Dict String
unfolding split split_2 rewrite_parts parse_rewrites put
put_rewrites [] rewrites = rewrites
put_rewrites (svc ∷ rest) rewrites = elim (parse_rewrites svc) [
  | none ↦ put_rewrites rest rewrites
  | some (service_name, rewrite) ↦ put_rewrites rest (put service_name rewrite rewrites)
]

unfoldable pub rewrites_of : Option String → Dict String
unfolding split put_rewrites
rewrites_of none = []
rewrites_of (some services) = put_rewrites (split b';' services) []

unfoldable pub get_rewrites : Dict String → Dict String
unfolding get split put put_rewrites rewrites_of
get_rewrites annotations = rewrites_of (get "nginx.org/rewrites" annotations)
