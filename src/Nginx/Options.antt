-- ===== src/Nginx/Options.antt =====
-- The annotation values that nginx/service.go supports, and their validation.
pub mod Laws
use lbex.Prelude.{String, Bool, true, false, List, [], ◌∷◌, ◌==◌, if◌then◌else◌, not}

abbrev pub round_robin : String
round_robin = "round_robin"

abbrev pub least_connections : String
least_connections = "least_conn"

abbrev pub lowest_latency : String
lowest_latency = "least_time"

abbrev pub default_algorithm : String
default_algorithm = round_robin

abbrev pub supported_algorithms : List String
supported_algorithms = round_robin ∷ least_connections ∷ lowest_latency ∷ []

abbrev pub connect : String
connect = "connect"

abbrev pub first_byte : String
first_byte = "first_byte"

abbrev pub last_byte : String
last_byte = "last_byte"

abbrev pub connect_inflight : String
connect_inflight = "connect inflight"

abbrev pub first_byte_inflight : String
first_byte_inflight = "first_byte inflight"

abbrev pub last_byte_inflight : String
last_byte_inflight = "last_byte inflight"

abbrev pub default_method : String
default_method = connect

abbrev pub supported_methods : List String
supported_methods =
    connect ∷ first_byte ∷ last_byte ∷ connect_inflight ∷ first_byte_inflight ∷ last_byte_inflight
    ∷ []

abbrev pub host_node : String
host_node = "node"

abbrev pub pod : String
pod = "pod"

abbrev pub cluster_ip : String
cluster_ip = "cluster-ip"

abbrev pub default_upstream_type : String
default_upstream_type = host_node

abbrev pub upstream_types : List String
upstream_types = host_node ∷ pod ∷ cluster_ip ∷ []

abbrev pub host : String
host = "host"

abbrev pub all_nodes : String
all_nodes = "all"

abbrev pub default_node_set : String
default_node_set = host

abbrev pub node_selection_sets : List String
node_selection_sets = host ∷ all_nodes ∷ []

abbrev pub internal : String
internal = "internal"

abbrev pub external : String
external = "external"

abbrev pub default_node_address_type : String
default_node_address_type = internal

abbrev pub node_address_types : List String
node_address_types = internal ∷ external ∷ []

-- The loop that each of the functions below has: `found`, with `break` at the first hit.
unfoldable pub found_in : String → List String → Bool
found_in a [] = false
found_in a (current ∷ rest) = if a == current then true else found_in a rest

unfoldable pub validate_algorithm : String → String
unfolding found_in
validate_algorithm a = if not (found_in a supported_algorithms) then default_algorithm else a

unfoldable pub validate_method : String → String
unfolding found_in
validate_method m = if not (found_in m supported_methods) then default_method else m

unfoldable pub validate_upstream_type : String → String
unfolding found_in
validate_upstream_type ups =
    if not (found_in ups upstream_types) then default_upstream_type else ups

unfoldable pub validate_node_address_type : String → String
unfolding found_in
validate_node_address_type at =
    if not (found_in at node_address_types) then default_node_address_type else at

unfoldable pub validate_node_set : String → String
unfolding found_in
validate_node_set set = if not (found_in set node_selection_sets) then default_node_set else set
