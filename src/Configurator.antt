-- ===== src/Configurator.antt =====
-- nginx/configurator.go for stream load balancing: the cache of nodes, and the generation of NGINX
-- stream configurations. `State` holds the package's three maps and what the Configurator points to.
pub mod Nodes
pub mod Invariant
use lbex.Prelude.{
  String, Bool, true, false, not, ◌&&◌, ◌||◌, Option, none, some, List, [], ◌∷◌, ◌++◌, map, ◌==◌,
  any, if◌then◌else◌,
}
use Prim.Native.String.{◌++◌ as ◌⧺◌}
use lbex.Prelude.Int.{ℤ}
use lbex.Prelude.Text.{itoa, equal_fold}
use lbex.Prelude.Dict.{Dict, get, put, delete}
use lbex.Runtime.{Runtime, after_range}
use lbex.K8s.{v1_service, V1Service}
use lbex.Annotations.{
  lbex_resolver_key, lbex_method_key, lbex_ip_passthrough, lbex_node_set, lbex_node_address_type,
  lbex_port_annotation_base, get_int_annotation, get_optional_string_annotation,
  get_optional_bool_annotation,
}
use lbex.Nginx.{
  Node, Target, ServiceSpec, StreamUpstreamServer, StreamUpstream, StreamListen, StreamServer,
  StreamNginxConfig,
}
use lbex.Nginx.Options.{
  round_robin, lowest_latency, host_node, pod, cluster_ip, host, all_nodes, internal,
  validate_method, validate_node_set, validate_node_address_type,
}
use lbex.Nginx.Context.{HttpContext}
use lbex.Nginx.Control.{NginxController, World}

pub record State : Type 0 where
  pub nodes : Dict Node
  pub service_upstream_nodes : Dict (List Node)
  pub service_upstream_target : Dict (List Target)
  pub ngxc : NginxController
  pub config : HttpContext
  pub world : World

-- `for svc, upstreamNodes := range serviceUpstreamNodes`: the keys for which some node passes
abbrev pub keys_where : (Node → Bool) → List (String × List Node) → List String
keys_where test [] = []
keys_where test ((svc, upstream_nodes) ∷ rest) =
    let keys = keys_where test rest in if any test upstream_nodes then svc ∷ keys else keys

unfoldable pub service_list_by_node_address : Runtime → State → String → List String
service_list_by_node_address rt st address =
    keys_where (λ node. node.internal_ip == address || node.external_ip == address)
      (rt.visit (List Node) 0 st.service_upstream_nodes)

unfoldable pub service_list_by_node_name : Runtime → State → String → List String
service_list_by_node_name rt st name =
    keys_where (λ node. node.name == name) (rt.visit (List Node) 0 st.service_upstream_nodes)

-- AddOrUpdateNode for a node that is in the cache, as `elem`
update_node : Runtime → State → Node → Node → List String × State
unfolding service_list_by_node_address service_list_by_node_name
update_node rt st elem node =
    if node.active
    then (
      (if not (elem.internal_ip == node.internal_ip)
            then service_list_by_node_address rt st elem.internal_ip
            else [])
          ++ (if not (elem.external_ip == node.external_ip)
              then service_list_by_node_address (after_range rt) st elem.external_ip
              else []),
      record st { nodes = put node.name node st.nodes },
    )
    else (
      service_list_by_node_name rt st node.name,
      record st { nodes = delete node.name st.nodes },
    )

-- AddOrUpdateNode
unfoldable pub add_or_update_node : Runtime → State → Node → List String × State
unfolding update_node
add_or_update_node rt st node = elim (get node.name st.nodes) [
  | none ↦ ([], record st { nodes = put node.name node st.nodes })
  | some elem' ↦ update_node rt st elem' node
]

-- DeleteNode
unfoldable pub delete_node : Runtime → State → String → List String × State
unfolding add_or_update_node
delete_node rt st key = elim (get key st.nodes) [
  | some node ↦ add_or_update_node rt st (record node { active = false })
  | none ↦ ([], st)
]
