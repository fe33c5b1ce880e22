-- ===== src/Tests/Parts.antt =====
-- The theorems on the parts, applied to the cluster of lbex.Tests.
use lbex.Prelude.{
  ◌≢◌, ◌⊎◌, String, ◌≡◌, refl, ◌↔◌, true, false, not, ◌&&◌, none, [], ◌∷◌, ◌++◌, arith, ◌==◌,
  eq_iff, if◌then◌else◌,
}
use lbex.Prelude.Int.{pos}
use lbex.Prelude.Dict.{get, put}
use lbex.Prelude.Text.{atoi, equal_fold}
use lbex.Outcome.{done, halt, nil_dereference}
use lbex.K8s.{v1_service, v1_node, V1Service}
use lbex.Annotations.{get_int_annotation, get_optional_string_annotation, is_valid}
use lbex.Annotations.Laws.{get_optional_string-service, get_int-service}
use lbex.Service.{validate_service_object}
use lbex.Service.Laws.{IsBalanced, validate_service_object_iff}
use lbex.Selection.{check_affinity, base_check}
use lbex.Selection.Laws.{affinity_modes, base_check_off}
use lbex.Topology.{get_service_endpoints, get_endpoints}
use lbex.Topology.Endpoints.{expand, reaches_unnamed, get_endpoints_product}
use lbex.Nginx.{StreamNginxConfig}
use lbex.Nginx.Options.{
  default_algorithm, supported_algorithms, validate_algorithm, default_method, supported_methods,
  validate_method, upstream_types, default_upstream_type, validate_upstream_type,
  node_address_types, default_node_address_type, validate_node_address_type, node_selection_sets,
  default_node_set, validate_node_set,
}
use lbex.Nginx.Options.Laws.{IsChoice, validate-IsChoice}
use lbex.Nginx.Control.{
  stream_conf, World, get_stream_config_file_name, add_or_update_stream,
  delete_stream_configuration, reload, is_local,
}
use lbex.Nginx.Control.Laws.{
  written, add_or_update_stream_lem, delete_stream_configuration_lem, reload_commands, reload_lem,
}
use lbex.NodeInfo.{get_node_external_ip, get_node_internal_ip, get_node_hostname}
use lbex.NodeInfo.Laws.{get_node_address-node}
use lbex.Tests.{client, os, cfg, http, web, web_endpoints, api_node_n1, stores, ngxc, world}

get_optional_string-service_example :
    get_optional_string_annotation "loadbalancer.lbex/host" (v1_service web) ≡ ("", true)
unfolding get
get_optional_string-service_example =
    get_optional_string-service "loadbalancer.lbex/host" web
      (ground (arith, eq_iff "loadbalancer.lbex/host" ""))

get_int-service_example :
    get_int_annotation "loadbalancer-port.lbex/http" (v1_service web) ≡ (pos 8080, none)
unfolding get atoi
get_int-service_example =
    get_int-service "loadbalancer-port.lbex/http" web
      (ground (arith, eq_iff "loadbalancer-port.lbex/http" ""))

web_accepted : validate_service_object (v1_service web) ≡ true
unfolding validate_service_object equal_fold is_valid
web_accepted = refl

validate_service_object_iff_example :
    (validate_service_object (v1_service web) ≡ true)
    ↔ ((s : V1Service) × (v1_service web ≡ v1_service s) × IsBalanced s)
validate_service_object_iff_example = validate_service_object_iff (v1_service web)

affinity_modes_example :
    ((check_affinity (record cfg { strict_affinity = true; anti_affinity = true }) "blue" ≡ true)
      ↔ ("blue" ≡ cfg.service_pool))
    × ((check_affinity (record cfg { strict_affinity = false; anti_affinity = true }) "blue" ≡ true)
        ↔ ("blue" ≢ cfg.service_pool))
    × ((check_affinity (record cfg { strict_affinity = false; anti_affinity = false }) "blue"
          ≡ true)
        ↔ (◌≡◌ {A = String} "blue" "" ⊎ ("blue" ≡ cfg.service_pool)))
affinity_modes_example = affinity_modes cfg "blue" true

base_check_off_example : base_check (record cfg { require_port = false }) (v1_service web) ≡ false
base_check_off_example = base_check_off (record cfg { require_port = false }) (v1_service web) refl

web_endpoints_found : get_service_endpoints stores.endpoint_store web ≡ done (web_endpoints, none)
unfolding get_service_endpoints
web_endpoints_found = refl

get_endpoints_product_example : get_endpoints client stores.endpoint_store web http ≡ (
    if reaches_unnamed http web_endpoints.subsets
    then halt nil_dereference
    else done (expand http web_endpoints.subsets))
get_endpoints_product_example =
    get_endpoints_product client http (omega arith) stores.endpoint_store web web_endpoints
      web_endpoints_found

validate-IsChoice_example :
    IsChoice supported_algorithms default_algorithm "least_conn" (validate_algorithm "least_conn")
    × IsChoice supported_methods default_method "least_conn" (validate_method "least_conn")
    × IsChoice upstream_types default_upstream_type "least_conn"
        (validate_upstream_type "least_conn")
    × IsChoice node_address_types default_node_address_type "least_conn"
        (validate_node_address_type "least_conn")
    × IsChoice node_selection_sets default_node_set "least_conn" (validate_node_set "least_conn")
validate-IsChoice_example = validate-IsChoice "least_conn"

abbrev empty_config : StreamNginxConfig
empty_config = record { resolver = ""; upstreams = []; servers = [] }

abbrev written_world : World
written_world = record world {
  files = ("/etc/nginx/conf.d/shop-web.stream.conf", stream_conf empty_config) ∷ [];
}

shop_web_written :
    add_or_update_stream os ngxc "shop-web" empty_config world ≡ (done tt, written_world)
unfolding add_or_update_stream put
shop_web_written = refl

add_or_update_stream_lem_example :
    ((file : String)
      → get file written_world.files ≡ (
          if get_stream_config_file_name ngxc "shop-web" == file
          then written ngxc empty_config (get file world.files)
          else get file world.files))
    × (written_world.commands ≡ world.commands)
add_or_update_stream_lem_example =
    add_or_update_stream_lem os ngxc "shop-web" empty_config world written_world shop_web_written

delete_stream_configuration_lem_example :
    ((file : String)
      → get file (delete_stream_configuration os ngxc "shop-web" written_world).files ≡ (
          if (get_stream_config_file_name ngxc "shop-web" == file)
            && (not (is_local ngxc.cfg_type) && os.can_remove written_world file)
          then none
          else get file written_world.files))
    × ((delete_stream_configuration os ngxc "shop-web" written_world).commands
        ≡ written_world.commands)
delete_stream_configuration_lem_example =
    delete_stream_configuration_lem os ngxc "shop-web" written_world

reload_lem_example :
    ((reload os ngxc world).1.commands
      ≡ world.commands ++ reload_commands ngxc (os.shell_error world "nginx -t"))
    × ((reload os ngxc world).1.files ≡ world.files)
reload_lem_example = reload_lem os ngxc world

get_node_address-node_example :
    (get_node_external_ip (v1_node api_node_n1) ≡ ("", none))
    × (get_node_internal_ip (v1_node api_node_n1) ≡ ("192.168.0.9", none))
    × (get_node_hostname (v1_node api_node_n1) ≡ ("n1", none))
get_node_address-node_example = get_node_address-node api_node_n1
