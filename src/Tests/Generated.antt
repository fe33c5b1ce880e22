-- ===== src/Tests/Generated.antt =====
-- The theorems on the generated configuration and its files, applied to the cluster of lbex.Tests.
use lbex.Prelude.{
  ◌↔◌, String, ◌≡◌, refl, sym, subst, ◌⊎◌, inl, inr, true, false, not, ◌&&◌, Option, none, some, [],
  ◌∷◌, ◌==◌, Elem, if◌then◌else◌,
}
use lbex.Prelude.Text.{equal_fold, itoa}
use lbex.Prelude.Dict.{get, put}
use lbex.Outcome.{done}
use lbex.Annotations.{
  get_int_annotation, get_optional_string_annotation, get_optional_bool_annotation,
}
use lbex.Nginx.Options.{validate_node_set, validate_node_address_type}
use lbex.Nginx.{Target, ServiceSpec, StreamUpstream, StreamServer, StreamNginxConfig}
use lbex.Nginx.Control.{stream_cfg, get_stream_config_file_name, is_local}
use lbex.Configurator.{State}
use lbex.Streams.{server_at, get_name_for_stream_upstream}
use lbex.Generate.{generate_stream_nginx_config}
use lbex.Generate.Upstreams.{upstream_name}
use lbex.Generate.Servers.{plain}
use lbex.Nginx.{StreamUpstreamServer}
use lbex.Generate.Gather.{ReachesSome}
use lbex.Generate.Result.{
  IsConsistent, Serves, generate-IsConsistent, generate-covers, generate-upstreams,
  generate-servers,
}
use lbex.Generate.Unnamed.{generate_unnamed}
use lbex.Generate.Frame.{IsFramed, generate-IsFramed}
use lbex.Publish.{has_stream, add_or_update_service, delete_configuration}
use lbex.Publish.Laws.{
  IsPublished, IsWritable, add_or_update_service-IsPublished, add_or_update_service-ends,
  delete_configuration_lem,
}
use lbex.Controller.{target_of}
use lbex.Tests.{rt, os, web, state}
use lbex.Tests.Topo.{e1, e2}

abbrev web_spec : ServiceSpec
web_spec = record {
  service = web;
  key = "shop/web";
  algorithm = "round_robin";
  cluster_ip = "10.0.0.1";
  config_name = "shop-web";
  upstream_type = "node";
  topology = target_of e1 ∷ target_of e2 ∷ [];
}

abbrev web_upstream : StreamUpstream
web_upstream = record {
  name = "shop-web-http";
  algorithm = "";
  least_time_method = "";
  upstream_servers = server_at "192.168.0.1:30080" ∷ server_at "192.168.0.2:30080" ∷ [];
}

abbrev web_server : StreamServer
web_server = record {
  listen = record { address = ""; port = "8080"; udp = false };
  proxy_protocol = false;
  proxy_passthrough = false;
  proxy_protocol_timeout = "";
  proxy_pass_address = "shop-web-http";
}

web_config :
    (generate_stream_nginx_config rt web_spec state).0
    ≡ record { resolver = ""; upstreams = web_upstream ∷ []; servers = web_server ∷ [] }
unfolding generate_stream_nginx_config get_optional_string_annotation get put
    get_name_for_stream_upstream validate_node_set get_int_annotation validate_node_address_type
    itoa equal_fold get_optional_bool_annotation
web_config = refl

web_upstream_there : Elem web_upstream (generate_stream_nginx_config rt web_spec state).0.upstreams
web_upstream_there =
    subst (λ (c : StreamNginxConfig). Elem web_upstream c.upstreams) (sym web_config) (inl refl)

web_server_there : Elem web_server (generate_stream_nginx_config rt web_spec state).0.servers
web_server_there =
    subst (λ (c : StreamNginxConfig). Elem web_server c.servers) (sym web_config) (inl refl)

generate-IsConsistent_example :
    IsConsistent web_spec (generate_stream_nginx_config rt web_spec state).0
generate-IsConsistent_example = generate-IsConsistent rt web_spec state

generate-covers_example :
    (u : StreamUpstream) × Elem u (generate_stream_nginx_config rt web_spec state).0.upstreams
    × (u.name ≡ upstream_name web_spec (target_of e2))
generate-covers_example = generate-covers rt web_spec state (target_of e2) (inr (inl refl))

generate-upstreams_example :
    ((t : Target) × Elem t web_spec.topology × (upstream_name web_spec t ≡ web_upstream.name))
    × ((server : StreamUpstreamServer)
        → Elem server web_upstream.upstream_servers ↔ (
            (address : String) × ReachesSome web_spec state web_upstream.name web_spec.topology
              address
            × (server ≡ plain address)))
generate-upstreams_example = generate-upstreams rt web_spec state web_upstream web_upstream_there

generate-servers_example :
    (t : Target) × Elem t web_spec.topology × Serves rt web_spec state web_server t
generate-servers_example = generate-servers rt web_spec state web_server web_server_there

generate-IsFramed_example :
    IsFramed "shop/web" state (generate_stream_nginx_config rt web_spec state).1
generate-IsFramed_example = generate-IsFramed rt web_spec state

abbrev unnamed_spec : ServiceSpec
unnamed_spec = record web_spec {
  service = record web { annotations = ("loadbalancer-port.lbex/unnamed", "8080") ∷ [] };
  topology = record (target_of e1) { port_name = "" } ∷ [];
}

nothing_after_slash : get "loadbalancer-port.lbex/" unnamed_spec.service.annotations ≡ none
unfolding get
nothing_after_slash = refl

generate_unnamed_example : (generate_stream_nginx_config rt unnamed_spec state).0.servers ≡ []
generate_unnamed_example = generate_unnamed rt unnamed_spec state (refl, tt) nothing_after_slash

pub os-IsWritable : IsWritable os
os-IsWritable = record {
  parses = λ w file. refl;
  creates = λ w file. refl;
  executes = λ w file. refl;
}

pub streams : has_stream state.ngxc.cfg_type ≡ true
unfolding has_stream
streams = refl

add_or_update_service-ends_example :
    ((has_stream state.ngxc.cfg_type ≡ true)
      × ((st' : State) × (add_or_update_service os rt web_spec state ≡ (done none, st'))))
    ⊎ ((has_stream state.ngxc.cfg_type ≡ false)
        × ((err : String) × (add_or_update_service os rt web_spec state
              ≡ (done (some err), state))))
add_or_update_service-ends_example = add_or_update_service-ends rt os web_spec state os-IsWritable

abbrev web_published : State
web_published = (add_or_update_service os rt web_spec state).1

web_publishing : add_or_update_service os rt web_spec state ≡ (done none, web_published)
unfolding add_or_update_service
web_publishing = refl

abbrev no_error : Option String
no_error = none

add_or_update_service-IsPublished_example :
    (no_error ≡ none) × IsPublished rt os web_spec state web_published
add_or_update_service-IsPublished_example =
    add_or_update_service-IsPublished rt os web_spec state web_published no_error streams
      web_publishing

delete_configuration_lem_example :
    ((file : String)
      → get file (delete_configuration os "shop-web" stream_cfg web_published).world.files ≡ (
          if (get_stream_config_file_name web_published.ngxc "shop-web" == file)
            && (not (is_local web_published.ngxc.cfg_type)
                && os.can_remove web_published.world file)
          then none
          else get file web_published.world.files))
    × ((key : String)
        → get key
            (delete_configuration os "shop-web" stream_cfg web_published).service_upstream_nodes
          ≡ (if "shop-web" == key then none else get key web_published.service_upstream_nodes))
    × ((key : String)
        → get key
            (delete_configuration os "shop-web" stream_cfg web_published).service_upstream_target
          ≡ (if "shop-web" == key then none else get key web_published.service_upstream_target))
    × ((delete_configuration os "shop-web" stream_cfg web_published).nodes ≡ web_published.nodes)
delete_configuration_lem_example = delete_configuration_lem os "shop-web" web_published
