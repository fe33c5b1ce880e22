-- ===== src/Tests/Sync.antt =====
-- The theorems on syncServices, applied to the cluster of lbex.Tests.
use lbex.Prelude.{
  String, ◌≡◌, refl, sym, ◌∙◌, ap, ◌≢◌, true, List, false, not, ◌&&◌, Option, none, some, [], ◌∷◌,
  ◌==◌, Elem, if◌then◌else◌,
}
use lbex.Prelude.Dict.{get}
use lbex.Outcome.{Outcome, done}
use lbex.K8s.{text, V1ServicePort}
use lbex.Config.{Config}
use lbex.Nginx.{StreamNginxConfig}
use lbex.Nginx.Control.{stream_conf, get_stream_config_file_name, is_local}
use lbex.Generate.Result.{IsConsistent}
use lbex.Publish.Laws.{IsPublished}
use lbex.Controller.{LbExController, Stores, conf_name, service_spec, sync_nodes, sync_services}
use lbex.Ingress.Publish.{new_configurator}
use lbex.Controller.Reach.{Reach}
use lbex.Service.{Endpoint}
use lbex.Topology.{get_endpoints}
use lbex.Controller.Served.{IsServed}
use lbex.Controller.Names.{conf_name-ne, conf_name-collides}
use lbex.Controller.Services.{
  sync_services-managed, sync_services-serves, sync_services-unmanaged, sync_services-gone,
  sync_services-leaks,
}
use lbex.Tests.{rt, client, os, cfg, web, stores, no_items, ngxc, world, state, marks, Marks, ctl}
use lbex.Tests.Topo.{web_entry, web_topo, web-IsManaged}
use lbex.Tests.Generated.{os-IsWritable, streams}

abbrev synced : LbExController Marks
synced = (sync_services marks rt os client cfg stores (text "shop/web") ctl).1

web_synced : sync_services marks rt os client cfg stores (text "shop/web") ctl ≡ (done none, synced)
web_synced =
    let (ctl', ended, published, same) =
      sync_services-managed marks rt os client cfg stores "shop/web" ctl web web_entry [] refl
        web-IsManaged web_topo streams os-IsWritable in
    ended
    ∙ ap (λ k. (done none, k))
        (ap (λ (r : Outcome (Option String) × LbExController Marks). r.1) (sym ended))

sync_services-managed_example :
    (ctl' : LbExController Marks) × (sync_services marks rt os client cfg stores
        (text "shop/web")
        ctl
      ≡ (done none, ctl'))
    × IsPublished rt os (service_spec "shop/web" web (web_entry ∷ [])) state ctl'.cfgtor
    × (ctl'.services_queue ≡ ctl.services_queue)
sync_services-managed_example =
    sync_services-managed marks rt os client cfg stores "shop/web" ctl web web_entry [] refl
      web-IsManaged web_topo streams os-IsWritable

sync_services-serves_example :
    (ctl' : LbExController Marks) × (sync_services marks rt os client cfg stores
        (text "shop/web")
        ctl
      ≡ (done none, ctl'))
    × (ctl'.services_queue ≡ ctl.services_queue)
    × (config : StreamNginxConfig) × (get
          (get_stream_config_file_name ngxc (conf_name "shop/web"))
          ctl'.cfgtor.world.files
        ≡ some (stream_conf config))
    × IsConsistent (service_spec "shop/web" web (web_entry ∷ [])) config
    × ((p : V1ServicePort) (e : Endpoint) (es : List Endpoint)
        → Elem p web.ports
        → get_endpoints client stores.endpoint_store web p ≡ done (e ∷ es)
        → IsServed ctl.cfgtor.nodes web (e ∷ es) config)
sync_services-serves_example =
    sync_services-serves marks rt os client cfg stores "shop/web" ctl web web_entry [] refl
      web-IsManaged web_topo streams os-IsWritable

abbrev off : Config
off = record cfg { require_port = false }

sync_services-unmanaged_example :
    sync_services marks rt os client off stores (text "shop/web") ctl ≡ (done none, ctl)
sync_services-unmanaged_example =
    sync_services-unmanaged marks rt os client off stores "shop/web" ctl web refl
      (λ managed. no_port managed.selected.required)
  where
    no_port : off.require_port ≢ true
    no_port h = cc

abbrev emptied : Stores
emptied = record stores { services_store = no_items }

sync_services-gone_example :
    (ctl' : LbExController Marks) × (sync_services marks rt os client cfg emptied
        (text "shop/web")
        ctl
      ≡ (done none, ctl'))
    × ((file : String)
        → get file ctl'.cfgtor.world.files ≡ (
            if (get_stream_config_file_name ngxc (conf_name "shop/web") == file)
              && (not (is_local ngxc.cfg_type) && os.can_remove state.world file)
            then none
            else get file state.world.files))
sync_services-gone_example =
    sync_services-gone marks rt os client cfg emptied "shop/web" ctl refl refl

sync_services-leaks_example :
    let ctl' = (sync_services marks rt os client cfg emptied (text "shop/web") ctl).1 in
    (get "shop/web" ctl'.cfgtor.service_upstream_nodes
      ≡ get "shop/web" state.service_upstream_nodes)
    × (get "shop/web" ctl'.cfgtor.service_upstream_target
        ≡ get "shop/web" state.service_upstream_target)
sync_services-leaks_example =
    sync_services-leaks marks rt os client cfg emptied "shop" "web" ctl refl refl

conf_name-collides_example : conf_name "a-b/c" ≡ conf_name "a/b-c"
conf_name-collides_example = conf_name-collides "a" "b" "c"

conf_name-ne_example : conf_name "shop/web" ≢ "shop/web"
conf_name-ne_example = conf_name-ne "shop" "web"

-- the controller as it starts, and after a node and then a service are synced
abbrev started : LbExController Marks
started = record ctl { cfgtor = new_configurator ngxc world }

abbrev node_synced : LbExController Marks
node_synced = (sync_nodes marks rt os client cfg stores (text "n1") started).1

abbrev both_synced : LbExController Marks
both_synced = (sync_services marks rt os client cfg stores (text "shop/web") node_synced).1
