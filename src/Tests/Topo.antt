-- ===== src/Tests/Topo.antt =====
-- The theorems on the topology of a service, applied to the cluster of lbex.Tests.
use lbex.Prelude.{String, ◌≡◌, refl, inl, true, false, [], ◌∷◌, Elem}
use lbex.Prelude.Int.{pos}
use lbex.Prelude.Text.{equal_fold}
use lbex.Prelude.Dict.{get}
use lbex.Outcome.{done}
use lbex.K8s.{v1_service, V1Service}
use lbex.Annotations.{get_int_annotation, is_valid}
use lbex.Service.{Service, Endpoint, validate_service_object}
use lbex.Selection.{base_check, check_affinity}
use lbex.Selection.Laws.{base_check-service}
use lbex.Topology.{get_service_network_topo, get_endpoints}
use lbex.Topology.Managed.{FromPort, IsTarget}
use lbex.Topology.Result.{IsManaged, host_of, topo_sound, topo_complete, topo_require_port_off}
use lbex.Tests.{rt, client, cfg, http, web, stores}

abbrev pub endpoint_at : String → String → Endpoint
endpoint_at ip node = record {
  service_port = pos 80;
  node_ip = "";
  node_name = node;
  node_port = pos 30080;
  port_name = "http";
  pod_ip = ip;
  pod_port = pos 8000;
  protocol = "TCP";
}

abbrev pub e1 : Endpoint
e1 = endpoint_at "10.1.0.1" "n1"

abbrev pub e2 : Endpoint
e2 = endpoint_at "10.1.0.2" "n2"

abbrev pub web_entry : Service
web_entry = record {
  name = "web";
  ep = [];
  endpoints = e1 ∷ e2 ∷ [];
  backend_port = pos 8000;
  frontend_port = pos 80;
  host = "";
  algorithm = "";
}

pub web_endpoints_of : get_endpoints client stores.endpoint_store web http ≡ done (e1 ∷ e2 ∷ [])
unfolding get_endpoints
web_endpoints_of = refl

pub web_topo :
    get_service_network_topo rt client cfg stores.services_store stores.endpoint_store "shop/web"
    ≡ done (web_entry ∷ [])
unfolding get_service_network_topo base_check validate_service_object equal_fold is_valid
    get_int_annotation check_affinity
web_topo = refl

web_selected : base_check cfg (v1_service web) ≡ true
unfolding base_check validate_service_object equal_fold is_valid get_int_annotation
web_selected = refl

web_in_pool : check_affinity cfg "" ≡ true
unfolding check_affinity
web_in_pool = refl

pub web-IsManaged : IsManaged cfg stores.services_store "shop/web" web
unfolding get
web-IsManaged = record {
  held = refl;
  selected = (base_check-service cfg web).0 web_selected;
  named = inl refl;
  in_pool = web_in_pool;
}

topo_sound_example :
    (s : V1Service) × IsManaged cfg stores.services_store "shop/web" s
    × FromPort client stores.endpoint_store s (host_of s) s.ports web_entry
topo_sound_example =
    topo_sound rt client cfg stores.endpoint_store stores.services_store "shop/web" (web_entry ∷ [])
      web_entry web_topo (inl refl)

topo_complete_example :
    (t : Service) × Elem t (web_entry ∷ [])
    × IsTarget client stores.endpoint_store web (host_of web) http t
topo_complete_example =
    topo_complete rt client cfg stores.endpoint_store stores.services_store "shop/web" web
      (web_entry ∷ []) http e1 (e2 ∷ []) web-IsManaged web_topo (inl refl) web_endpoints_of

topo_require_port_off_example :
    get_service_network_topo rt client
      (record cfg { require_port = false })
      stores.services_store
      stores.endpoint_store
      "shop/web"
    ≡ done []
topo_require_port_off_example =
    topo_require_port_off rt client (record cfg { require_port = false }) stores.endpoint_store
      stores.services_store "shop/web" refl
