-- ===== src/Tests.antt =====
-- A small cluster to run the development on: a service `shop/web` with one port and two endpoints,
-- one on each of two nodes, and concrete functions for every parameter.
pub mod Parts
pub mod Topo
pub mod Cache
pub mod Generated
pub mod Sync
pub mod Ingresses
pub mod Starting
use mathlib.Core.List.{Permᴰ}
use mathlib.Core.List.Permᴰ
use lbex.Prelude.{
  String, ◌≡◌, refl, sym, subst, ◌∙◌, ap, ◌↔◌, ◌≢◌, ◌⊎◌, inl, inr, Bool, true, false, Option, none,
  some, List, [], ◌∷◌, ◌==◌, Elem, if◌then◌else◌,
}
use Prim.Native.String.{◌++◌ as ◌⧺◌}
use lbex.Prelude.Int.{ℤ, pos}
use lbex.Prelude.Text.{atoi}
use lbex.Runtime.{Runtime}
use lbex.Client.{Client, Store, found, absent}
use lbex.Config.{Config, new_config}
use lbex.K8s.{
  V1Service, V1ServicePort, V1Endpoints, V1Node, Object, v1_service, v1_endpoints, v1_node, text,
  IntOrString, int, string, hostname, external_ip, internal_ip,
}
use lbex.Annotations.{lbex_class_key, lbex_class_key_value}
use lbex.Nginx.{Node, Target}
use lbex.Nginx.Context.{new_default_http_context}
use lbex.Nginx.Control.{World, Os, NginxController, stream_cfg}
use lbex.Configurator.{State}
use lbex.Queue.{WorkQueue}
use lbex.Controller.{LbExController, Stores}

-- maps are visited in the order of their entries, and equal items stay where they are
abbrev pub rt : Runtime
rt = record {
  visit = λ V n m. m;
  visit-perm = λ V n m. Permᴰ.refl m;
  sort = λ A less xs. xs;
  sort-perm = λ A less xs. Permᴰ.refl xs;
}

abbrev number_or_0 : Option ℤ → ℤ
number_or_0 none = pos 0
number_or_0 (some i) = i

abbrev int_value : IntOrString → ℤ
int_value t = elim t.type [ int ↦ t.int_val | string ↦ number_or_0 (atoi t.str_val) ]

abbrev key_func : Object → String × Option String
key_func (v1_service s) = (s.namespace ⧺ "/" ⧺ s.name, none)
key_func (v1_endpoints e) = (e.namespace ⧺ "/" ⧺ e.name, none)
key_func (v1_node n) = (n.name, none)
key_func (text key) = (key, none)
key_func _ = ("", some "object has no meta")

abbrev int_value-int : (t : IntOrString) → t.type ≡ int → int_value t ≡ t.int_val
int_value-int t h = rw h

abbrev pub client : Client
client = record { int_value = int_value; int_value-int = int_value-int; key_func = key_func }

abbrev pub os : Os
os = record {
  can_parse = λ w file. true;
  can_create = λ w file. true;
  can_execute = λ w file. true;
  can_write = λ w file. true;
  can_make_dir = λ w dir. true;
  can_remove = λ w file. true;
  shell_error = λ w cmd. none;
}

abbrev pub cfg : Config
cfg = new_config

abbrev pub http : V1ServicePort
http = record {
  name = "http";
  protocol = "TCP";
  port = pos 80;
  target_port = record { type = int; int_val = pos 8000; str_val = "" };
  node_port = pos 30080;
}

abbrev pub web : V1Service
web = record {
  name = "web";
  namespace = "shop";
  annotations =
      (lbex_class_key, lbex_class_key_value) ∷ ("loadbalancer-port.lbex/http", "8080") ∷ [];
  service_type = "NodePort";
  cluster_ip = "10.0.0.1";
  ports = http ∷ [];
}

abbrev pub web_endpoints : V1Endpoints
web_endpoints = record {
  name = "web";
  namespace = "shop";
  subsets =
      record {
        addresses =
            record { ip = "10.1.0.1"; node_name = some "n1" }
            ∷ record { ip = "10.1.0.2"; node_name = some "n2" }
            ∷ [];
        ports = record { name = "http"; port = pos 8000; protocol = "TCP" } ∷ [];
      }
      ∷ [];
}

abbrev pub api_node_n1 : V1Node
api_node_n1 = record {
  name = "n1";
  namespace = "";
  pod_cidr = "10.1.0.0/24";
  unschedulable = false;
  addresses =
      record { type = internal_ip; address = "192.168.0.9" }
      ∷ record { type = hostname; address = "n1" }
      ∷ [];
}

abbrev pub node_named : String → String → Node
node_named name ip = record {
  name = name;
  hostname = name;
  external_ip = "";
  internal_ip = ip;
  active = true;
}

abbrev pub n1 : Node
n1 = node_named "n1" "192.168.0.1"

abbrev pub n2 : Node
n2 = node_named "n2" "192.168.0.2"

abbrev pub one_item : String → Object → Store
one_item key obj = record {
  get_by_key = λ k. if k == key then found obj else absent;
  list = obj ∷ [];
}

abbrev pub no_items : Store
no_items = record { get_by_key = λ k. absent; list = [] }

abbrev pub stores : Stores
stores = record {
  endpoint_store = one_item "shop/web" (v1_endpoints web_endpoints);
  services_store = one_item "shop/web" (v1_service web);
  nodes_store = one_item "n1" (v1_node api_node_n1);
}

abbrev pub ngxc : NginxController
ngxc = record {
  nginx_confd_path = "/etc/nginx/conf.d";
  nginx_certs_path = "/etc/nginx/ssl";
  cfg_type = stream_cfg;
  main_cfg = none;
}

abbrev pub world : World
world = record { files = []; directories = []; commands = [] }

-- the cache has both nodes, and the service is recorded with n1
abbrev pub state : State
state = record {
  nodes = ("n1", n1) ∷ ("n2", n2) ∷ [];
  service_upstream_nodes = ("shop/web", n1 ∷ []) ∷ [];
  service_upstream_target = [];
  ngxc = ngxc;
  config = new_default_http_context;
  world = world;
}

-- the items marked, and whether the queue is shut down
abbrev pub Marks : Type 0
Marks = Bool × List String

abbrev add : String → Marks → Marks
add key (true, items) = (true, items)
add key (false, items) = (false, key ∷ items)

pub true-false : true ≢ false
true-false e = cc

abbrev add-pending :
    (key : String) (q : Marks)
    → q.0 ≡ false
    → (j : String) → Elem j (add key q).1 ↔ ((j ≡ key) ⊎ Elem j q.1)
add-pending key (true, items) e j = absurd (true-false e)
add-pending key (false, items) e j = (λ h. h, λ h. h)

abbrev add-ignored : (key : String) (q : Marks) → q.0 ≡ true → add key q ≡ q
add-ignored key (true, items) e = refl
add-ignored key (false, items) e = absurd (true-false (sym e))

abbrev add-shutting_down : (key : String) (q : Marks) → (add key q).0 ≡ q.0
add-shutting_down key (true, items) = refl
add-shutting_down key (false, items) = refl

abbrev pub marks : WorkQueue Marks
marks = record {
  add = add;
  finish = λ key q. q;
  shutting_down = λ q. q.0;
  pending = λ q. q.1;
  add-pending = add-pending;
  add-ignored = add-ignored;
  add-shutting_down = add-shutting_down;
  finish-pending = λ key q j h. h;
}

abbrev pub ctl : LbExController Marks
ctl = record {
  cfgtor = state;
  endpoints_queue = (false, []);
  services_queue = (false, []);
  nodes_queue = (false, []);
}
