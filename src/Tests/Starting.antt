-- ===== src/Tests/Starting.antt =====
-- The theorems on the start of the process, its flags and its main file, applied to concrete
-- parameters.
use lbex.Prelude.{
  String, ◌≡◌, refl, ◌≢◌, inl, inr, true, false, Option, none, some, List, [], ◌∷◌, arith, ◌==◌,
  eq_iff, eq_refl, if◌then◌else◌,
}
use lbex.Prelude.Int.{pos, IsInt64}
use lbex.Prelude.Text.{replace_all, to_upper}
use lbex.Prelude.Dict.{Dict, get, put, get-put}
use lbex.K8s.{v1_service}
use lbex.Annotations.{get_int_annotation}
use lbex.Annotations.Laws.{get_int_annotation-IsInt64}
use lbex.Nginx.Context.{NginxMainConfig, new_default_http_context}
use lbex.Nginx.Control.{
  stream_cfg, stream_http_cfg, main_conf, World, NginxController, is_local, join_path, write_file,
  shell_out, start,
}
use lbex.Nginx.Main.{
  main_conf_filename, clean_dir, initial_main_config, default_contexts, with_health,
  update_main_config_file, new_nginx_controller,
}
use lbex.Nginx.Main.Laws.{IsCreated, new_nginx_controller_lem}
use lbex.Configurator.{State}
use lbex.Ingress.Publish.{new_configurator, update_main_config_http_context, updated}
use lbex.Ingress.Publish.MainContext.{IsUpdated, update_main_config_http_context_lem}
use lbex.Start.{new_lb_ex_controller}
use lbex.Start.Laws.{IsStarted, new_lb_ex_controller_lem}
use lbex.Controller.{LbExController}
use lbex.Controller.Reach.{Reach}
use lbex.Environment.{FlagSet, env_support, variable_name, env_parse}
use lbex.Environment.Laws.{env_parse-preferred}
use lbex.Tests.{os, client, cfg, web, world, marks, Marks}

get_int_annotation-IsInt64_example :
    IsInt64 (get_int_annotation "loadbalancer-port.lbex/http" (v1_service web)).0
get_int_annotation-IsInt64_example =
    get_int_annotation-IsInt64 "loadbalancer-port.lbex/http" (v1_service web)

abbrev ngxc_of : NginxController
ngxc_of = record {
  nginx_confd_path = "/etc/nginx/conf.d";
  nginx_certs_path = "/etc/nginx/ssl";
  cfg_type = stream_http_cfg;
  main_cfg =
      some (with_health true (pos 7331) (default_contexts stream_http_cfg initial_main_config));
}

abbrev main_world : World
main_world = record world { files = (main_conf_filename, main_conf ngxc_of.main_cfg) ∷ [] }

new_nginx_controller_lem_example :
    IsCreated stream_http_cfg "/etc/nginx/" true (pos 7331) world main_world ngxc_of
unfolding new_nginx_controller update_main_config_file write_file put is_local with_health
    default_contexts clean_dir join_path
new_nginx_controller_lem_example =
    new_nginx_controller_lem os stream_http_cfg "/etc/nginx/" true (pos 7331) world main_world
      ngxc_of refl refl

abbrev http_state : State
http_state = new_configurator ngxc_of main_world

abbrev updated_state : State
updated_state = (update_main_config_http_context os new_default_http_context http_state).1

update_main_config_http_context_lem_example :
    (◌≡◌ {A = Option String} none none)
    × (updated_state.config ≡ new_default_http_context)
    × (m' : NginxMainConfig) × (updated_state.ngxc.main_cfg ≡ some m')
    × (get main_conf_filename updated_state.world.files ≡ some (main_conf (some m')))
    × IsUpdated new_default_http_context
        (with_health true (pos 7331) (default_contexts stream_http_cfg initial_main_config))
        m'
unfolding update_main_config_http_context update_main_config_file write_file put is_local updated
update_main_config_http_context_lem_example =
    update_main_config_http_context_lem os new_default_http_context http_state updated_state none
      (with_health true (pos 7331) (default_contexts stream_http_cfg initial_main_config)) refl refl
      refl

abbrev started_world : World
started_world = record world {
  files =
      (
        main_conf_filename,
        main_conf
            (some (with_health true (pos 7331) (default_contexts stream_cfg initial_main_config))),
      )
      ∷ [];
  commands = "nginx" ∷ [];
}

abbrev started_controller : LbExController Marks
started_controller = record {
  cfgtor =
      new_configurator
        (record ngxc_of {
          cfg_type = stream_cfg;
          main_cfg =
              some (with_health true (pos 7331) (default_contexts stream_cfg initial_main_config));
        })
        started_world;
  endpoints_queue = (false, []);
  services_queue = (false, []);
  nodes_queue = (false, []);
}

new_lb_ex_controller_lem_example :
    Reach marks os client cfg started_world started_controller × IsStarted cfg world started_world
unfolding new_lb_ex_controller new_nginx_controller start shell_out update_main_config_file
    write_file put is_local with_health default_contexts clean_dir join_path
new_lb_ex_controller_lem_example =
    new_lb_ex_controller_lem marks os client (false, []) cfg world started_world started_controller
      refl

-- flags as a map of texts, of which the command line has set those in the first map
abbrev Flags : Type 0
Flags = List String × Dict String

abbrev text_of : Option String → String
text_of none = ""
text_of (some text) = text

set-other :
    (f : Flags) (name text other : String)
    → name ≢ other
    → text_of (get other (put name text f.1)) ≡ text_of (get other f.1)
set-other f name text other h = ground (arith, get-put name other text f.1, eq_iff name other)

set-parsed :
    (f : Flags) (name text v : String)
    → ◌≡◌ {A = Option String} (some text) (some v)
    → text_of (get name (put name text f.1)) ≡ v
set-parsed f name text v h = ground (arith, get-put name name text f.1, eq_refl name, h)

abbrev text_flags : FlagSet Flags String
text_flags = record {
  visit = λ f. f.0;
  visit_all = λ f. "kubeconfig" ∷ "service-name" ∷ [];
  set = λ f name text. ((f.0, put name text f.1), none);
  value = λ f name. text_of (get name f.1);
  parse = λ name text. some text;
  set-parsed = set-parsed;
  set-other = set-other;
}

abbrev getenv : String → String
getenv key = if key == "LBEX_SERVICE_NAME" then "shop/web" else ""

abbrev command_line : Flags
command_line = ("kubeconfig" ∷ [], ("kubeconfig", "/root/.kube/config") ∷ [])

env_parse-preferred_example :
    text_of (get "service-name" (env_parse text_flags getenv command_line).0.1) ≡ "shop/web"
unfolding env_support variable_name replace_all to_upper
env_parse-preferred_example =
    env_parse-preferred text_flags getenv command_line "service-name" "shop/web"
      (
        (λ e. elim e [
          | inl same ↦ ground (arith, same, eq_iff "kubeconfig" "service-name")
          | inr nowhere ↦ nowhere
        ]),
        ((λ e. e), tt),
      )
      (inr (inl refl)) refl
