-- ===== src/Ingress/Publish/MainContext.antt =====
-- What UpdateMainConfigHTTPContext of nginx/configurator.go leaves in the main file.
use lbex.Prelude.{String, false, ◌≡◌, refl, sym, ◌∙◌, ap, Option, none, some}
use lbex.Prelude.Int.{pos}
use lbex.Prelude.Dict.{get, get-put}
use lbex.Outcome.{Outcome, done, halt, nil_dereference, done-injective}
use lbex.Nginx.Context.{HttpContext, NginxMainConfig}
use lbex.Nginx.Control.{main_conf, World, Os, NginxController, is_local}
use lbex.Nginx.Main.{main_conf_filename, update_main_config_file}
use lbex.Nginx.Main.Laws.{update_main_config_file_lem}
use lbex.Configurator.{State}
use lbex.Ingress.Publish.{main_http_config, updated, update_main_config_http_context}

-- The main configuration after an update with a context, from the one before: each field of the HTTP
-- context as the context has it, but for the health settings, and everything outside as it was.
pub record IsUpdated (config : HttpContext) (m m' : NginxMainConfig) : Type 0 where
  pub outside : (record m { http_context = m'.http_context }) ≡ m'
  pub hash_bucket_size :
      m'.http_context.server_names_hash_bucket_size ≡ config.main_server_names_hash_bucket_size
  pub hash_max_size :
      m'.http_context.server_names_hash_max_size ≡ config.main_server_names_hash_max_size
  pub protocols : m'.http_context.ssl_protocols ≡ config.main_server_ssl_protocols
  pub prefer_ciphers :
      m'.http_context.ssl_prefer_server_ciphers ≡ config.main_server_ssl_prefer_server_ciphers
  pub log_format : m'.http_context.log_format ≡ config.main_log_format
  pub snippets : m'.http_context.http_snippets ≡ config.main_http_snippets
  pub ciphers : m'.http_context.ssl_ciphers ≡ config.main_server_ssl_ciphers
  pub dh_param : m'.http_context.ssl_dh_param ≡ config.main_server_ssl_dh_param
  pub status : m'.http_context.health_status ≡ false
  pub port : m'.http_context.health_port ≡ pos 0

-- When UpdateMainConfigHTTPContext ends, in a controller that is not local, it reports no error, the
-- Configurator has the new context, and the main file holds a main configuration with it, whose
-- health status is off and whose health port is 0, whatever they were before.
pub update_main_config_http_context_lem :
    (os : Os) (config : HttpContext) (st st' : State) (err : Option String) (m : NginxMainConfig)
    → is_local st.ngxc.cfg_type ≡ false
    → st.ngxc.main_cfg ≡ some m
    → update_main_config_http_context os config st ≡ (done err, st')
    → (err ≡ none)
      × (st'.config ≡ config)
      × (m' : NginxMainConfig) × (st'.ngxc.main_cfg ≡ some m')
      × (get main_conf_filename st'.world.files ≡ some (main_conf (some m')))
      × IsUpdated config m m'
unfolding update_main_config_http_context updated main_http_config
update_main_config_http_context_lem os config st st' err m remote has_main h =
    by_result (update_main_config_file os after st.world) refl (if_main ∙ h)
  where
    after_main : NginxMainConfig
    after_main = record m { http_context = main_http_config config }

    after : NginxController
    after = record st.ngxc { main_cfg = some after_main }

    if_main :
        updated os
          (record st { config = config; ngxc = after })
          (update_main_config_file os after st.world)
        ≡ update_main_config_http_context os config st
    if_main = rw (update_main_config_http_context, has_main) refl

    by_result :
        (r : Outcome {0} Unit × World)
        → update_main_config_file os after st.world ≡ r
        → updated os (record st { config = config; ngxc = after }) r ≡ (done err, st')
        → (err ≡ none)
          × (st'.config ≡ config)
          × (m' : NginxMainConfig) × (st'.ngxc.main_cfg ≡ some m')
          × (get main_conf_filename st'.world.files ≡ some (main_conf (some m')))
          × IsUpdated config m m'
    by_result (done u, w) e f =
        let same = ap (λ r. r.1) f in
        (
          sym (done-injective (ap (λ r. r.0) f)),
          sym (ap (λ (s : State). s.config) same),
          after_main,
          sym (ap (λ (s : State). s.ngxc.main_cfg) same),
          ap (λ (s : State). get main_conf_filename s.world.files) (sym same)
              ∙ (ap (λ (v : World). get main_conf_filename v.files)
                    (sym (update_main_config_file_lem os after st.world w remote e))
                  ∙ get-put main_conf_filename main_conf_filename (main_conf (some after_main))
                      st.world.files),
          record {
            outside = refl;
            hash_bucket_size = refl;
            hash_max_size = refl;
            protocols = refl;
            prefer_ciphers = refl;
            log_format = refl;
            snippets = refl;
            ciphers = refl;
            dh_param = refl;
            status = refl;
            port = refl;
          },
        )
    by_result (halt stop, w) e f = cc

-- In a controller without a main configuration, as every local one is, the call panics.
pub update_main_config_http_context-panics :
    (os : Os) (config : HttpContext) (st : State)
    → st.ngxc.main_cfg ≡ none
    → (update_main_config_http_context os config st).0 ≡ halt nil_dereference
unfolding update_main_config_http_context
update_main_config_http_context-panics os config st h = rw (update_main_config_http_context, h) refl
