-- ===== src/Ingress/Publish.antt =====
-- nginx/configurator.go: AddOrUpdateIngress, UpdateIngressEndpoints, updateCertificates,
-- AddOrUpdateDHParam, UpdateMainConfigHTTPContext and NewConfigurator.
pub mod Certificates
pub mod Laws
pub mod Ends
pub mod MainContext
use lbex.Prelude.{String, Bool, true, false, not, Option, none, some, List, [], ◌∷◌, if◌then◌else◌}
use Prim.Native.String.{◌++◌ as ◌⧺◌}
use lbex.Prelude.Dict.{Dict, get, put}
use lbex.Prelude.Int.{pos}
use lbex.Outcome.{Outcome, done, halt, nil_dereference}
use lbex.Runtime.{Runtime}
use lbex.K8s.{IntOrString}
use lbex.Nginx.Context.{HttpContext, NginxMainHttpConfig, new_default_http_context}
use lbex.Nginx.Http.{HttpNginxConfig}
use lbex.Nginx.Control.{
  Configuration, http_cfg, stream_http_cfg, World, Os, NginxController, Act, ◌>>=◌, pure, reload,
}
use lbex.Nginx.Files.{
  add_or_update_http_configuration, add_or_update_cert_and_key, add_or_update_dh_param,
}
use lbex.Nginx.Main.{update_main_config_file}
use lbex.Configurator.{State}
use lbex.Ingress.{IngressTls, Ingress, IngressEx}
use lbex.Ingress.Upstream.{empty_host}
use lbex.Ingress.Generate.{generate_nginx_ingress_cfg}

-- `cfgType == HTTPCfg || cfgType == StreamHTTPCfg`, which the operations on ingresses ask for
unfoldable pub has_http : Configuration → Bool
has_http http_cfg = true
has_http stream_http_cfg = true
has_http _ = false

abbrev pub tls_cert_key : String
tls_cert_key = "tls.crt"

abbrev pub tls_private_key_key : String
tls_private_key_key = "tls.key"

-- the loop over tls.Hosts
unfoldable pub put_hosts : List String → String → Dict String → Dict String
unfolding put
put_hosts [] pem_file_name pems = pems
put_hosts (host ∷ hosts) pem_file_name pems =
    put_hosts hosts pem_file_name (put host pem_file_name pems)

unfoldable pub put_tls_hosts : List String → String → Dict String → Dict String
unfolding put_hosts put
put_tls_hosts [] pem_file_name pems = put empty_host pem_file_name pems
put_tls_hosts (host ∷ hosts) pem_file_name pems = put_hosts (host ∷ hosts) pem_file_name pems

-- the certificate and the key of a secret, where all are there; the secret is dereferenced
unfoldable pub cert_and_key : IngressEx → String → Outcome (Option (String × String))
unfolding get
cert_and_key ex secret_name = elim (get secret_name ex.secrets) [
  | none ↦ done none
  | some pointer ↦ elim pointer [
    | none ↦ halt nil_dereference
    | some secret ↦ elim (get tls_cert_key secret.secret_data) [
      | none ↦ done none
      | some cert ↦ elim (get tls_private_key_key secret.secret_data) [
        | none ↦ done none
        | some key ↦ done (some (cert, key))
      ]
    ]
  ]
]

-- NewConfigurator, with the package's maps as their declarations leave them
abbrev pub new_configurator : NginxController → World → State
new_configurator ngxc world = record {
  nodes = [];
  service_upstream_nodes = [];
  service_upstream_target = [];
  ngxc = ngxc;
  config = new_default_http_context;
  world = world;
}

-- the literal in UpdateMainConfigHTTPContext; the fields that it leaves out hold Go's zero value
unfoldable pub main_http_config : HttpContext → NginxMainHttpConfig
main_http_config config = record {
  server_names_hash_bucket_size = config.main_server_names_hash_bucket_size;
  server_names_hash_max_size = config.main_server_names_hash_max_size;
  log_format = config.main_log_format;
  health_status = false;
  health_port = pos 0;
  http_snippets = config.main_http_snippets;
  ssl_protocols = config.main_server_ssl_protocols;
  ssl_prefer_server_ciphers = config.main_server_ssl_prefer_server_ciphers;
  ssl_ciphers = config.main_server_ssl_ciphers;
  ssl_dh_param = config.main_server_ssl_dh_param;
}

module _ (os : Os) where
  -- updateCertificates
  unfoldable pub update_certificates :
      NginxController → IngressEx → List IngressTls → Dict String → Act (Dict String)
  unfolding cert_and_key add_or_update_cert_and_key put_tls_hosts
  update_certificates ngxc ex [] pems = pure pems
  update_certificates ngxc ex (tls ∷ rest) pems = elim (cert_and_key ex tls.secret_name) [
    | halt stop ↦ λ w. (halt stop, w)
    | done usable ↦ elim usable [
      | none ↦ update_certificates ngxc ex rest pems
      | some (cert, key) ↦
          add_or_update_cert_and_key os ngxc (ex.ingress.namespace ⧺ "-" ⧺ tls.secret_name) cert key
          >>= λ pem_file_name.
              update_certificates ngxc ex rest (put_tls_hosts tls.hosts pem_file_name pems)
    ]
  ]

  abbrev pub outcome : {A : Type 0} → Outcome A → Act A
  outcome r w = (r, w)

  -- AddOrUpdateIngress; an error of the reload is only logged
  unfoldable pub add_or_update_ingress :
      Runtime
      → (IntOrString → String)
      → String
      → IngressEx
      → State
      → Outcome (Option String) × State
  unfolding has_http update_certificates generate_nginx_ingress_cfg add_or_update_http_configuration
      reload
  add_or_update_ingress rt port_string name ex st =
      let publish : Act (Option String) =
        update_certificates st.ngxc ex ex.ingress.tls [] >>= λ pems.
        outcome (generate_nginx_ingress_cfg rt port_string st.config ex pems) >>= λ nginx_cfg.
        add_or_update_http_configuration os st.ngxc name nginx_cfg >>= λ written.
        λ w. (done none, (reload os st.ngxc w).1) in
      if not (has_http st.ngxc.cfg_type)
      then (done (some "addOrUpdateIngress: I'm sorry Dave, I'm afraid I can't do that"), st)
      else let (r, w) = publish st.world in (r, record st { world = w })

  -- UpdateIngressEndpoints; the error of AddOrUpdateIngress is dropped
  unfoldable pub update_ingress_endpoints :
      Runtime
      → (IntOrString → String)
      → String
      → IngressEx
      → State
      → Outcome (Option String) × State
  unfolding has_http add_or_update_ingress
  update_ingress_endpoints rt port_string name ex st =
      if not (has_http st.ngxc.cfg_type)
      then (done (some "updateIngressEndpoints: I'm sorry Dave, I'm afraid I can't do that"), st)
      else let (r, st') = add_or_update_ingress rt port_string name ex st in
        (elim r [ done dropped ↦ done none | halt stop ↦ halt stop ], st')

  -- Configurator.AddOrUpdateDHParam
  unfoldable pub configurator_dh_param : String → State → (String × Option String) × State
  unfolding has_http add_or_update_dh_param
  configurator_dh_param content st =
      if not (has_http st.ngxc.cfg_type)
      then (("", some "addOrUpdateDHParam: I'm sorry Dave, I'm afraid I can't do that"), st)
      else let (r, w) = add_or_update_dh_param os st.ngxc content st.world in
        (r, record st { world = w })

  -- the end of UpdateMainConfigHTTPContext, once the main file is written
  unfoldable pub updated : State → Outcome {0} Unit × World → Outcome (Option String) × State
  updated st (done written, w) = (done none, record st { world = w })
  updated st (halt stop, w) = (halt stop, record st { world = w })

  -- UpdateMainConfigHTTPContext; its error is always nil
  unfoldable pub update_main_config_http_context :
      HttpContext → State → Outcome (Option String) × State
  unfolding main_http_config update_main_config_file updated
  update_main_config_http_context config st = elim st.ngxc.main_cfg [
    | none ↦ (halt nil_dereference, record st { config = config })
    | some main_cfg ↦
        let ngxc = record st.ngxc {
          main_cfg = some (record main_cfg { http_context = main_http_config config });
        } in
        updated (record st { config = config; ngxc = ngxc })
          (update_main_config_file os ngxc st.world)
  ]
