-- ===== src/Ingress/Publish/Laws.antt =====
-- What AddOrUpdateIngress of nginx/configurator.go leaves in the files.
use lbex.Prelude.{
  String, true, false, ◌≡◌, refl, sym, ◌∙◌, ap, subst, ◌⊎◌, inl, inr, Option, none, some, List, [],
  ◌++◌, Elem, All, Option-cases,
}
use Prim.Native.String.{◌++◌ as ◌⧺◌}
use lbex.Prelude.Dict.{Dict, get}
use lbex.Outcome.{Outcome, done, done-injective}
use lbex.Runtime.{Runtime}
use lbex.K8s.{IntOrString}
use lbex.Nginx.Context.{HttpContext}
use lbex.Nginx.Http.{Location, Server, HttpNginxConfig}
use lbex.Nginx.Control.{
  Configuration, local_cfg, stream_cfg, http_cfg, stream_http_cfg, unknown_cfg, http_conf, World,
  Os, NginxController, Act, ◌>>=◌, is_local, reload,
}
use lbex.Nginx.Control.Laws.{reload_commands, reload_lem}
use lbex.Nginx.Files.{get_http_config_file_name, add_or_update_http_configuration}
use lbex.Nginx.Files.Laws.{act-done, add_or_update_http_configuration_lem, cert_file_name-ne}
use lbex.Configurator.{State}
use lbex.Ingress.{IngressTls, IngressEx}
use lbex.Ingress.Generate.{new_server, generate_nginx_ingress_cfg}
use lbex.Ingress.Generate.Laws.{IsLinked, generate-IsLinked}
use lbex.Ingress.Generate.Servers.{generate-All}
use lbex.Ingress.Publish.{has_http, update_certificates, outcome, add_or_update_ingress}
use lbex.Ingress.Publish.Certificates.{
  secret_file, HoldsSecret, Names, IsCertified, update_certificates-IsCertified,
}

has_http-remote : (c : Configuration) → has_http c ≡ true → is_local c ≡ false
unfolding has_http is_local
has_http-remote local_cfg h = cc
has_http-remote stream_cfg h = refl
has_http-remote http_cfg h = refl
has_http-remote stream_http_cfg h = refl
has_http-remote unknown_cfg h = cc

-- A server without TLS, or one whose certificate and key are the file of the secret of a TLS section
-- that names its host, where that file holds the key and the certificate of the secret.
abbrev pub IsSecured : NginxController → IngressEx → World → Server → Type 0
IsSecured ngxc ex w server =
    (server.ssl ≡ false)
    ⊎ ((tls : IngressTls) × Elem tls ex.ingress.tls
        × Names tls server.name
        × (server.ssl_certificate ≡ secret_file ngxc ex tls.secret_name)
        × (server.ssl_certificate_key ≡ secret_file ngxc ex tls.secret_name)
        × HoldsSecret ngxc ex tls.secret_name w)

-- What holds after an ingress is published: its file holds its generated configuration, whose
-- upstreams and certificates are there, and NGINX is told to load it.
pub record IsIngressPublished (rt : Runtime) (os : Os) (port_string : IntOrString → String)
    (name : String) (ex : IngressEx) (st st' : State) : Type 0 where
  pub pems : Dict String
  pub config : HttpNginxConfig
  pub generated : generate_nginx_ingress_cfg rt port_string st.config ex pems ≡ done config
  pub file : get (get_http_config_file_name st.ngxc name) st'.world.files ≡ some (http_conf config)
  pub linked : IsLinked config
  pub secured : All (IsSecured st.ngxc ex st'.world) config.servers
  pub commands :
      (w : World) × (w.files ≡ st'.world.files)
      × (st'.world.commands
          ≡ st.world.commands ++ reload_commands st.ngxc (os.shell_error w "nginx -t"))
  pub rest : (record st { world = st'.world }) ≡ st'

module _ (rt : Runtime) (os : Os) (port_string : IntOrString → String) (name : String)
    (ex : IngressEx) (st : State) where
  abbrev pub generate : Dict String → Act HttpNginxConfig
  generate pems = outcome os (generate_nginx_ingress_cfg rt port_string st.config ex pems)

  abbrev pub reloaded : Unit {0} → Act (Option String)
  reloaded written w = (done none, (reload os st.ngxc w).1)

  abbrev pub after_generation : HttpNginxConfig → Act (Option String)
  after_generation config = add_or_update_http_configuration os st.ngxc name config >>= reloaded

  abbrev pub after_certificates : Dict String → Act (Option String)
  after_certificates pems = generate pems >>= after_generation

  -- The body of AddOrUpdateIngress.
  abbrev pub publish : Act (Option String)
  publish = update_certificates os st.ngxc ex ex.ingress.tls [] >>= after_certificates

  -- Writing the file of the ingress and reloading keeps what a PEM file holds.
  HoldsSecret-kept :
      (s : String) (config : HttpNginxConfig) (w w2 : World)
      → is_local st.ngxc.cfg_type ≡ false
      → add_or_update_http_configuration os st.ngxc name config w ≡ (done tt, w2)
      → HoldsSecret st.ngxc ex s w
      → HoldsSecret st.ngxc ex s (reload os st.ngxc w2).1
  HoldsSecret-kept s config w w2 remote e (cert, key, usable, held) = (
    cert,
    key,
    usable,
    ap (get (secret_file st.ngxc ex s)) (reload_lem os st.ngxc w2).1
        ∙ ((add_or_update_http_configuration_lem os st.ngxc name config w w2 remote e).1.others
              (secret_file st.ngxc ex s)
              (cert_file_name-ne st.ngxc (ex.ingress.namespace ⧺ "-" ⧺ s) name)
            ∙ held),
  )

  -- A server that is made with the map of hosts that updateCertificates returns is secured.
  new_server-IsSecured :
      (cfg : HttpContext) (pems : Dict String) (w w1 w' : World) (host : String)
      (locations : List Location)
      → IsCertified os st.ngxc ex ex.ingress.tls [] pems w w1
      → ((s : String) → HoldsSecret st.ngxc ex s w1 → HoldsSecret st.ngxc ex s w')
      → IsSecured st.ngxc ex w' (record (new_server cfg pems host) { locations = locations })
  unfolding new_server get
  new_server-IsSecured cfg pems w w1 w' host locations certified kept =
      elim (Option-cases (get host pems)) [
        | inl missing ↦ inl (rw (new_server, missing) refl)
        | inr (file, found) ↦ elim (certified.entries host file found) [
          | inl before ↦ cc
          | inr (tls, there, names, e, usable) ↦ inr (
            tls,
            there,
            names,
            rw (new_server, found) e,
            rw (new_server, found) e,
            kept tls.secret_name (certified.written tls there usable),
          )
        ]
      ]

  pub published :
      (err : Option String) (w' : World)
      → has_http st.ngxc.cfg_type ≡ true
      → publish st.world ≡ (done err, w')
      → (err ≡ none) × IsIngressPublished rt os port_string name ex st (record st { world = w' })
  published err w' h e =
      let remote = has_http-remote st.ngxc.cfg_type h in
      let (pems, w1, e1, f1) =
        act-done (update_certificates os st.ngxc ex ex.ingress.tls []) (after_certificates) err
          st.world w' e in
      let (config, w2, e2, f2) = act-done (generate pems) after_generation err w1 w' f1 in
      let generated : generate_nginx_ingress_cfg rt port_string st.config ex pems ≡ done config =
        ap (λ r. r.0) e2 in
      let same : w1 ≡ w2 = ap (λ r. r.1) e2 in
      let (u, w3, e3, f3) =
        act-done (add_or_update_http_configuration os st.ngxc name config) reloaded err w2 w' f2 in
      let (stored, only) =
        add_or_update_http_configuration_lem os st.ngxc name config w2 w3 remote e3 in
      let certified =
        update_certificates-IsCertified os st.ngxc ex ex.ingress.tls [] pems st.world w1 remote
          e1 in
      let ended : (reload os st.ngxc w3).1 ≡ w' = ap (λ r. r.1) f3 in
      (
        sym (done-injective (ap (λ r. r.0) f3)),
        subst (λ w. IsIngressPublished rt os port_string name ex st (record st { world = w })) ended
            (record {
              pems = pems;
              config = config;
              generated = generated;
              file =
                  ap (get (get_http_config_file_name st.ngxc name)) (reload_lem os st.ngxc w3).1
                  ∙ stored;
              linked = generate-IsLinked rt port_string st.config ex pems config generated;
              secured =
                  generate-All rt port_string st.config ex pems config
                    (IsSecured st.ngxc ex (reload os st.ngxc w3).1)
                    (λ host locations.
                      new_server-IsSecured _ pems st.world w1 (reload os st.ngxc w3).1 host
                        locations certified
                        (λ s held.
                          HoldsSecret-kept s config w2 w3 remote e3
                            (subst (HoldsSecret st.ngxc ex s) same held)))
                    generated;
              commands = (
                w3,
                sym (reload_lem os st.ngxc w3).1,
                (reload_lem os st.ngxc w3).0
                    ∙ ap (λ c. c ++ reload_commands st.ngxc (os.shell_error w3 "nginx -t"))
                        (only.commands
                          ∙ (ap (λ (w : World). w.commands) (sym same) ∙ certified.commands)),
              );
              rest = refl;
            }),
      )

  pub add_or_update_ingress-publish :
      has_http st.ngxc.cfg_type ≡ true
      → ◌≡◌ {A = Outcome (Option String) × State}
          ((publish st.world).0, record st { world = (publish st.world).1 })
          (add_or_update_ingress os rt port_string name ex st)
  unfolding add_or_update_ingress
  add_or_update_ingress-publish h = rw (h, add_or_update_ingress) refl

  -- When AddOrUpdateIngress ends, in a controller for HTTP: it reports no error, the file of the
  -- ingress holds its generated configuration, where no two upstreams share a name, each upstream has
  -- a server and each location passes its requests to one of them; each of its servers with TLS has
  -- the key and the certificate of a secret in its file; NGINX is told to load it if it accepts it;
  -- and the rest of the state is as before.
  pub add_or_update_ingress-IsPublished :
      (err : Option String) (st' : State)
      → has_http st.ngxc.cfg_type ≡ true
      → add_or_update_ingress os rt port_string name ex st ≡ (done err, st')
      → (err ≡ none) × IsIngressPublished rt os port_string name ex st st'
  unfolding add_or_update_ingress
  add_or_update_ingress-IsPublished err st' h e =
      let run = add_or_update_ingress-publish h ∙ e in
      let (no_error, p) =
        published err (publish st.world).1 h
          (ap (λ r. (r, (publish st.world).1)) (ap (λ r. r.0) run)) in
      (no_error, subst (IsIngressPublished rt os port_string name ex st) (ap (λ r. r.1) run) p)
