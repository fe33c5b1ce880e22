-- ===== src/Ingress/Publish/Ends.antt =====
-- When AddOrUpdateIngress of nginx/configurator.go ends without stopping the process.
use lbex.Prelude.{
  String, Bool, true, false, not, ◌≡◌, refl, sym, subst, ap, ◌∙◌, ◌⊎◌, ◌≢◌, arith, inl, inr, Option,
  none, some, List, [], ◌∷◌, Bool-cases, if◌then◌else◌,
}
use Prim.Native.String.{◌++◌ as ◌⧺◌}
use lbex.Prelude.Dict.{Dict, get, put}
use lbex.Outcome.{Halt, Outcome, done, halt}
use lbex.Runtime.{Runtime}
use lbex.K8s.{IntOrString}
use lbex.Nginx.Http.{HttpNginxConfig}
use lbex.Nginx.Control.{http_conf, World, Os, NginxController, Act, ◌>>=◌, pure, is_local, reload}
use lbex.Nginx.Files.{
  get_http_config_file_name, create_text, write_string, add_or_update_cert_and_key, template_http,
  add_or_update_http_configuration,
}
use lbex.Configurator.{State}
use lbex.Publish.Laws.{IsWritable}
use lbex.Ingress.{IngressTls, IngressEx}
use lbex.Ingress.Upstream.Laws.{HasPorts}
use lbex.Ingress.Generate.Ends.{generate-ends}
use lbex.Ingress.Publish.{
  has_http, cert_and_key, put_tls_hosts, update_certificates, add_or_update_ingress,
}
use lbex.Ingress.Publish.Laws.{publish, published, add_or_update_ingress-publish}

-- The action ends with a value, whatever the world.
abbrev pub AlwaysEnds : {A : Type 0} → Act A → Type 0
AlwaysEnds {A} m = (w : World) → (a : A) × (w' : World) × (m w ≡ (done a, w'))

bind-AlwaysEnds :
    {A B : Type 0} (m : Act A) (f : A → Act B)
    → AlwaysEnds m
    → ((a : A) → AlwaysEnds (f a))
    → AlwaysEnds (m >>= f)
bind-AlwaysEnds {A} {B} m f h k w =
    let (a, w', e) = h w in
    subst
      (λ (r : Outcome A × World).
        (b : B) × (w'' : World) × ◌≡◌ {A = Outcome B × World}
          (elim r.0 as (λ x. Outcome B × World) [ done a ↦ f a r.1 | halt stop ↦ (halt stop, r.1) ])
          (done b, w''))
      (sym e) (k a w')

pure-AlwaysEnds : {A : Type 0} (a : A) → AlwaysEnds (pure a)
pure-AlwaysEnds a w = (a, w, refl)

if-AlwaysEnds :
    {A : Type 0} (b : Bool) (m n : Act A)
    → AlwaysEnds m
    → AlwaysEnds n
    → AlwaysEnds (if b then m else n)
if-AlwaysEnds true m n h k = h
if-AlwaysEnds false m n h k = k

-- No entry of the map of secrets is a nil pointer.
abbrev pub HasSecrets : IngressEx → Type 0
HasSecrets ex = (name : String) → get name ex.secrets ≢ some none

cert_and_key-ends :
    (ex : IngressEx)
    → HasSecrets ex
    → (name : String) (stop : Halt) → cert_and_key ex name ≢ halt stop
unfolding cert_and_key
cert_and_key-ends ex there name stop h = ground (arith, there name)

module _ (os : Os) (writable : IsWritable os)
    (writes : (w : World) (file : String) → os.can_write w file ≡ true) where
  create_text-AlwaysEnds : (file : String) → AlwaysEnds (create_text os file)
  unfolding create_text
  create_text-AlwaysEnds file w = rw (create_text, writable.creates w file) (tt, _, refl)

  write_string-AlwaysEnds : (file text : String) → AlwaysEnds (write_string os file text)
  unfolding write_string
  write_string-AlwaysEnds file text w = rw (write_string, writes w file) (tt, _, refl)

  cert_and_key-AlwaysEnds :
      (ngxc : NginxController) (name cert key : String)
      → AlwaysEnds (add_or_update_cert_and_key os ngxc name cert key)
  unfolding add_or_update_cert_and_key
  cert_and_key-AlwaysEnds ngxc name cert key =
      bind-AlwaysEnds _ _
        (if-AlwaysEnds (not (is_local ngxc.cfg_type)) _ _
          (bind-AlwaysEnds _ _
            (bind-AlwaysEnds _ _
              (bind-AlwaysEnds _ _ (create_text-AlwaysEnds _) (λ u. write_string-AlwaysEnds _ key))
              (λ u. write_string-AlwaysEnds _ "\n"))
            (λ u. write_string-AlwaysEnds _ cert))
          (pure-AlwaysEnds tt))
        (λ u. pure-AlwaysEnds _)

  update_certificates-AlwaysEnds :
      (ngxc : NginxController) (ex : IngressEx)
      → HasSecrets ex
      → (list : List IngressTls) (pems : Dict String)
      → AlwaysEnds (update_certificates os ngxc ex list pems)
  unfolding update_certificates
  update_certificates-AlwaysEnds ngxc ex there [] pems = pure-AlwaysEnds pems
  update_certificates-AlwaysEnds ngxc ex there (tls ∷ list) pems =
      by_secret (cert_and_key ex tls.secret_name) (cert_and_key-ends ex there tls.secret_name)
        (update_certificates-AlwaysEnds ngxc ex there list)
    where
      by_secret :
          (o : Outcome (Option (String × String)))
          → ((stop : Halt) → o ≢ halt stop)
          → ((before : Dict String) → AlwaysEnds (update_certificates os ngxc ex list before))
          → AlwaysEnds (elim o as (λ x. Act (Dict String)) [
            | halt stop ↦ λ v. (halt stop, v)
            | done usable ↦ elim usable [
              | none ↦ update_certificates os ngxc ex list pems
              | some (cert, key) ↦
                  add_or_update_cert_and_key os ngxc
                    (ex.ingress.namespace ⧺ "-" ⧺ tls.secret_name)
                    cert
                    key
                  >>= λ pem_file_name.
                      update_certificates os ngxc ex list
                        (put_tls_hosts tls.hosts pem_file_name pems)
            ]
          ])
      by_secret (halt stop) ended again = absurd (ended stop refl)
      by_secret (done none) ended again = again pems
      by_secret (done (some (cert, key))) ended again =
          bind-AlwaysEnds _ _ (cert_and_key-AlwaysEnds ngxc _ cert key) (λ file. again _)

  http-AlwaysEnds :
      (ngxc : NginxController) (name : String) (config : HttpNginxConfig)
      → AlwaysEnds (add_or_update_http_configuration os ngxc name config)
  unfolding add_or_update_http_configuration template_http
  http-AlwaysEnds ngxc name config w = elim (Bool-cases (is_local ngxc.cfg_type)) [
    | inl h ↦ (tt, w, rw (add_or_update_http_configuration, writable.parses, h) refl)
    | inr h ↦ (
      tt,
      record w { files = put (get_http_config_file_name ngxc name) (http_conf config) w.files },
      rw (add_or_update_http_configuration, writable.parses, h, writable.creates, writable.executes)
          refl,
    )
  ]

  -- Where the files can be written and each endpoint of the ingress has a colon, and no secret is a nil
  -- pointer, AddOrUpdateIngress ends and never stops the process: without an error in a controller for HTTP, and otherwise with
  -- one and without any effect.
  pub add_or_update_ingress-ends :
      (rt : Runtime) (port_string : IntOrString → String) (name : String) (ex : IngressEx)
      (st : State)
      → HasPorts port_string ex
      → HasSecrets ex
      → ((has_http st.ngxc.cfg_type ≡ true)
          × ((st' : State) × (add_or_update_ingress os rt port_string name ex st
                ≡ (done none, st'))))
        ⊎ ((has_http st.ngxc.cfg_type ≡ false)
            × ((err : String) × (add_or_update_ingress os rt port_string name ex st
                  ≡ (done (some err), st))))
  unfolding add_or_update_ingress
  add_or_update_ingress-ends rt port_string name ex st ports there =
      elim (Bool-cases (has_http st.ngxc.cfg_type)) [
        | inl h ↦
            let (err, w, e) = publish-AlwaysEnds st.world in
            let (no_error, _) = published rt os port_string name ex st err w h e in
            inl (
              h,
              (
                record st { world = w },
                sym (add_or_update_ingress-publish rt os port_string name ex st h)
                    ∙ (ap (λ r. (r.0, record st { world = r.1 })) e
                        ∙ ap (λ o. (done o, record st { world = w })) no_error),
              ),
            )
        | inr h ↦ inr (
          h,
          (
            "addOrUpdateIngress: I'm sorry Dave, I'm afraid I can't do that",
            rw (h, add_or_update_ingress) refl,
          ),
        )
      ]
    where
      publish-AlwaysEnds : AlwaysEnds (publish rt os port_string name ex st)
      publish-AlwaysEnds =
          bind-AlwaysEnds _ _ (update_certificates-AlwaysEnds st.ngxc ex there ex.ingress.tls [])
            (λ pems.
              bind-AlwaysEnds _ _
                (λ w.
                  let (config, e) = generate-ends rt port_string st.config ex pems ports in
                  (config, w, ap (λ r. (r, w)) e))
                (λ config.
                  bind-AlwaysEnds _ _ (http-AlwaysEnds st.ngxc name config)
                    (λ u w. (none, (reload os st.ngxc w).1, refl))))
