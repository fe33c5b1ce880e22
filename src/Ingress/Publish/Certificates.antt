-- ===== src/Ingress/Publish/Certificates.antt =====
-- The PEM files that updateCertificates of nginx/configurator.go writes, and the hosts that they are
-- recorded for.
use lbex.Prelude.{
  String, false, ◌≡◌, refl, sym, ◌∙◌, ap, subst, ◌≢◌, ◌⊎◌, inl, inr, Option, none, some, List, [],
  ◌∷◌, Elem, String-cases, arith,
}
use Prim.Native.String.{◌++◌ as ◌⧺◌}
use text.Mathlib.TextLemmas.{append_cancel_left, append_cancel_right}
use lbex.Prelude.Dict.{Dict, get, put, get-put}
use lbex.Outcome.{Outcome, done, halt, done-injective}
use lbex.Runtime.Laws.{none-some}
use lbex.Nginx.Control.{pem, World, Os, NginxController, Act, ◌>>=◌, is_local}
use lbex.Nginx.Files.{cert_file_name, add_or_update_cert_and_key}
use lbex.Nginx.Files.Laws.{act-done, IsText, add_or_update_cert_and_key_lem}
use lbex.Ingress.{IngressTls, IngressEx}
use lbex.Ingress.Upstream.{empty_host}
use lbex.Ingress.Publish.{put_hosts, put_tls_hosts, cert_and_key, update_certificates}

same_pems :
    {A : Type 0} {a b : A} {w w' : World}
    → ◌≡◌ {A = Outcome A × World} (done a, w) (done b, w')
    → a ≡ b
same_pems h = done-injective (ap (λ r. r.0) h)

-- The file of a secret, and what it should hold.
abbrev pub secret_file : NginxController → IngressEx → String → String
secret_file ngxc ex secret_name =
    cert_file_name ngxc ((ex.ingress.namespace ⧺ "-" ⧺ secret_name) ⧺ ".pem")

abbrev pub HoldsSecret : NginxController → IngressEx → String → World → Type 0
HoldsSecret ngxc ex secret_name w =
    (cert : String) × (key : String) × (cert_and_key ex secret_name ≡ done (some (cert, key)))
    × (get (secret_file ngxc ex secret_name) w.files ≡ some (pem (key ⧺ "\n" ⧺ cert)))

-- No two secrets have one file.
secret_file-injective :
    (ngxc : NginxController) (ex : IngressEx) (s t : String)
    → secret_file ngxc ex s ≡ secret_file ngxc ex t
    → s ≡ t
unfolding cert_file_name
secret_file-injective ngxc ex s t e = append_cancel_left "-" s t (
    append_cancel_left ex.ingress.namespace _ _ (
      append_cancel_right _ _ ".pem"
        (append_cancel_left "/" _ _ (append_cancel_left ngxc.nginx_certs_path _ _ e))))

-- An entry of the map of hosts: a TLS section of the list has a usable secret, and names the host, or
-- no host at all.
abbrev pub Names : IngressTls → String → Type 0
Names tls host = Elem host tls.hosts ⊎ ((tls.hosts ≡ []) × (host ≡ empty_host))

put_hosts-get :
    (hosts : List String) (file host found : String) (pems : Dict String)
    → get host (put_hosts hosts file pems) ≡ some found
    → (get host pems ≡ some found) ⊎ (Elem host hosts × (found ≡ file))
unfolding put_hosts
put_hosts-get [] file host found pems h = inl h
put_hosts-get (first ∷ hosts) file host found pems h =
    elim (put_hosts-get hosts file host found (put first file pems) h) [
      | inr (there, e) ↦ inr (inr there, e)
      | inl before ↦ elim (String-cases first host) [
        | inl (e, same) ↦
            inr (inl (sym e), ground (arith, before, get-put first host file pems, same))
        | inr (e, other) ↦ inl (ground (arith, before, get-put first host file pems, other))
      ]
    ]

put_tls_hosts-get :
    (tls : IngressTls) (file host found : String) (pems : Dict String)
    → get host (put_tls_hosts tls.hosts file pems) ≡ some found
    → (get host pems ≡ some found) ⊎ (Names tls host × (found ≡ file))
unfolding put_tls_hosts
put_tls_hosts-get tls file host found pems h = by_hosts tls.hosts refl h
  where
    by_hosts :
        (hosts : List String)
        → tls.hosts ≡ hosts
        → get host (put_tls_hosts hosts file pems) ≡ some found
        → (get host pems ≡ some found) ⊎ (Names tls host × (found ≡ file))
    by_hosts [] none_named g = elim (put_hosts-get (empty_host ∷ []) file host found pems g) [
      | inl before ↦ inl before
      | inr (inl e, same) ↦ inr (inr (none_named, e), same)
      | inr (inr nowhere, same) ↦ absurd nowhere
    ]
    by_hosts (first ∷ hosts) named g = elim (put_hosts-get (first ∷ hosts) file host found pems g) [
      | inl before ↦ inl before
      | inr (there, e) ↦ inr (inl (subst (Elem host) (sym named) there), e)
    ]

module _ (os : Os) (ngxc : NginxController) (ex : IngressEx) where
  -- A certificate in the map of hosts is one of the map before, or the file of a usable secret of a
  -- TLS section that names the host.
  abbrev pub Certifies : List IngressTls → String → String → Type 0
  Certifies list host file =
      (tls : IngressTls) × Elem tls list
      × Names tls host
      × (file ≡ secret_file ngxc ex tls.secret_name)
      × (cert_and_key ex tls.secret_name ≢ done none)

  -- What updateCertificates leaves, from the map and the world before.
  pub record IsCertified (list : List IngressTls) (pems pems' : Dict String) (w w' : World)
      : Type 0 where
    pub entries :
        (host file : String)
        → get host pems' ≡ some file
        → (get host pems ≡ some file) ⊎ Certifies list host file
    pub written :
        (tls : IngressTls)
        → Elem tls list
        → cert_and_key ex tls.secret_name ≢ done none
        → HoldsSecret ngxc ex tls.secret_name w'
    pub kept : (s : String) → HoldsSecret ngxc ex s w → HoldsSecret ngxc ex s w'
    pub commands : w'.commands ≡ w.commands

  Certifies-later :
      (tls : IngressTls) (list : List IngressTls) (host file : String)
      → Certifies list host file
      → Certifies (tls ∷ list) host file
  Certifies-later tls list host file (other, there, names, e, usable) =
      (other, inr there, names, e, usable)

  skipped-IsCertified :
      (tls : IngressTls) (list : List IngressTls) (pems pems' : Dict String) (w w' : World)
      → cert_and_key ex tls.secret_name ≡ done none
      → IsCertified list pems pems' w w'
      → IsCertified (tls ∷ list) pems pems' w w'
  skipped-IsCertified tls list pems pems' w w' unusable rest = record {
    entries = λ host file found. elim (rest.entries host file found) [
      | inl before ↦ inl before
      | inr new ↦ inr (Certifies-later tls list host file new)
    ];
    written = λ other there usable. elim there [
      | inl e ↦
          absurd (usable (ap (λ (t : IngressTls). cert_and_key ex t.secret_name) e ∙ unusable))
      | inr later ↦ rest.written other later usable
    ];
    kept = rest.kept;
    commands = rest.commands;
  }

  -- Writing the file of one secret keeps what the files of the others hold.
  IsText-keeps :
      (s cert key : String) (w w' : World)
      → cert_and_key ex s ≡ done (some (cert, key))
      → IsText (secret_file ngxc ex s) (key ⧺ "\n" ⧺ cert) w w'
      → (t : String) → HoldsSecret ngxc ex t w
      → HoldsSecret ngxc ex t w'
  IsText-keeps s cert key w w' usable text t (cert', key', usable', held) =
      elim (String-cases (secret_file ngxc ex s) (secret_file ngxc ex t)) [
        | inl (e, _) ↦
            subst (λ u. HoldsSecret ngxc ex u w') (secret_file-injective ngxc ex s t e)
              (cert, key, usable, text.holds)
        | inr (other, _) ↦
            (cert', key', usable', text.only.others (secret_file ngxc ex t) other ∙ held)
      ]

  used-IsCertified :
      (tls : IngressTls) (list : List IngressTls) (pems pems' : Dict String) (w w1 w' : World)
      (cert key : String)
      → cert_and_key ex tls.secret_name ≡ done (some (cert, key))
      → IsText (secret_file ngxc ex tls.secret_name) (key ⧺ "\n" ⧺ cert) w w1
      → IsCertified list
          (put_tls_hosts tls.hosts (secret_file ngxc ex tls.secret_name) pems)
          pems'
          w1
          w'
      → IsCertified (tls ∷ list) pems pems' w w'
  used-IsCertified tls list pems pems' w w1 w' cert key usable text rest = record {
    entries = λ host file found. elim (rest.entries host file found) [
      | inl before ↦
          elim (put_tls_hosts-get tls (secret_file ngxc ex tls.secret_name) host file pems before) [
            | inl earlier ↦ inl earlier
            | inr (names, e) ↦
                inr
                  (tls, inl refl, names, e, λ gone. none-some (done-injective (sym gone ∙ usable)))
          ]
      | inr new ↦ inr (Certifies-later tls list host file new)
    ];
    written = λ other there is_usable. elim there [
      | inl e ↦
          subst (λ (t : IngressTls). HoldsSecret ngxc ex t.secret_name w') (sym e)
            (rest.kept tls.secret_name (cert, key, usable, text.holds))
      | inr later ↦ rest.written other later is_usable
    ];
    kept = λ s held. rest.kept s (IsText-keeps tls.secret_name cert key w w1 usable text s held);
    commands = rest.commands ∙ text.only.commands;
  }

  pub update_certificates-IsCertified :
      (list : List IngressTls) (pems pems' : Dict String) (w w' : World)
      → is_local ngxc.cfg_type ≡ false
      → update_certificates os ngxc ex list pems w ≡ (done pems', w')
      → IsCertified list pems pems' w w'
  unfolding update_certificates
  update_certificates-IsCertified [] pems pems' w w' remote h = record {
    entries =
        λ host file found. inl (subst (λ m. get host m ≡ some file) (sym (same_pems h)) found);
    written = λ tls nowhere usable. absurd nowhere;
    kept = λ s held. subst (HoldsSecret ngxc ex s) (ap (λ r. r.1) h) held;
    commands = ap (λ r. r.1.commands) (sym h);
  }
  update_certificates-IsCertified (tls ∷ list) pems pems' w w' remote h =
      by_secret (cert_and_key ex tls.secret_name) refl h (update_certificates-IsCertified list)
    where
      by_secret :
          (o : Outcome (Option (String × String)))
          → cert_and_key ex tls.secret_name ≡ o
          → (elim o as (λ x. Act (Dict String)) [
            | halt stop ↦ λ v. (halt stop, v)
            | done usable ↦ elim usable [
              | none ↦ update_certificates os ngxc ex list pems
              | some (cert, key) ↦
                  add_or_update_cert_and_key os ngxc
                    (ex.ingress.namespace ⧺ "-" ⧺ tls.secret_name)
                    cert
                    key
                  >>= λ pem_file_name.
                      update_certificates os ngxc ex list
                        (put_tls_hosts tls.hosts pem_file_name pems)
            ]
          ])
              w
            ≡ (done pems', w')
          → ((before after : Dict String) (v v' : World)
              → is_local ngxc.cfg_type ≡ false
              → update_certificates os ngxc ex list before v ≡ (done after, v')
              → IsCertified list before after v v')
          → IsCertified (tls ∷ list) pems pems' w w'
      by_secret (halt stop) e f again = cc
      by_secret (done none) e f again =
          skipped-IsCertified tls list pems pems' w w' e (again pems pems' w w' remote f)
      by_secret (done (some (cert, key))) e f again =
          let name = ex.ingress.namespace ⧺ "-" ⧺ tls.secret_name in
          let (file, w1, g, i) =
            act-done (add_or_update_cert_and_key os ngxc name cert key)
              (λ file. update_certificates os ngxc ex list (put_tls_hosts tls.hosts file pems))
              pems' w w' f in
          let (named, stored) = add_or_update_cert_and_key_lem os ngxc name cert key file w w1 g in
          elim stored [
            | inl (local, _) ↦ cc
            | inr (_, text) ↦
                used-IsCertified tls list pems pems' w w1 w' cert key e
                  (subst (λ n. IsText n (key ⧺ "\n" ⧺ cert) w w1) named text)
                  (subst (λ n. IsCertified list (put_tls_hosts tls.hosts n pems) pems' w1 w') named
                    (again (put_tls_hosts tls.hosts file pems) pems' w1 w' remote i))
          ]
