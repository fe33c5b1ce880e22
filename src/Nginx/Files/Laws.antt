-- ===== src/Nginx/Files/Laws.antt =====
-- What the file operations of nginx/http.go leave in the files.
use lbex.Prelude.{
  ℕ, String, Bool, true, false, not, ◌≡◌, refl, sym, ◌∙◌, ap, subst, ◌≢◌, some, arith, eq_iff,
  eq_refl, ◌⊎◌, inl, inr, if◌then◌else◌,
}
use Prim.Native.Char.{Char, code}
use Prim.Native.String.{◌++◌ as ◌⧺◌, [], ◌∷◌}
use text.Mathlib.TextLemmas.{nil-append, cons-append, append_assoc}
use lbex.Prelude.Dict.{get, put, get-put}
use lbex.Outcome.{Halt, Outcome, done, halt}
use lbex.Nginx.Http.{HttpNginxConfig}
use lbex.Nginx.Control.{
  Content, http_conf, pem, World, Os, NginxController, Act, ◌>>=◌, ◌>>◌, pure, is_local, join_path,
  write_file,
}
use lbex.Nginx.Files.{
  template_http, get_http_config_file_name, cert_file_name, extend, create_text, write_string,
  add_or_update_http_configuration, add_or_update_cert_and_key,
}

-- A sequence of actions ends if each of them does, and only then.
pub act-done :
    {A B : Type 0} (m : Act A) (f : A → Act B) (b : B) (w w'' : World)
    → (m >>= f) w ≡ (done b, w'')
    → (a : A) × (w' : World) × (m w ≡ (done a, w')) × (f a w' ≡ (done b, w''))
act-done {A} {B} m f b w w'' h = by_result (m w) refl h
  where
    by_result :
        (r : Outcome A × World)
        → m w ≡ r
        → (elim r.0 as (λ x. Outcome B × World) [ done a ↦ f a r.1 | halt stop ↦ (halt stop, r.1) ])
          ≡ (done b, w'')
        → (a : A) × (w' : World) × (m w ≡ (done a, w')) × (f a w' ≡ (done b, w''))
    by_result (done a, w') e g = (a, w', e, g)
    by_result (halt stop, w') e g = cc

-- From the first world to the second, only the file of the name may change.
pub record IsOnly (filename : String) (w w' : World) : Type 0 where
  pub others : (file : String) → filename ≢ file → get file w'.files ≡ get file w.files
  pub directories : w'.directories ≡ w.directories
  pub commands : w'.commands ≡ w.commands

-- The file of the name holds the text, and nothing else changed.
pub record IsText (filename text : String) (w w' : World) : Type 0 where
  pub holds : get filename w'.files ≡ some (pem text)
  pub only : IsOnly filename w w'

-- A call that ends took the branch that ends.
done-world :
    {A : Type 0} (b : Bool) (a : A) (stop : Halt) (x y w' : World)
    → ◌≡◌ {A = Outcome A × World} (if b then (done a, x) else (halt stop, y)) (done a, w')
    → x ≡ w'
done-world true a stop x y w' h = ap (λ r. r.1) h
done-world false a stop x y w' h = cc

put-IsOnly :
    (filename : String) (content : Content) (w : World)
    → IsOnly filename w (record w { files = put filename content w.files })
put-IsOnly filename content w = record {
  others = λ file ne. ground (arith, get-put filename file content w.files, eq_iff filename file);
  directories = refl;
  commands = refl;
}

IsOnly-trans :
    (filename : String) (w w' w'' : World)
    → IsOnly filename w w'
    → IsOnly filename w' w''
    → IsOnly filename w w''
IsOnly-trans filename w w' w'' f g = record {
  others = λ file ne. g.others file ne ∙ f.others file ne;
  directories = g.directories ∙ f.directories;
  commands = g.commands ∙ f.commands;
}

module _ (os : Os) (filename : String) where
  create_text-IsText :
      (w w' : World) → create_text os filename w ≡ (done tt, w') → IsText filename "" w w'
  unfolding create_text
  create_text-IsText w w' h =
      subst (IsText filename "" w) (done-world (os.can_create w filename) tt _ _ _ w' h) (record {
        holds = ground (arith, get-put filename filename (pem "") w.files, eq_refl filename);
        only = put-IsOnly filename (pem "") w;
      })

  write_string-IsText :
      (before text : String) (w w' w'' : World)
      → IsText filename before w w'
      → write_string os filename text w' ≡ (done tt, w'')
      → IsText filename (before ⧺ text) w w''
  unfolding write_string
  write_string-IsText before text w w' w'' h e =
      subst (IsText filename (before ⧺ text) w)
        (done-world (os.can_write w' filename) tt _ _ _ w'' e)
        (record {
          holds =
              rw
                (
                  get-put filename filename (extend text (get filename w'.files)) w'.files,
                  eq_refl filename,
                  h.holds,
                )
                refl;
          only =
              IsOnly-trans filename w w' _ h.only
                (put-IsOnly filename (extend text (get filename w'.files)) w');
        })

abbrev write_cert_and_key : Os → String → String → String → Act Unit
write_cert_and_key os file cert key =
    create_text os file
    >> write_string os file key
    >> write_string os file "\n"
    >> write_string os file cert

write_cert_and_key-IsText :
    (os : Os) (file cert key : String) (w w' : World)
    → write_cert_and_key os file cert key w ≡ (done tt, w')
    → IsText file (key ⧺ "\n" ⧺ cert) w w'
write_cert_and_key-IsText os file cert key w w' h =
    let first : Act Unit = create_text os file in
    let second : Act Unit = first >> write_string os file key in
    let third : Act Unit = second >> write_string os file "\n" in
    let (_, w3, h3, e3) = act-done third (λ u. write_string os file cert) tt w w' h in
    let (_, w2, h2, e2) = act-done second (λ u. write_string os file "\n") tt w w3 h3 in
    let (_, w1, h1, e1) = act-done first (λ u. write_string os file key) tt w w2 h2 in
    let created = create_text-IsText os file w w1 h1 in
    let keyed = write_string-IsText os file "" key w w1 w2 created e1 in
    let broken_off = write_string-IsText os file _ "\n" w w2 w3 keyed e2 in
    subst (λ text. IsText file text w w')
      (ap (λ t. (t ⧺ "\n") ⧺ cert) (nil-append key) ∙ append_assoc key "\n" cert)
      (write_string-IsText os file _ cert w w3 w' broken_off e3)

-- When AddOrUpdateCertAndKey ends, it returns the name of the PEM file; with a local configuration
-- type nothing changes, and otherwise the file holds the key, a line break and the certificate, and
-- no other file, no directory and no command is touched.
pub add_or_update_cert_and_key_lem :
    (os : Os) (ngxc : NginxController) (name cert key file : String) (w w' : World)
    → add_or_update_cert_and_key os ngxc name cert key w ≡ (done file, w')
    → (file ≡ cert_file_name ngxc (name ⧺ ".pem"))
      × (((is_local ngxc.cfg_type ≡ true) × (w ≡ w'))
          ⊎ ((is_local ngxc.cfg_type ≡ false) × IsText file (key ⧺ "\n" ⧺ cert) w w'))
unfolding add_or_update_cert_and_key
add_or_update_cert_and_key_lem os ngxc name cert key file w w' h =
    let (u, w1, h1, e1) =
      act-done
        (if not (is_local ngxc.cfg_type)
          then write_cert_and_key os (cert_file_name ngxc (name ⧺ ".pem")) cert key
          else pure tt)
        (λ u. pure (cert_file_name ngxc (name ⧺ ".pem"))) file w w' h in
    let named : cert_file_name ngxc (name ⧺ ".pem") ≡ file = cc e1 in
    let same : w1 ≡ w' = cc e1 in
    (sym named, by_type w1 u (is_local ngxc.cfg_type) refl h1 same named)
  where
    by_type :
        (w1 : World) (u : Unit) (b : Bool)
        → is_local ngxc.cfg_type ≡ b
        → (if not b
              then write_cert_and_key os (cert_file_name ngxc (name ⧺ ".pem")) cert key
              else pure tt)
            w
          ≡ (done u, w1)
        → w1 ≡ w'
        → cert_file_name ngxc (name ⧺ ".pem") ≡ file
        → ((is_local ngxc.cfg_type ≡ true) × (w ≡ w'))
          ⊎ ((is_local ngxc.cfg_type ≡ false) × IsText file (key ⧺ "\n" ⧺ cert) w w')
    by_type w1 u true local g same named = inl (local, ap (λ r. r.1) g ∙ same)
    by_type w1 u false other g same named = inr (
      other,
      subst (λ f. IsText f (key ⧺ "\n" ⧺ cert) w w') named
          (subst (λ v. IsText (cert_file_name ngxc (name ⧺ ".pem")) (key ⧺ "\n" ⧺ cert) w v) same
            (write_cert_and_key-IsText os _ cert key w w1 g)),
    )

-- When AddOrUpdateHTTPConfiguration ends, in a controller that is not local, the file of its name
-- holds the configuration, and no other file, no directory and no command is touched.
pub add_or_update_http_configuration_lem :
    (os : Os) (ngxc : NginxController) (name : String) (config : HttpNginxConfig) (w w' : World)
    → is_local ngxc.cfg_type ≡ false
    → add_or_update_http_configuration os ngxc name config w ≡ (done tt, w')
    → (get (get_http_config_file_name ngxc name) w'.files ≡ some (http_conf config))
      × IsOnly (get_http_config_file_name ngxc name) w w'
unfolding add_or_update_http_configuration template_http write_file
add_or_update_http_configuration_lem os ngxc name config w w' remote h =
    subst
      (λ v.
        (get (get_http_config_file_name ngxc name) v.files ≡ some (http_conf config))
        × IsOnly (get_http_config_file_name ngxc name) w v)
      same
      (
        ground (
          arith,
          get-put (get_http_config_file_name ngxc name) (get_http_config_file_name ngxc name)
              (http_conf config) w.files,
          eq_refl (get_http_config_file_name ngxc name),
        ),
        put-IsOnly (get_http_config_file_name ngxc name) (http_conf config) w,
      )
  where
    same :
        (record w { files = put (get_http_config_file_name ngxc name) (http_conf config) w.files })
        ≡ w'
    same = ground (arith, remote, h)

last_code : ℕ → String → ℕ
last_code n [] = n
last_code n (c ∷ s) = last_code (code c) s

last_code-append :
    (n : ℕ) (s : String) (c : Char) (t : String) → last_code n (s ⧺ c ∷ t) ≡ last_code (code c) t
unfolding last_code
last_code-append n [] c t = rw (nil-append (c ∷ t)) refl
last_code-append n (d ∷ s) c t = rw (cons-append d s (c ∷ t)) (last_code-append (code d) s c t)

last_code-file :
    (dir name : String) (c : Char) (t : String)
    → last_code 0 (dir ⧺ "/" ⧺ (name ⧺ c ∷ t)) ≡ last_code (code c) t
unfolding last_code
last_code-file dir name c t =
    ap (λ r. last_code 0 (dir ⧺ r)) (cons-append "/" "" _ ∙ ap (λ r. "/" ∷ r) (nil-append _))
    ∙ (last_code-append 0 dir "/" _ ∙ last_code-append _ name c t)

-- No PEM file is the file of an HTTP configuration.
pub cert_file_name-ne :
    (ngxc : NginxController) (secret name : String)
    → get_http_config_file_name ngxc name ≢ cert_file_name ngxc (secret ⧺ ".pem")
unfolding get_http_config_file_name cert_file_name join_path last_code
cert_file_name-ne ngxc secret name e =
    let http : last_code 0 (get_http_config_file_name ngxc name) ≡ b'f' =
      last_code-file ngxc.nginx_confd_path name "." "http.conf" in
    let certificate : last_code 0 (cert_file_name ngxc (secret ⧺ ".pem")) ≡ b'm' =
      last_code-file ngxc.nginx_certs_path secret "." "pem" in
    let same = ap (last_code 0) e in omega arith
