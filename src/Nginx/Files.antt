-- ===== src/Nginx/Files.antt =====
-- The file operations of nginx/http.go: HTTP configurations, and the PEM files for TLS.
pub mod Laws
use lbex.Prelude.{String, Bool, not, ◌&&◌, Option, none, some, if◌then◌else◌}
use Prim.Native.String.{◌++◌ as ◌⧺◌}
use lbex.Prelude.Dict.{get, put, delete}
use lbex.Outcome.{done, halt, fatal}
use lbex.Nginx.Http.{HttpNginxConfig}
use lbex.Nginx.Control.{
  Content, http_conf, pem, broken, World, Os, NginxController, Act, ◌>>◌, pure, is_local, join_path,
  write_file,
}

abbrev pub dhparam_filename : String
dhparam_filename = "dhparam.pem"

unfoldable pub get_http_config_file_name : NginxController → String → String
unfolding join_path
get_http_config_file_name ngxc name = join_path ngxc.nginx_confd_path (name ⧺ ".http.conf")

unfoldable pub cert_file_name : NginxController → String → String
cert_file_name ngxc name = ngxc.nginx_certs_path ⧺ "/" ⧺ name

-- what a file holds once `text` is written at its end
abbrev pub extend : String → Option Content → Content
extend text (some (pem before)) = pem (before ⧺ text)
extend text _ = broken

module _ (os : Os) where
  -- DeleteHTTPConfiguration; a failed removal, also of a file that is not there, is only logged
  unfoldable pub delete_http_configuration : NginxController → String → World → World
  unfolding get_http_config_file_name is_local delete
  delete_http_configuration ngxc name w =
      let filename = get_http_config_file_name ngxc name in
      if not (is_local ngxc.cfg_type) && os.can_remove w filename
      then record w { files = delete filename w.files }
      else w

  -- templateHTTP
  unfoldable pub template_http : NginxController → HttpNginxConfig → String → Act Unit
  unfolding write_file is_local
  template_http ngxc config filename w =
      if not (os.can_parse w "http.tmpl")
      then (halt (fatal "failed to parse HTTP template file"), w)
      else if not (is_local ngxc.cfg_type)
      then write_file os filename (http_conf config) w
      else (done tt, w)

  -- AddOrUpdateHTTPConfiguration
  unfoldable pub add_or_update_http_configuration :
      NginxController → String → HttpNginxConfig → Act Unit
  unfolding template_http get_http_config_file_name
  add_or_update_http_configuration ngxc name config =
      template_http ngxc config (get_http_config_file_name ngxc name)

  -- os.Create of a text file
  unfoldable pub create_text : String → Act Unit
  create_text filename w =
      if os.can_create w filename
      then (done tt, record w { files = put filename (pem "") w.files })
      else (halt (fatal "Couldn't create pem file"), w)

  -- WriteString to the open file
  unfoldable pub write_string : String → String → Act Unit
  unfolding get put
  write_string filename text w =
      if os.can_write w filename
      then (done tt, record w { files = put filename (extend text (get filename w.files)) w.files })
      else (
        halt (fatal "Couldn't write to pem file"),
        record w { files = put filename broken w.files },
      )

  -- AddOrUpdateCertAndKey
  unfoldable pub add_or_update_cert_and_key :
      NginxController → String → String → String → Act String
  unfolding is_local cert_file_name create_text write_string
  add_or_update_cert_and_key ngxc name cert key =
      let pem_file_name = cert_file_name ngxc (name ⧺ ".pem") in
      (if not (is_local ngxc.cfg_type)
        then create_text pem_file_name
          >> write_string pem_file_name key
          >> write_string pem_file_name "\n"
          >> write_string pem_file_name cert
        else pure tt)
      >> pure pem_file_name

  -- AddOrUpdateDHParam, which returns the file's name and an error
  unfoldable pub add_or_update_dh_param :
      NginxController → String → World → (String × Option String) × World
  unfolding is_local cert_file_name create_text write_string
  add_or_update_dh_param ngxc dhparam w =
      let file_name = cert_file_name ngxc dhparam_filename in
      let (created, w') = create_text file_name w in
      let (wrote, w'') = write_string file_name dhparam w' in
      if not (is_local ngxc.cfg_type)
      then elim created [
        | halt stop ↦ ((file_name, some ("Couldn't create file " ⧺ file_name)), w')
        | done _ ↦ elim wrote [
          | halt stop ↦ ((file_name, some ("Couldn't write to pem file " ⧺ file_name)), w'')
          | done _ ↦ ((file_name, none), w'')
        ]
      ]
      else ((file_name, none), w)
