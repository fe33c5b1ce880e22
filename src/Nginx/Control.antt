-- ===== src/Nginx/Control.antt =====
-- nginx/nginx.go and the file operations of nginx/stream.go: the NGINX process and its
-- configuration files. `World` holds the files and the commands run so far; `Os` says what the
-- operating system and NGINX answer, and may answer differently in each world.
pub mod Laws
use lbex.Prelude.{
  String, Bool, true, false, not, Option, none, some, List, [], ◌∷◌, ◌++◌, if◌then◌else◌,
}
use Prim.Native.String.{◌++◌ as ◌⧺◌}
use lbex.Prelude.Dict.{Dict, get, put, delete}
use lbex.Outcome.{Outcome, done, halt, fatal}
use lbex.Nginx.{StreamNginxConfig}
use lbex.Nginx.Context.{NginxMainConfig}
use lbex.Nginx.Http.{HttpNginxConfig}

-- `Configuration` is a uint8 with four named values.
pub data Configuration : Type 0 where
  local_cfg stream_cfg http_cfg stream_http_cfg unknown_cfg : Configuration

unfoldable pub is_local : Configuration → Bool
is_local local_cfg = true
is_local _ = false

-- What a file holds: a template filled in with a configuration, a text, or what a failed write left.
-- The main configuration is a pointer in the source, and so an option here.
pub data Content : Type 0 where
  stream_conf : StreamNginxConfig → Content
  http_conf : HttpNginxConfig → Content
  main_conf : Option NginxMainConfig → Content
  pem : String → Content
  broken : Content

pub record World : Type 0 where
  pub files : Dict Content
  pub directories : List String
  pub commands : List String

pub record Os : Type 0 where
  pub can_parse : World → String → Bool
  pub can_create : World → String → Bool
  pub can_execute : World → String → Bool
  pub can_write : World → String → Bool
  pub can_make_dir : World → String → Bool
  pub can_remove : World → String → Bool
  pub shell_error : World → String → Option String

pub record NginxController : Type 0 where
  pub nginx_confd_path : String
  pub nginx_certs_path : String
  pub cfg_type : Configuration
  pub main_cfg : Option NginxMainConfig

-- An operation on the world that may end the process.
abbrev pub Act : Type 0 → Type 0
Act A = World → Outcome A × World

infixl 5 ◌>>=◌ ◌>>◌
abbrev pub ◌>>=◌ : {A B : Type 0} → Act A → (A → Act B) → Act B
◌>>=◌ m f w = let (r, w') = m w in elim r [ done a ↦ f a w' | halt stop ↦ (halt stop, w') ]

abbrev pub ◌>>◌ : {B : Type 0} → Act Unit → Act B → Act B
m >> n = m >>= λ _. n

abbrev pub pure : {A : Type 0} → A → Act A
pure a w = (done a, w)

-- glog.Fatalf
abbrev pub fail : {A : Type 0} → String → Act A
fail message w = (halt (fatal message), w)

-- path.Join of a directory and a name that holds no slash
unfoldable pub join_path : String → String → String
join_path dir name = dir ⧺ "/" ⧺ name

unfoldable pub get_stream_config_file_name : NginxController → String → String
unfolding join_path
get_stream_config_file_name ngxc name = join_path ngxc.nginx_confd_path (name ⧺ ".stream.conf")

module _ (os : Os) where
  -- os.Create, then Execute into the file
  unfoldable pub write_file : String → Content → Act Unit
  write_file filename content w =
      let opened = record w { files = put filename broken w.files } in
      let written = record w { files = put filename content w.files } in
      if not (os.can_create w filename)
      then (halt (fatal "failed to open file"), w)
      else if not (os.can_execute opened filename)
      then (halt (fatal "failed to write template"), opened)
      else (done tt, written)

  -- templateStream
  unfoldable pub template_stream : NginxController → StreamNginxConfig → String → Act Unit
  unfolding write_file is_local
  template_stream ngxc config filename w =
      if not (os.can_parse w "stream.tmpl")
      then (halt (fatal "failed to parse stream template file"), w)
      else if not (is_local ngxc.cfg_type)
      then write_file filename (stream_conf config) w
      else (done tt, w)

  -- AddOrUpdateStream
  unfoldable pub add_or_update_stream : NginxController → String → StreamNginxConfig → Act Unit
  unfolding template_stream get_stream_config_file_name
  add_or_update_stream ngxc name config =
      template_stream ngxc config (get_stream_config_file_name ngxc name)

  -- DeleteStreamConfiguration; a failed removal is only logged
  unfoldable pub delete_stream_configuration : NginxController → String → World → World
  unfolding get_stream_config_file_name is_local get delete
  delete_stream_configuration ngxc name w =
      let filename = get_stream_config_file_name ngxc name in
      if not (is_local ngxc.cfg_type)
      then (elim (get filename w.files) [
        | none ↦ w
        | some content ↦
            if os.can_remove w filename then record w { files = delete filename w.files } else w
      ])
      else w

  -- shellOut
  unfoldable pub shell_out : String → World → Option String × World
  shell_out cmd w = (os.shell_error w cmd, record w { commands = w.commands ++ cmd ∷ [] })

  -- Reload
  unfoldable pub reload : NginxController → World → Option String × World
  unfolding shell_out is_local
  reload ngxc w =
      if not (is_local ngxc.cfg_type)
      then (let (err, w') = shell_out "nginx -t" w in
          let (err', w'') = shell_out "nginx -s reload" w' in
          elim err [
            | some e ↦
                (some ("Reload: Invalid nginx configuration detected, not reloading: " ⧺ e), w')
            | none ↦ elim err' [
              | some e ↦ (some ("Reload: Reloading NGINX failed: " ⧺ e), w'')
              | none ↦ (none, w'')
            ]
          ])
      else (none, w)

  -- Start
  unfoldable pub start : NginxController → Act Unit
  unfolding shell_out is_local
  start ngxc w =
      let (err, w') = shell_out "nginx" w in
      if not (is_local ngxc.cfg_type)
      then (elim err [
        | some e ↦ (halt (fatal ("Failed to start nginx: " ⧺ e)), w')
        | none ↦ (done tt, w')
      ])
      else (done tt, w)
