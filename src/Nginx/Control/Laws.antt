-- ===== src/Nginx/Control/Laws.antt =====
-- What the operations of nginx/nginx.go and nginx/stream.go do to the files and which commands they
-- run.
use mathlib.Core.List.{append_assoc, append-nil}
use lbex.Prelude.{
  String, ◌≡◌, ◌≢◌, not, ◌&&◌, Option, none, some, List, [], ◌∷◌, ◌++◌, arith, ◌==◌, eq_iff,
  if◌then◌else◌,
}
use lbex.Prelude.Dict.{get, get-put, get-delete}
use lbex.Outcome.{done}
use lbex.Nginx.{StreamNginxConfig}
use lbex.Nginx.Control.{
  is_local, Content, stream_conf, broken, World, Os, NginxController, get_stream_config_file_name,
  add_or_update_stream, delete_stream_configuration, shell_out, reload,
}

-- What a call that ends leaves as the file of a name.
abbrev pub written : NginxController → StreamNginxConfig → Option Content → Option Content
written ngxc config before = if is_local ngxc.cfg_type then before else some (stream_conf config)

-- When AddOrUpdateStream ends, the file of its name holds the configuration (with a local
-- configuration type: what it held before), and no other file and no command is touched.
pub add_or_update_stream_lem :
    (os : Os) (ngxc : NginxController) (name : String) (config : StreamNginxConfig) (w w' : World)
    → add_or_update_stream os ngxc name config w ≡ (done tt, w')
    → ((file : String)
        → get file w'.files ≡ (
            if get_stream_config_file_name ngxc name == file
            then written ngxc config (get file w.files)
            else get file w.files))
      × (w'.commands ≡ w.commands)
unfolding add_or_update_stream
add_or_update_stream_lem os ngxc name config w w' h = (
  λ file.
      ground
        (arith, get-put (get_stream_config_file_name ngxc name) file (stream_conf config) w.files),
  ground arith,
)

-- Whatever the operating system answers, AddOrUpdateStream never touches the file of another name.
pub add_or_update_stream-other :
    (os : Os) (ngxc : NginxController) (name : String) (config : StreamNginxConfig) (w : World)
    (file : String)
    → get_stream_config_file_name ngxc name ≢ file
    → get file (add_or_update_stream os ngxc name config w).1.files ≡ get file w.files
unfolding add_or_update_stream
add_or_update_stream-other os ngxc name config w file h = ground (
  arith,
  eq_iff (get_stream_config_file_name ngxc name) file,
  get-put (get_stream_config_file_name ngxc name) file (stream_conf config) w.files,
  get-put (get_stream_config_file_name ngxc name) file broken w.files,
)

-- DeleteStreamConfiguration removes the file of its name, if it is allowed to, and no other.
pub delete_stream_configuration_lem :
    (os : Os) (ngxc : NginxController) (name : String) (w : World)
    → ((file : String)
        → get file (delete_stream_configuration os ngxc name w).files ≡ (
            if (get_stream_config_file_name ngxc name == file)
              && (not (is_local ngxc.cfg_type) && os.can_remove w file)
            then none
            else get file w.files))
      × ((delete_stream_configuration os ngxc name w).commands ≡ w.commands)
unfolding delete_stream_configuration
delete_stream_configuration_lem os ngxc name w = (
  λ file. ground (
    arith,
    eq_iff (get_stream_config_file_name ngxc name) file,
    get-delete (get_stream_config_file_name ngxc name) file w.files,
  ),
  ground arith,
)

-- The commands that Reload runs, by the answer to the test of the configuration.
abbrev pub reload_commands : NginxController → Option String → List String
reload_commands ngxc err =
    if is_local ngxc.cfg_type
    then []
    else elim err [ some e ↦ "nginx -t" ∷ [] | none ↦ "nginx -t" ∷ "nginx -s reload" ∷ [] ]

-- Reload tests the configuration first, and tells NGINX to load it only if the test finds no fault;
-- with a local configuration type it runs nothing. It touches no file.
pub reload_lem :
    (os : Os) (ngxc : NginxController) (w : World)
    → ((reload os ngxc w).1.commands
        ≡ w.commands ++ reload_commands ngxc (os.shell_error w "nginx -t"))
      × ((reload os ngxc w).1.files ≡ w.files)
unfolding reload shell_out is_local
reload_lem os ngxc w = (
  ground (
    arith,
    append-nil w.commands,
    append_assoc w.commands ("nginx -t" ∷ []) ("nginx -s reload" ∷ []),
  ),
  ground arith,
)
