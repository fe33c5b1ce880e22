-- ===== src/Publish/Laws.antt =====
-- What AddOrUpdateService and DeleteConfiguration of nginx/configurator.go make of the files and of
-- the state.
use lbex.Prelude.{
  String, ◌≡◌, refl, sym, subst, ◌∙◌, ap, ◌≢◌, true, false, not, ◌&&◌, Option, none, some, ◌++◌,
  arith, ◌==◌, eq_iff, eq_refl, Bool-cases, ◌⊎◌, inl, inr, if◌then◌else◌,
}
use lbex.Prelude.Dict.{get, put, get-delete}
use lbex.Outcome.{Outcome, done, halt}
use lbex.Runtime.{Runtime}
use lbex.Nginx.{ServiceSpec, StreamNginxConfig}
use lbex.Nginx.Control.{
  Configuration, local_cfg, http_cfg, unknown_cfg, stream_cfg, stream_http_cfg, stream_conf, World,
  Os, NginxController, is_local, get_stream_config_file_name, add_or_update_stream,
  delete_stream_configuration, reload,
}
use lbex.Nginx.Control.Laws.{
  written, add_or_update_stream_lem, delete_stream_configuration_lem, reload_commands, reload_lem,
}
use lbex.Configurator.{State}
use lbex.Generate.{generate_stream_nginx_config}
use lbex.Generate.Frame.{IsFramed, generate-IsFramed}
use lbex.Publish.{
  has_stream, reload_after, add_or_update_service, delete_files, delete_configuration,
}

has_stream-not_local : (c : Configuration) → has_stream c ≡ true → is_local c ≡ false
unfolding has_stream is_local
has_stream-not_local local_cfg h = cc
has_stream-not_local stream_cfg h = refl
has_stream-not_local http_cfg h = refl
has_stream-not_local stream_http_cfg h = refl
has_stream-not_local unknown_cfg h = refl

-- What holds of the state after a service is published, against the state before.
pub record IsPublished (rt : Runtime) (os : Os) (svc : ServiceSpec) (st st' : State) : Type 0 where
  pub file :
      get (get_stream_config_file_name st.ngxc svc.config_name) st'.world.files
      ≡ some (stream_conf (generate_stream_nginx_config rt svc st).0)
  pub other_files :
      (name : String)
      → get_stream_config_file_name st.ngxc svc.config_name ≢ name
      → get name st'.world.files ≡ get name st.world.files
  pub commands :
      (w : World) × (w.files ≡ st'.world.files)
      × (w.commands ≡ st.world.commands)
      × (st'.world.commands
          ≡ st.world.commands ++ reload_commands st.ngxc (os.shell_error w "nginx -t"))
  pub nodes : st'.nodes ≡ st.nodes

module _ (rt : Runtime) (os : Os) (svc : ServiceSpec) (st st' : State) where
  abbrev file_name : String
  file_name = get_stream_config_file_name st.ngxc svc.config_name

  abbrev generated : State
  generated = (generate_stream_nginx_config rt svc st).1

  abbrev framed : IsFramed svc.key st generated
  framed = generate-IsFramed rt svc st

  published :
      (w : World)
      → has_stream st.ngxc.cfg_type ≡ true
      → add_or_update_stream os st.ngxc svc.config_name
          (generate_stream_nginx_config rt svc st).0
          generated.world
        ≡ (done tt, w)
      → (record generated { world = (reload os generated.ngxc w).1 }) ≡ st'
      → IsPublished rt os svc st st'
  published w h e same = subst (IsPublished rt os svc st) same (record {
    file = ap (get file_name) kept ∙ here;
    other_files = λ name ne.
        ap (get name) kept ∙ (elsewhere name ne ∙ ap (λ v. get name v.files) framed.world);
    commands = (
      w,
      sym kept,
      same_commands,
      (reload_lem os generated.ngxc w).0
          ∙ (ap (λ c. c ++ reload_commands generated.ngxc (os.shell_error w "nginx -t"))
                same_commands
              ∙ ap
                  (λ (n : NginxController).
                    st.world.commands ++ reload_commands n (os.shell_error w "nginx -t"))
                  framed.ngxc),
    );
    nodes = framed.nodes;
  })
    where
      kept : (reload os generated.ngxc w).1.files ≡ w.files
      kept = (reload_lem os generated.ngxc w).1

      stored :
          ((file : String)
            → get file w.files ≡ (
                if file_name == file
                then written st.ngxc
                    (generate_stream_nginx_config rt svc st).0
                    (get file generated.world.files)
                else get file generated.world.files))
          × (w.commands ≡ generated.world.commands)
      stored =
          add_or_update_stream_lem os st.ngxc svc.config_name
            (generate_stream_nginx_config rt svc st).0 generated.world w e

      same_commands : w.commands ≡ st.world.commands
      same_commands = stored.1 ∙ ap (λ (v : World). v.commands) framed.world

      here : get file_name w.files ≡ some (stream_conf (generate_stream_nginx_config rt svc st).0)
      here =
          stored.0 file_name ∙ rw (eq_refl file_name, has_stream-not_local st.ngxc.cfg_type h) refl

      elsewhere :
          (name : String) → file_name ≢ name → get name w.files ≡ get name generated.world.files
      elsewhere name ne = stored.0 name ∙ ground (arith, eq_iff file_name name)

  -- When AddOrUpdateService ends, in a controller for streams: it reports no error, the service's
  -- file holds its generated configuration, NGINX is told to load it if it accepts it, and every
  -- other file and the cache of nodes is as before.
  pub add_or_update_service-IsPublished :
      (err : Option String)
      → has_stream st.ngxc.cfg_type ≡ true
      → add_or_update_service os rt svc st ≡ (done err, st')
      → (err ≡ none) × IsPublished rt os svc st st'
  unfolding add_or_update_service
  add_or_update_service-IsPublished err h e =
      by_written
        (add_or_update_stream os st.ngxc svc.config_name (generate_stream_nginx_config rt svc st).0
          generated.world)
        refl (if_true h ∙ e)
    where
      if_true :
          has_stream st.ngxc.cfg_type ≡ true
          → reload_after os generated (
              add_or_update_stream os st.ngxc svc.config_name
                (generate_stream_nginx_config rt svc st).0
                generated.world)
            ≡ add_or_update_service os rt svc st
      if_true h = rw (h, add_or_update_service)

      by_written :
          (r : Outcome {0} Unit × World)
          → add_or_update_stream os st.ngxc svc.config_name
              (generate_stream_nginx_config rt svc st).0
              generated.world
            ≡ r
          → reload_after os generated r ≡ (done err, st')
          → (err ≡ none) × IsPublished rt os svc st st'
      by_written (done written, w) f g = (cc, published w h f cc)
      by_written (halt stop, w) f g = cc

-- DeleteConfiguration for a stream removes the file of its name, if the system lets it, and keeps
-- every other file; it forgets what is recorded under that name, and keeps what is recorded under
-- any other, and the cache of nodes.
pub delete_configuration_lem :
    (os : Os) (name : String) (st : State)
    → ((file : String)
        → get file (delete_configuration os name stream_cfg st).world.files ≡ (
            if (get_stream_config_file_name st.ngxc name == file)
              && (not (is_local st.ngxc.cfg_type) && os.can_remove st.world file)
            then none
            else get file st.world.files))
      × ((key : String)
          → get key (delete_configuration os name stream_cfg st).service_upstream_nodes
            ≡ (if name == key then none else get key st.service_upstream_nodes))
      × ((key : String)
          → get key (delete_configuration os name stream_cfg st).service_upstream_target
            ≡ (if name == key then none else get key st.service_upstream_target))
      × ((delete_configuration os name stream_cfg st).nodes ≡ st.nodes)
unfolding delete_configuration delete_files
delete_configuration_lem os name st = (
  λ file.
      ap (get file) (reload_lem os st.ngxc (delete_stream_configuration os st.ngxc name st.world)).1
      ∙ (delete_stream_configuration_lem os st.ngxc name st.world).0 file,
  λ key. get-delete name key st.service_upstream_nodes,
  λ key. get-delete name key st.service_upstream_target,
  refl,
)

-- The operating system lets the controller read its template and write its files.
pub record IsWritable (os : Os) : Type 0 where
  pub parses : (w : World) (file : String) → os.can_parse w file ≡ true
  pub creates : (w : World) (file : String) → os.can_create w file ≡ true
  pub executes : (w : World) (file : String) → os.can_execute w file ≡ true

-- Where the files can be written, AddOrUpdateService ends and never stops the process: without an
-- error in a controller for streams, and otherwise with one and without any effect.
pub add_or_update_service-ends :
    (rt : Runtime) (os : Os) (svc : ServiceSpec) (st : State)
    → IsWritable os
    → ((has_stream st.ngxc.cfg_type ≡ true)
        × ((st' : State) × (add_or_update_service os rt svc st ≡ (done none, st'))))
      ⊎ ((has_stream st.ngxc.cfg_type ≡ false)
          × ((err : String) × (add_or_update_service os rt svc st ≡ (done (some err), st))))
unfolding add_or_update_service
add_or_update_service-ends rt os svc st p = elim (Bool-cases (has_stream st.ngxc.cfg_type)) [
  | inl h ↦
      let (w, e) = stream_written svc.config_name config after.world in
      inl (
        h,
        (
          record after { world = (reload os after.ngxc w).1 },
          rw (h, e, add_or_update_service) refl,
        ),
      )
  | inr h ↦ inr (
    h,
    (
      "addOrUpdateService: I'm sorry Dave, I'm afraid I can't do that",
      rw (h, add_or_update_service) refl,
    ),
  )
]
  where
    config : StreamNginxConfig
    config = (generate_stream_nginx_config rt svc st).0

    after : State
    after = (generate_stream_nginx_config rt svc st).1

    stream_written :
        (name : String) (conf : StreamNginxConfig) (w : World)
        → (w' : World) × (add_or_update_stream os st.ngxc name conf w ≡ (done tt, w'))
    stream_written name conf w = elim (Bool-cases (is_local st.ngxc.cfg_type)) [
      | inl h ↦ (w, unfold add_or_update_stream in rw (p.parses, h) refl)
      | inr h ↦ (
        record w {
          files = put (get_stream_config_file_name st.ngxc name) (stream_conf conf) w.files;
        },
        unfold add_or_update_stream in rw (p.parses, h, p.creates, p.executes) refl,
      )
    ]
