-- ===== src/Publish/Stored.antt =====
-- The stream configuration files that the operations of the Configurator leave.
use lbex.Prelude.{
  String, List, [], ◌≡◌, refl, sym, ◌∙◌, ap, subst, inl, inr, ◌⊎◌, Bool, true, false, Option, none,
  some, not, String-cases, if◌then◌else◌, ◌==◌, ◌&&◌, arith,
}
use lbex.Prelude.Dict.{Dict, get, put, get-put}
use lbex.Outcome.{Outcome, done, halt}
use lbex.Runtime.{Runtime}
use lbex.Nginx.{Node, ServiceSpec, StreamNginxConfig}
use lbex.Nginx.Control.{
  Content, stream_conf, broken, World, Os, NginxController, get_stream_config_file_name, is_local,
  stream_cfg, add_or_update_stream, reload,
}
use lbex.Nginx.Control.Laws.{reload_lem}
use lbex.Configurator.{State, add_or_update_node, delete_node}
use lbex.Configurator.Nodes.{get-add_or_update_node}
use lbex.Generate.{generate_stream_nginx_config}
use lbex.Generate.Frame.{IsFramed, generate-IsFramed}
use lbex.Generate.Result.{IsConsistent, generate-IsConsistent}
use lbex.Publish.{has_stream, reload_after, add_or_update_service, delete_configuration}
use lbex.Publish.Laws.{delete_configuration_lem}

-- Each file with a stream configuration has the name and a consistent configuration of some service.
abbrev pub IsStored : State → Type 0
IsStored st =
    (file : String) (config : StreamNginxConfig)
    → get file st.world.files ≡ some (stream_conf config)
    → (svc : ServiceSpec) × IsConsistent svc config
      × (get_stream_config_file_name st.ngxc svc.config_name ≡ file)

-- The files that AddOrUpdateStream leaves, however it ends: those before, or those before with the
-- file of its name, which holds the configuration or is broken.
add_or_update_stream-files :
    (os : Os) (ngxc : NginxController) (name : String) (config : StreamNginxConfig) (w : World)
    → let after = (add_or_update_stream os ngxc name config w).1.files in
      let file = get_stream_config_file_name ngxc name in
      (after ≡ w.files)
      ⊎ (after ≡ put file broken w.files)
      ⊎ (after ≡ put file (stream_conf config) w.files)
unfolding add_or_update_stream
add_or_update_stream-files os ngxc name config w = ground arith

put-inv :
    (name file : String) (content : Content) (c : StreamNginxConfig) (files : Dict Content)
    → get file (put name content files) ≡ some (stream_conf c)
    → (get file files ≡ some (stream_conf c)) ⊎ ((name ≡ file) × (content ≡ stream_conf c))
put-inv name file content c files h = elim (String-cases name file) [
  | inl (e, same) ↦ inr (e, ground (arith, get-put name file content files))
  | inr (ne, other) ↦ inl (ground (arith, get-put name file content files))
]

-- What stands in a file with a stream configuration after AddOrUpdateStream: what stood there before,
-- or the configuration that is written, under its name.
add_or_update_stream-inv :
    (os : Os) (ngxc : NginxController) (name : String) (config c : StreamNginxConfig) (w : World)
    (file : String)
    → get file (add_or_update_stream os ngxc name config w).1.files ≡ some (stream_conf c)
    → (get file w.files ≡ some (stream_conf c))
      ⊎ ((get_stream_config_file_name ngxc name ≡ file) × (config ≡ c))
add_or_update_stream-inv os ngxc name config c w file h =
    let own = get_stream_config_file_name ngxc name in
    elim (add_or_update_stream-files os ngxc name config w) [
      | inl e ↦ inl (ap (get file) (sym e) ∙ h)
      | inr (inl e) ↦ elim (put-inv own file broken c w.files (ap (get file) (sym e) ∙ h)) [
        | inl before ↦ inl before
        | inr (named, unlike) ↦ cc
      ]
      | inr (inr e) ↦
          elim (put-inv own file (stream_conf config) c w.files (ap (get file) (sym e) ∙ h)) [
            | inl before ↦ inl before
            | inr (named, same) ↦ inr (named, cc)
          ]
    ]

found :
    {A : Type 0} (removed : Bool) {o : Option A} {a : A}
    → (if removed then none else o) ≡ some a
    → o ≡ some a
found true h = cc
found false h = h

module _ (os : Os) where
  -- The state only moves to a world with these files.
  moved-IsStored :
      (st st' : State)
      → st'.ngxc ≡ st.ngxc
      → st'.world.files ≡ st.world.files
      → IsStored st
      → IsStored st'
  moved-IsStored st st' ngxc files stored file config h =
      let (svc, consistent, named) = stored file config (ap (get file) (sym files) ∙ h) in
      (
        svc,
        consistent,
        ap (λ (n : NginxController). get_stream_config_file_name n svc.config_name) ngxc ∙ named,
      )

  pub node-IsStored :
      (rt : Runtime) (st : State) (node : Node)
      → IsStored st
      → IsStored (add_or_update_node rt st node).1
  node-IsStored rt st node stored =
      let kept = get-add_or_update_node rt st node in
      moved-IsStored st (add_or_update_node rt st node).1 kept.3
        (ap (λ (w : World). w.files) kept.4) stored

  pub gone-IsStored :
      (rt : Runtime) (st : State) (key : String) → IsStored st → IsStored (delete_node rt st key).1
  unfolding delete_node
  gone-IsStored rt st key stored = by_cached (get key st.nodes)
    where
      by_cached :
          (o : Option Node)
          → IsStored
              (elim o as (λ x. List String × State) [
                | some node ↦ add_or_update_node rt st (record node { active = false })
                | none ↦ ([], st)
              ]).1
      by_cached none = stored
      by_cached (some node) = node-IsStored rt st (record node { active = false }) stored

  reload_after-IsStored :
      (st : State) (r : Outcome {0} Unit × World)
      → IsStored (record st { world = r.1 })
      → IsStored (reload_after os st r).1
  unfolding reload_after
  reload_after-IsStored st (done written, w) stored =
      moved-IsStored (record st { world = w }) (record st { world = (reload os st.ngxc w).1 }) refl
        (reload_lem os st.ngxc w).1 stored
  reload_after-IsStored st (halt stop, w) stored = stored

  pub service-IsStored :
      (rt : Runtime) (svc : ServiceSpec) (st : State)
      → IsStored st
      → IsStored (add_or_update_service os rt svc st).1
  unfolding add_or_update_service
  service-IsStored rt svc st stored = by_type (has_stream st.ngxc.cfg_type)
    where
      config : StreamNginxConfig
      config = (generate_stream_nginx_config rt svc st).0

      after : State
      after = (generate_stream_nginx_config rt svc st).1

      framed : IsFramed svc.key st after
      framed = generate-IsFramed rt svc st

      run : Outcome {0} Unit × World
      run = add_or_update_stream os st.ngxc svc.config_name config after.world

      written-IsStored : IsStored (record after { world = run.1 })
      written-IsStored file c h =
          elim (add_or_update_stream-inv os st.ngxc svc.config_name config c after.world file h) [
            | inl before ↦
                moved-IsStored st after framed.ngxc (ap (λ (w : World). w.files) framed.world)
                  stored file c before
            | inr (named, same) ↦ (
              svc,
              subst (IsConsistent svc) same (generate-IsConsistent rt svc st),
              ap (λ (n : NginxController). get_stream_config_file_name n svc.config_name)
                    framed.ngxc
                  ∙ named,
            )
          ]

      by_type :
          (b : Bool)
          → IsStored
              (if not b
                then (
                  done (some "addOrUpdateService: I'm sorry Dave, I'm afraid I can't do that"),
                  st,
                )
                else reload_after os after run).1
      by_type false = stored
      by_type true = reload_after-IsStored after run written-IsStored

  pub configuration-IsStored :
      (name : String) (st : State)
      → IsStored st
      → IsStored (delete_configuration os name stream_cfg st)
  unfolding delete_configuration
  configuration-IsStored name st stored file config h =
      let (svc, consistent, named) = stored file config before in
      (svc, consistent, same_name svc ∙ named)
    where
      before : get file st.world.files ≡ some (stream_conf config)
      before =
          found
            ((get_stream_config_file_name st.ngxc name == file)
              && (not (is_local st.ngxc.cfg_type) && os.can_remove st.world file))
            (sym ((delete_configuration_lem os name st).0 file) ∙ h)

      same_name :
          (svc : ServiceSpec)
          → get_stream_config_file_name
              (delete_configuration os name stream_cfg st).ngxc
              svc.config_name
            ≡ get_stream_config_file_name st.ngxc svc.config_name
      same_name svc = refl
