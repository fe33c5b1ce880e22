-- ===== src/Controller/Services.antt =====
-- What syncServices of controller.go does for a managed service, for one that is not managed, and
-- for one that is gone.
use lbex.Prelude.{
  String, ◌≡◌, refl, sym, subst, ◌∙◌, ap, inl, inr, true, false, not, ◌&&◌, Option, none, some,
  List, [], ◌∷◌, map, ◌==◌, eq_iff, arith, Elem, Elem-append, Elem-map, Bool-cases, if◌then◌else◌,
}
use Prim.Native.String.{◌++◌ as ◌⧺◌}
use lbex.Prelude.Dict.{get}
use lbex.Runtime.{Runtime}
use lbex.Outcome.{Outcome, done}
use lbex.Client.{Client, found, absent}
use lbex.Config.{Config}
use lbex.K8s.{v1_service, text, V1Service, V1ServicePort}
use lbex.Service.{Endpoint, Service, validate_service_object_type}
use lbex.Topology.{get_endpoints, get_service_network_topo}
use lbex.Topology.Managed.{done-injective}
use lbex.Topology.Result.{IsManaged, topo_complete, topo_unmanaged}
use lbex.Nginx.{ServiceSpec, StreamNginxConfig}
use lbex.Nginx.Control.{Os, is_local, get_stream_config_file_name, stream_conf, stream_cfg}
use lbex.Generate.{generate_stream_nginx_config}
use lbex.Generate.Result.{IsConsistent, generate-IsConsistent, generate-serves}
use lbex.Publish.{has_stream, delete_configuration}
use lbex.Publish.Laws.{
  IsPublished, IsWritable, add_or_update_service-IsPublished, add_or_update_service-ends,
  delete_configuration_lem,
}
use lbex.Queue.{WorkQueue}
use lbex.Controller.{
  LbExController, Stores, conf_name, target_of, targets_of, service_spec, drop_error, sync_topo,
  sync_service, sync_service_key, sync_services,
}
use lbex.Controller.Served.{IsServed, Serves-Reaches, upstream_name-spec}
use lbex.Controller.Names.{conf_name-ne}

-- The targets of a service are the endpoints of its topology's entries.
pub targets_of_complete :
    (topo : List Service) (t : Service) (e : Endpoint)
    → Elem t topo
    → Elem e t.endpoints
    → Elem (target_of e) (targets_of topo)
unfolding targets_of
targets_of_complete [] t e h k = absurd h
targets_of_complete (s ∷ topo) t e (inl same) k =
    Elem-append (target_of e) (map target_of s.endpoints) (targets_of topo)
      (inl (Elem-map target_of e s.endpoints (subst (λ (v : Service). Elem e v.endpoints) same k)))
targets_of_complete (s ∷ topo) t e (inr there) k =
    Elem-append (target_of e) (map target_of s.endpoints) (targets_of topo)
      (inr (targets_of_complete topo t e there k))

module _ {Q : Type 0} (wq : WorkQueue Q) (rt : Runtime) (os : Os) (c : Client) (cfg : Config)
    (stores : Stores) (key : String) (ctl : LbExController Q) where
  abbrev topo_of_key : Outcome (List Service)
  topo_of_key = get_service_network_topo rt c cfg stores.services_store stores.endpoint_store key

  found-sync :
      (s : V1Service)
      → wq.shutting_down ctl.services_queue ≡ false
      → stores.services_store.get_by_key key ≡ found (v1_service s)
      → sync_services wq rt os c cfg stores (text key) ctl
        ≡ sync_topo wq rt os c cfg stores key s topo_of_key ctl
  unfolding sync_services sync_service_key sync_service validate_service_object_type
  found-sync s running held = rw (running, held, sync_service_key) refl

  -- For a managed service whose topology is found and not empty, while the queue runs, in a
  -- controller for streams that can write its files, syncServices ends without an error and
  -- publishes its specification; the queue of services is left as it is.
  pub sync_services-managed :
      (s : V1Service) (t : Service) (topo : List Service)
      → wq.shutting_down ctl.services_queue ≡ false
      → IsManaged cfg stores.services_store key s
      → topo_of_key ≡ done (t ∷ topo)
      → has_stream ctl.cfgtor.ngxc.cfg_type ≡ true
      → IsWritable os
      → (ctl' : LbExController Q) × (sync_services wq rt os c cfg stores (text key) ctl
          ≡ (done none, ctl'))
        × IsPublished rt os (service_spec key s (t ∷ topo)) ctl.cfgtor ctl'.cfgtor
        × (ctl'.services_queue ≡ ctl.services_queue)
  unfolding sync_topo drop_error
  sync_services-managed s t topo running managed e h writable =
      elim (add_or_update_service-ends rt os (service_spec key s (t ∷ topo)) ctl.cfgtor writable) [
        | inl (streams, (st', ended)) ↦ (
          record ctl { cfgtor = st' },
          found-sync s running managed.held
              ∙ (ap (λ o. sync_topo wq rt os c cfg stores key s o ctl) e
                  ∙ ap (drop_error wq rt os c cfg stores ctl) ended),
          (add_or_update_service-IsPublished rt os (service_spec key s (t ∷ topo)) ctl.cfgtor st'
              none h ended).1,
          refl,
        )
        | inr (no_streams, (err, refused)) ↦ cc
      ]

  -- For a managed service whose topology is found and not empty, while the queue runs, in a
  -- controller for streams that can write its files: syncServices ends without an error and leaves
  -- the queue of services as it is; and the file of the service then holds a consistent
  -- configuration, in which for each endpoint of each port of the service there is an upstream of
  -- its name with a server at each address for it: that of its pod or of the cluster, if the service
  -- asks for that, and otherwise that of its node, if the cache has it, or those of all nodes.
  pub sync_services-serves :
      (s : V1Service) (t : Service) (topo : List Service)
      → wq.shutting_down ctl.services_queue ≡ false
      → IsManaged cfg stores.services_store key s
      → topo_of_key ≡ done (t ∷ topo)
      → has_stream ctl.cfgtor.ngxc.cfg_type ≡ true
      → IsWritable os
      → (ctl' : LbExController Q) × (sync_services wq rt os c cfg stores (text key) ctl
          ≡ (done none, ctl'))
        × (ctl'.services_queue ≡ ctl.services_queue)
        × (config : StreamNginxConfig) × (get
              (get_stream_config_file_name ctl.cfgtor.ngxc (conf_name key))
              ctl'.cfgtor.world.files
            ≡ some (stream_conf config))
        × IsConsistent (service_spec key s (t ∷ topo)) config
        × ((p : V1ServicePort) (e : Endpoint) (es : List Endpoint)
            → Elem p s.ports
            → get_endpoints c stores.endpoint_store s p ≡ done (e ∷ es)
            → IsServed ctl.cfgtor.nodes s (e ∷ es) config)
  unfolding service_spec
  sync_services-serves s t topo running managed h streams writable =
      let (ctl', ended, published, same) =
        sync_services-managed s t topo running managed h streams writable in
      (
        ctl',
        ended,
        same,
        (generate_stream_nginx_config rt spec ctl.cfgtor).0,
        published.file,
        generate-IsConsistent rt spec ctl.cfgtor,
        λ p e es p_there some_endpoint e' e_there.
            let (t', t_there, target) =
              topo_complete rt c cfg stores.endpoint_store stores.services_store key s (t ∷ topo) p
                e es managed h p_there some_endpoint in
            let (u, u_there, named, complete) = generate-serves rt spec ctl.cfgtor (target_of e') (
              targets_of_complete (t ∷ topo) t' e' t_there (
                subst (Elem e') (done-injective (sym some_endpoint ∙ target.endpoints)) e_there)) in
            (
              u,
              u_there,
              named ∙ upstream_name-spec key s (t ∷ topo) e',
              λ address serves.
                  complete address
                    (Serves-Reaches key s (t ∷ topo) ctl.cfgtor.nodes e' address serves),
            ),
      )
    where
      spec : ServiceSpec
      spec = service_spec key s (t ∷ topo)

  -- A service of the store whose topology is empty is left alone.
  pub sync_services-empty :
      (s : V1Service)
      → stores.services_store.get_by_key key ≡ found (v1_service s)
      → topo_of_key ≡ done []
      → sync_services wq rt os c cfg stores (text key) ctl ≡ (done none, ctl)
  unfolding sync_services sync_topo
  sync_services-empty s held e = elim (Bool-cases (wq.shutting_down ctl.services_queue)) [
    | inl stopped ↦ rw (stopped, sync_services) refl
    | inr running ↦
        found-sync s running held ∙ ap (λ o. sync_topo wq rt os c cfg stores key s o ctl) e
  ]

  -- A service of the store that is not managed, for instance one that was managed before, is left
  -- alone: the state and so its file stay as they are.
  pub sync_services-unmanaged :
      (s : V1Service)
      → stores.services_store.get_by_key key ≡ found (v1_service s)
      → ¬ (IsManaged cfg stores.services_store key s)
      → sync_services wq rt os c cfg stores (text key) ctl ≡ (done none, ctl)
  sync_services-unmanaged s held unmanaged =
      sync_services-empty s held
        (topo_unmanaged rt c cfg stores.endpoint_store stores.services_store key s held unmanaged)

  -- When a service is gone from the store, while the queue runs, syncServices removes its file, if
  -- the system lets it, and keeps the files of every other configuration name.
  pub sync_services-gone :
      wq.shutting_down ctl.services_queue ≡ false
      → stores.services_store.get_by_key key ≡ absent
      → (ctl' : LbExController Q) × (sync_services wq rt os c cfg stores (text key) ctl
          ≡ (done none, ctl'))
        × ((file : String)
            → get file ctl'.cfgtor.world.files ≡ (
                if (get_stream_config_file_name ctl.cfgtor.ngxc (conf_name key) == file)
                  && (not (is_local ctl.cfgtor.ngxc.cfg_type)
                      && os.can_remove ctl.cfgtor.world file)
                then none
                else get file ctl.cfgtor.world.files))
  unfolding sync_services sync_service_key
  sync_services-gone running gone = (
    record ctl { cfgtor = delete_configuration os (conf_name key) stream_cfg ctl.cfgtor },
    rw (running, gone, sync_service_key) refl,
    (delete_configuration_lem os (conf_name key) ctl.cfgtor).0,
  )

-- The nodes and the targets that the Configurator records for a service under its key outlive the service: when it
-- is gone from the store, while the queue runs, syncServices leaves them as they are, since it
-- deletes what is recorded under the configuration name, which is never the key.
pub sync_services-leaks :
    {Q : Type 0} (wq : WorkQueue Q) (rt : Runtime) (os : Os) (c : Client) (cfg : Config)
    (stores : Stores) (namespace name : String) (ctl : LbExController Q)
    → wq.shutting_down ctl.services_queue ≡ false
    → stores.services_store.get_by_key (namespace ⧺ "/" ⧺ name) ≡ absent
    → let ctl' = (sync_services wq rt os c cfg stores (text (namespace ⧺ "/" ⧺ name)) ctl).1 in
      (get (namespace ⧺ "/" ⧺ name) ctl'.cfgtor.service_upstream_nodes
        ≡ get (namespace ⧺ "/" ⧺ name) ctl.cfgtor.service_upstream_nodes)
      × (get (namespace ⧺ "/" ⧺ name) ctl'.cfgtor.service_upstream_target
          ≡ get (namespace ⧺ "/" ⧺ name) ctl.cfgtor.service_upstream_target)
unfolding sync_services sync_service_key
sync_services-leaks wq rt os c cfg stores namespace name ctl running gone =
    let forgotten = delete_configuration_lem os (conf_name (namespace ⧺ "/" ⧺ name)) ctl.cfgtor in
    rw (running, gone, sync_service_key)
      (forgotten.1 (namespace ⧺ "/" ⧺ name) ∙ kept, forgotten.2 (namespace ⧺ "/" ⧺ name) ∙ kept)
  where
    kept :
        {A : Type 0} {recorded : Option A}
        → (if conf_name (namespace ⧺ "/" ⧺ name) == (namespace ⧺ "/" ⧺ name)
            then none
            else recorded)
          ≡ recorded
    kept = ground (
      arith,
      eq_iff (conf_name (namespace ⧺ "/" ⧺ name)) (namespace ⧺ "/" ⧺ name),
      conf_name-ne namespace name,
    )
