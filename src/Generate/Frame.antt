-- ===== src/Generate/Frame.antt =====
-- What the generation of a configuration leaves as it is in the state of the Configurator.
use lbex.Prelude.{String, ◌≡◌, refl, ◌∙◌, ◌≢◌, List, [], ◌∷◌, arith, eq_iff}
use lbex.Prelude.Dict.{get, put, get-delete}
use lbex.Runtime.{Runtime, after_range}
use lbex.Nginx.{Target, ServiceSpec}
use lbex.Configurator.{State}
use lbex.Streams.{
  host_upstream, all_upstream, set_upstream_nodes, add_upstream_target, create_stream_upstream,
}
use lbex.Generate.{Draft, draft, generate_stream_nginx_config}

-- From the first state to the second, only what is recorded for the key may change.
pub record IsFramed (key : String) (st st' : State) : Type 0 where
  pub nodes : st'.nodes ≡ st.nodes
  pub ngxc : st'.ngxc ≡ st.ngxc
  pub world : st'.world ≡ st.world
  pub config : st'.config ≡ st.config
  pub other_nodes :
      (k : String) → key ≢ k → get k st'.service_upstream_nodes ≡ get k st.service_upstream_nodes
  pub other_target :
      (k : String) → key ≢ k → get k st'.service_upstream_target ≡ get k st.service_upstream_target

IsFramed-trans :
    (key : String) (st st' st'' : State)
    → IsFramed key st st'
    → IsFramed key st' st''
    → IsFramed key st st''
IsFramed-trans key st st' st'' f g = record {
  nodes = g.nodes ∙ f.nodes;
  ngxc = g.ngxc ∙ f.ngxc;
  world = g.world ∙ f.world;
  config = g.config ∙ f.config;
  other_nodes = λ k h. g.other_nodes k h ∙ f.other_nodes k h;
  other_target = λ k h. g.other_target k h ∙ f.other_target k h;
}

create_stream_upstream-IsFramed :
    (rt : Runtime) (svc : ServiceSpec) (target : Target) (st : State)
    → IsFramed svc.key st (create_stream_upstream rt svc target st).1
unfolding create_stream_upstream host_upstream all_upstream set_upstream_nodes add_upstream_target
    get put
create_stream_upstream-IsFramed rt svc target st = record {
  nodes = ground arith;
  ngxc = ground arith;
  world = ground arith;
  config = ground arith;
  other_nodes =
      λ k h. ground (arith, eq_iff svc.key k, get-delete svc.key k st.service_upstream_nodes);
  other_target =
      λ k h. ground (arith, eq_iff svc.key k, get-delete svc.key k st.service_upstream_target);
}

draft-IsFramed :
    (rt : Runtime) (svc : ServiceSpec) (ts : List Target) (d : Draft) (st st' : State)
    → IsFramed svc.key st st'
    → IsFramed svc.key st (draft rt svc ts d st').1
unfolding draft
draft-IsFramed rt svc [] d st st' h = h
draft-IsFramed rt svc (t ∷ ts) d st st' h =
    draft-IsFramed (after_range rt) svc ts _ st (create_stream_upstream rt svc t st').1 (
      IsFramed-trans svc.key st st' (create_stream_upstream rt svc t st').1 h
        (create_stream_upstream-IsFramed rt svc t st'))

-- Generating the configuration of a service leaves the cache of nodes, the files, the controller of
-- NGINX, the settings for HTTP and what is recorded for every other service as they are.
pub generate-IsFramed :
    (rt : Runtime) (svc : ServiceSpec) (st : State)
    → IsFramed svc.key st (generate_stream_nginx_config rt svc st).1
unfolding generate_stream_nginx_config
generate-IsFramed rt svc st = draft-IsFramed rt svc svc.topology _ st st (record {
  nodes = refl;
  ngxc = refl;
  world = refl;
  config = refl;
  other_nodes = λ k h. refl;
  other_target = λ k h. refl;
})
