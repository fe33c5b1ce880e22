-- ===== src/Configurator/Invariant.antt =====
-- The node cache of nginx/configurator.go: its invariant, and DeleteNode.
use lbex.Prelude.{
  String, ◌≡◌, sym, subst, ◌∙◌, ap, ◌≢◌, ◌↔◌, inl, inr, false, none, some, List, [], arith, ◌==◌,
  eq_iff, Elem, Option-cases, if◌then◌else◌,
}
use lbex.Prelude.Dict.{get, delete, get-put, get-delete, IsMap, put-IsMap, delete-IsMap}
use lbex.Runtime.{Runtime}
use lbex.Nginx.{Node}
use lbex.Configurator.{State, service_list_by_node_name, add_or_update_node, delete_node}
use lbex.Configurator.Nodes.{Uses, visit_iff}

-- The three maps are maps, and a node is cached under its own name.
pub record IsWellFormed (st : State) : Type 0 where
  pub nodes_map : IsMap st.nodes
  pub upstream_nodes_map : IsMap st.service_upstream_nodes
  pub upstream_target_map : IsMap st.service_upstream_target
  pub keyed : (key : String) (node : Node) → get key st.nodes ≡ some node → node.name ≡ key

-- AddOrUpdateNode keeps the state well formed.
pub add_or_update_node-IsWellFormed :
    (rt : Runtime) (st : State) (node : Node)
    → IsWellFormed st
    → IsWellFormed (add_or_update_node rt st node).1
unfolding add_or_update_node
add_or_update_node-IsWellFormed rt st node w = record {
  nodes_map = ground (
    arith,
    put-IsMap node.name node st.nodes w.nodes_map,
    delete-IsMap node.name st.nodes w.nodes_map,
  );
  upstream_nodes_map = ground arith;
  upstream_target_map = ground arith;
  keyed = λ key n h. ground (
    arith,
    get-put node.name key node st.nodes,
    get-delete node.name key st.nodes,
    eq_iff node.name key,
    w.keyed key n,
  );
}

inactive-update :
    (rt : Runtime) (st : State) (node old : Node)
    → get node.name st.nodes ≡ some old
    → add_or_update_node rt st (record node { active = false })
      ≡ (service_list_by_node_name rt st node.name, record st { nodes = delete node.name st.nodes })
unfolding add_or_update_node
inactive-update rt st node old h = rw (h, add_or_update_node)

delete_node-cached :
    (rt : Runtime) (st : State) (key : String) (node : Node)
    → get key st.nodes ≡ some node
    → delete_node rt st key ≡ add_or_update_node rt st (record node { active = false })
unfolding delete_node
delete_node-cached rt st key node h = rw (h, delete_node)

delete_node-known :
    (rt : Runtime) (st : State) (key : String) (node : Node)
    → get key st.nodes ≡ some node
    → node.name ≡ key
    → delete_node rt st key
      ≡ (service_list_by_node_name rt st key, record st { nodes = delete key st.nodes })
delete_node-known rt st key node h e =
    delete_node-cached rt st key node h
    ∙ (inactive-update rt st node node (ap (λ k. get k st.nodes) e ∙ h)
        ∙ ap (λ k. (service_list_by_node_name rt st k, record st { nodes = delete k st.nodes })) e)

delete_node-unknown :
    (rt : Runtime) (st : State) (key : String)
    → get key st.nodes ≡ none
    → delete_node rt st key ≡ ([], st)
unfolding delete_node
delete_node-unknown rt st key h = rw (h, delete_node)

-- In a well-formed state DeleteNode removes the node from the cache and leaves every other entry;
-- it reports the services that are recorded with a node of that name, if the cache had the node,
-- and none otherwise.
pub delete_node_lem :
    (rt : Runtime) (st : State) (key : String)
    → IsWellFormed st
    → ((j : String)
        → get j (delete_node rt st key).1.nodes ≡ (if key == j then none else get j st.nodes))
      × ((svc : String)
          → Elem svc (delete_node rt st key).0
            ↔ ((get key st.nodes ≢ none) × Uses st (λ n. n.name == key) svc))
delete_node_lem rt st key w = elim (Option-cases (get key st.nodes)) [
  | inl missing ↦ rw (delete_node-unknown rt st key missing) (
    λ j. ground (arith, eq_iff key j),
    λ svc. (λ h. absurd h, λ (known, h). absurd (known missing)),
  )
  | inr (node, cached) ↦ rw (delete_node-known rt st key node cached (w.keyed key node cached)) (
    λ j. get-delete key j st.nodes,
    λ svc.
        let (to, from) = visit_iff rt st (λ n. n.name == key) svc w.upstream_nodes_map in
        (
          λ h. (λ missing. cc, unfold service_list_by_node_name in to h),
          λ (known, h). unfold service_list_by_node_name in from h,
        ),
  )
]

-- DeleteNode keeps the state well formed.
pub delete_node-IsWellFormed :
    (rt : Runtime) (st : State) (key : String)
    → IsWellFormed st
    → IsWellFormed (delete_node rt st key).1
delete_node-IsWellFormed rt st key w = elim (Option-cases (get key st.nodes)) [
  | inl missing ↦ rw (delete_node-unknown rt st key missing) w
  | inr (node, cached) ↦
      subst (λ (r : List String × State). IsWellFormed r.1)
        (sym (delete_node-cached rt st key node cached))
        (add_or_update_node-IsWellFormed rt st (record node { active = false }) w)
]
