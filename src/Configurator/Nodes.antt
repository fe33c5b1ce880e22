-- ===== src/Configurator/Nodes.antt =====
-- The node cache of nginx/configurator.go: what AddOrUpdateNode and DeleteNode do to it, and which
-- services they report as affected.
use mathlib.Core.List.Permᴰ
use lbex.Prelude.{
  String, ◌≡◌, refl, ap, ◌≢◌, ◌↔◌, ◌⊎◌, inl, inr, Bool, true, false, not, ◌||◌, Option, none, some,
  List, [], ◌∷◌, arith, ◌==◌, any, Elem, Elem-append, append-Elem, Elem-perm, String-cases,
  if◌then◌else◌,
}
use lbex.Prelude.Dict.{get, put, get-put, get-delete, IsMap, Elem-get, get-Elem}
use lbex.Runtime.{Runtime, after_range}
use lbex.Nginx.{Node}
use lbex.Configurator.{State, keys_where, update_node, add_or_update_node}

-- What the cache holds of a node after an update: a node that is new to the cache is kept whether it
-- is active or not; one that the cache has is replaced if it is active and removed if not.
abbrev pub node_after : Option Node → Node → Option Node
node_after none node = some node
node_after (some elem') node = if node.active then some node else none

-- AddOrUpdateNode changes the entry of its node as `node_after` says, and nothing else.
pub get-add_or_update_node :
    (rt : Runtime) (st : State) (node : Node)
    → ((j : String)
        → get j (add_or_update_node rt st node).1.nodes
          ≡ (if node.name == j then node_after (get node.name st.nodes) node else get j st.nodes))
      × ((add_or_update_node rt st node).1.service_upstream_nodes ≡ st.service_upstream_nodes)
      × ((add_or_update_node rt st node).1.service_upstream_target ≡ st.service_upstream_target)
      × ((add_or_update_node rt st node).1.ngxc ≡ st.ngxc)
      × ((add_or_update_node rt st node).1.world ≡ st.world)
unfolding add_or_update_node
get-add_or_update_node rt st node = (
  λ j. ground (arith, get-put node.name j node st.nodes, get-delete node.name j st.nodes),
  ground arith,
  ground arith,
  ground arith,
  ground arith,
)

keys_where_sound :
    (test : Node → Bool) (entries : List (String × List Node)) (svc : String)
    → Elem svc (keys_where test entries)
    → (ns : List Node) × Elem (svc, ns) entries × (any test ns ≡ true)
keys_where_sound test [] svc h = absurd h
keys_where_sound test ((k, ns) ∷ rest) svc h =
    by_test (any test ns) refl h (keys_where_sound test rest svc)
  where
    by_test :
        (b : Bool)
        → any test ns ≡ b
        → Elem svc (if b then k ∷ keys_where test rest else keys_where test rest)
        → (Elem svc (keys_where test rest)
            → (ns' : List Node) × Elem (svc, ns') rest × (any test ns' ≡ true))
        → (ns' : List Node) × Elem (svc, ns') ((k, ns) ∷ rest) × (any test ns' ≡ true)
    by_test true e (inl here) ih = (ns, inl (ap (λ s. (s, ns)) here), e)
    by_test true e (inr there) ih = let (m, k', t) = ih there in (m, inr k', t)
    by_test false e there ih = let (m, k', t) = ih there in (m, inr k', t)

keys_where_complete :
    (test : Node → Bool) (entries : List (String × List Node)) (svc : String) (ns : List Node)
    → Elem (svc, ns) entries
    → any test ns ≡ true
    → Elem svc (keys_where test entries)
keys_where_complete test [] svc ns h t = absurd h
keys_where_complete test ((k, ms) ∷ rest) svc ns h t =
    by_test (any test ms) refl h (λ there. keys_where_complete test rest svc ns there t)
  where
    by_test :
        (b : Bool)
        → any test ms ≡ b
        → Elem (svc, ns) ((k, ms) ∷ rest)
        → (Elem (svc, ns) rest → Elem svc (keys_where test rest))
        → Elem svc (if b then k ∷ keys_where test rest else keys_where test rest)
    by_test true e (inl here) ih = inl (ap (λ (entry : String × List Node). entry.0) here)
    by_test true e (inr there) ih = inr (ih there)
    by_test false e (inl here) ih =
        cc (t, e, ap (λ (entry : String × List Node). any test entry.1) here)
    by_test false e (inr there) ih = ih there

-- A service is recorded with a node that passes the test.
abbrev pub Uses : State → (Node → Bool) → String → Type 0
Uses st test svc =
    (ns : List Node) × (get svc st.service_upstream_nodes ≡ some ns) × (any test ns ≡ true)

pub visit_iff :
    (rt : Runtime) (st : State) (test : Node → Bool) (svc : String)
    → IsMap st.service_upstream_nodes
    → Elem svc (keys_where test (rt.visit (List Node) 0 st.service_upstream_nodes))
      ↔ Uses st test svc
visit_iff rt st test svc u = (
  λ h.
      let (ns, k, t) = keys_where_sound test _ svc h in
      (
        ns,
        get-Elem svc ns st.service_upstream_nodes u (Elem-perm (svc, ns) (rt.visit-perm _ _ _) k),
        t,
      ),
  λ (ns, g, t).
      keys_where_complete test _ svc ns
        (Elem-perm (svc, ns) (Permᴰ.symm (rt.visit-perm _ _ _))
          (Elem-get svc ns st.service_upstream_nodes g))
        t,
)

abbrev pub has_address : String → Node → Bool
has_address address node = node.internal_ip == address || node.external_ip == address

-- An active node affects the services that use an address which it no longer has; an inactive one
-- those that are recorded with a node of its name.
abbrev AffectedIf : Bool → State → Node → Node → String → Type 0
AffectedIf true st old node svc =
    ((old.internal_ip ≢ node.internal_ip) × Uses st (has_address old.internal_ip) svc)
    ⊎ ((old.external_ip ≢ node.external_ip) × Uses st (has_address old.external_ip) svc)
AffectedIf false st old node svc = Uses st (λ n. n.name == node.name) svc

-- Which services are reported, by what the cache has of the node: none if it is new to the cache.
abbrev pub Affected : Option Node → State → Node → String → Type 0
Affected none st node svc = ⊥
Affected (some old) st node svc = AffectedIf node.active st old node svc

if-Elem :
    (a b svc : String) (xs : List String)
    → Elem svc (if not (a == b) then xs else []) ↔ ((a ≢ b) × Elem svc xs)
if-Elem a b svc xs = elim (String-cases a b) [
  | inl (e, same) ↦ rw same (λ h. absurd h, λ (ne, h). absurd (ne e))
  | inr (ne, other) ↦ rw other (λ h. (ne, h), λ (ne', h). h)
]

module _ (rt : Runtime) (st : State) (u : IsMap st.service_upstream_nodes) where
  update_node_iff :
      (old node : Node) (svc : String) (b : Bool)
      → node.active ≡ b
      → Elem svc (update_node rt st old node).0 ↔ AffectedIf b st old node svc
  unfolding update_node
  update_node_iff old node svc true e = rw e (
    λ h. elim (append-Elem svc _ _ h) [
      | inl k ↦
          let (ne, k') = (if-Elem old.internal_ip node.internal_ip svc _).0 k in
          inl (ne, (visit_iff rt st (has_address old.internal_ip) svc u).0 k')
      | inr k ↦
          let (ne, k') = (if-Elem old.external_ip node.external_ip svc _).0 k in
          inr (ne, (visit_iff (after_range rt) st (has_address old.external_ip) svc u).0 k')
    ],
    λ h. Elem-append svc _ _ (elim h [
      | inl (ne, k) ↦ inl (
          (if-Elem old.internal_ip node.internal_ip svc _).1
            (ne, (visit_iff rt st (has_address old.internal_ip) svc u).1 k))
      | inr (ne, k) ↦ inr (
          (if-Elem old.external_ip node.external_ip svc _).1
            (ne, (visit_iff (after_range rt) st (has_address old.external_ip) svc u).1 k))
    ]),
  )
  update_node_iff old node svc false e = rw e (visit_iff rt st (λ n. n.name == node.name) svc u)

  -- Where the recorded services form a map, AddOrUpdateNode reports exactly these services: for an
  -- active node that the cache has, those that are recorded with an address which the node no longer
  -- has; for an inactive one that the cache has, those that are recorded with a node of its name; and
  -- none for a node that is new to the cache, even where services ask for all nodes.
  pub add_or_update_node-Affected :
      (node : Node) (svc : String)
      → Elem svc (add_or_update_node rt st node).0 ↔ Affected (get node.name st.nodes) st node svc
  unfolding add_or_update_node
  add_or_update_node-Affected node svc = by_cached (get node.name st.nodes)
    where
      by_cached :
          (o : Option Node)
          → Elem svc
              (elim o as (λ x. List String × State) [
                | none ↦ ([], record st { nodes = put node.name node st.nodes })
                | some elem' ↦ update_node rt st elem' node
              ]).0
            ↔ Affected o st node svc
      by_cached none = (λ h. h, λ h. h)
      by_cached (some old) = update_node_iff old node svc node.active refl
