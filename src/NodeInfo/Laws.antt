-- ===== src/NodeInfo/Laws.antt =====
-- What GetNodeAddress of node.go returns, against the list of a node's addresses.
use lbex.Prelude.{String, ◌≡◌, refl, Bool, true, false, if◌then◌else◌, none, List, [], ◌∷◌}
use lbex.K8s.{
  v1_node, V1Node, V1NodeAddress, V1NodeAddressType, hostname, external_ip, internal_ip, other_type,
}
use lbex.NodeInfo.{
  NodeAddress, set_address, set_addresses, get_node_external_ip, get_node_internal_ip,
  get_node_hostname,
}

abbrev same_type : V1NodeAddressType → V1NodeAddressType → Bool
same_type hostname hostname = true
same_type external_ip external_ip = true
same_type internal_ip internal_ip = true
same_type other_type other_type = true
same_type _ _ = false

-- The last address of a type in the list, or the given text if it has none.
abbrev pub last_of : V1NodeAddressType → String → List V1NodeAddress → String
last_of t default [] = default
last_of t default (a ∷ rest) = last_of t (if same_type a.type t then a.address else default) rest

pub set_addresses_lem :
    (xs : List V1NodeAddress) (addr : NodeAddress)
    → set_addresses xs addr ≡ record {
      hostname = last_of hostname addr.hostname xs;
      external_ip = last_of external_ip addr.external_ip xs;
      internal_ip = last_of internal_ip addr.internal_ip xs;
    }
unfolding set_addresses
set_addresses_lem [] addr = refl
set_addresses_lem (a ∷ xs) addr = by_type a.type refl (set_addresses_lem xs)
  where
    by_type :
        (t : V1NodeAddressType)
        → a.type ≡ t
        → ((addr' : NodeAddress)
            → set_addresses xs addr' ≡ record {
              hostname = last_of hostname addr'.hostname xs;
              external_ip = last_of external_ip addr'.external_ip xs;
              internal_ip = last_of internal_ip addr'.internal_ip xs;
            })
        → set_addresses xs (set_address a addr) ≡ record {
          hostname = last_of hostname addr.hostname (a ∷ xs);
          external_ip = last_of external_ip addr.external_ip (a ∷ xs);
          internal_ip = last_of internal_ip addr.internal_ip (a ∷ xs);
        }
    by_type hostname e ih = rw e (ih _)
    by_type external_ip e ih = rw e (ih _)
    by_type internal_ip e ih = rw e (ih _)
    by_type other_type e ih = rw e (ih _)

-- The address of each type that the node functions return is the last one of that type in the
-- node's list, or the empty text.
pub get_node_address-node :
    (n : V1Node)
    → (get_node_external_ip (v1_node n) ≡ (last_of external_ip "" n.addresses, none))
      × (get_node_internal_ip (v1_node n) ≡ (last_of internal_ip "" n.addresses, none))
      × (get_node_hostname (v1_node n) ≡ (last_of hostname "" n.addresses, none))
unfolding get_node_external_ip get_node_internal_ip get_node_hostname
get_node_address-node n = rw set_addresses_lem (refl, refl, refl)
