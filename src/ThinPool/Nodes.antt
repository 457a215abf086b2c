-- ===== src/ThinPool/Nodes.antt =====
-- The nodes that a pool is interested in (`InterestedNodes`).
use kubesan.Prelude.{
  String, List, [], ◌∷◌, true, false, ◌||◌, ◌≡◌, refl, ◌≢◌, ◌==◌, string_eq, eq_iff, arith,
  if◌then◌else◌,
}
use kubesan.Slices.{contains}
use kubesan.Slices.Laws.{contains-append, Nodup}
use kubesan.Api.{ThinPoolLv}
use kubesan.ThinPool.{interested_nodes, kept, cleared, has_active_clone}

contains-kept :
    (node : String) (xs : List String) (a : String)
    → contains (kept (λ n. n == node) xs) a ≡ (if a == node then false else contains xs a)
unfolding contains kept
contains-kept node [] a = ground arith
contains-kept node (x ∷ xs) a =
    ground (arith, contains-kept node xs a, eq_iff a node, eq_iff x node, eq_iff a x)

Nodup-kept : (node : String) (xs : List String) → Nodup xs → Nodup (kept (λ n. n == node) xs)
unfolding kept
Nodup-kept node [] h = tt
Nodup-kept node (x ∷ xs) h = ground (arith, Nodup-kept node xs h.1, contains-kept node xs x)

contains-cleared :
    (node : String) (xs : List String) (a : String)
    → a ≢ ""
    → contains (cleared (λ n. n == node) xs) a ≡ false
unfolding contains cleared
contains-cleared node [] a h = refl
contains-cleared node (x ∷ xs) a h = ground (arith, contains-cleared node xs a h, eq_iff a "")

-- While a clone source is active, the node of the pool comes first, the other nodes follow as they
-- were asked for, and a list without duplicates stays one.
pub interested_nodes_clone :
    (pool : ThinPoolLv) (attach_list : List String)
    → pool.spec.active_on_node ≢ ""
    → has_active_clone pool.spec.thin_lvs ≡ true
    → Nodup attach_list
    → let nodes = (interested_nodes pool attach_list).0 in
      ((rest : List String) × (nodes ≡ pool.spec.active_on_node ∷ rest))
      × Nodup nodes
      × ((a : String)
          → contains nodes a ≡ (a == pool.spec.active_on_node || contains attach_list a))
unfolding interested_nodes
interested_nodes_clone pool attach_list named clone h =
    rw (clone, not_empty)
      (
        (kept (λ n. n == node) attach_list, refl),
        (
          rw (contains-kept node attach_list node) (ground (arith, eq_iff node node)),
          Nodup-kept node attach_list h,
        ),
        λ a. unfold contains in ground (arith, contains-kept node attach_list a),
      )
  where
    node : String
    node = pool.spec.active_on_node

    not_empty : (pool.spec.active_on_node == "") ≡ false
    not_empty = ground (arith, eq_iff pool.spec.active_on_node "")

-- In every other case the nodes are the ones asked for, and the caller's list is left alone.
pub interested_nodes_plain :
    (pool : ThinPoolLv) (attach_list : List String)
    → has_active_clone pool.spec.thin_lvs ≡ false
    → interested_nodes pool attach_list ≡ (attach_list, attach_list)
unfolding interested_nodes
interested_nodes_plain pool attach_list h = ground arith

-- While a clone source is active, the call takes the pool's own node out of the caller's list.
pub interested_nodes_overwrites :
    (pool : ThinPoolLv) (attach_list : List String)
    → pool.spec.active_on_node ≢ ""
    → has_active_clone pool.spec.thin_lvs ≡ true
    → contains attach_list pool.spec.active_on_node ≡ true
    → contains (interested_nodes pool attach_list).1 pool.spec.active_on_node ≡ false
unfolding interested_nodes
interested_nodes_overwrites pool attach_list named clone h =
    rw (clone, not_empty, contains-append, contains-kept node attach_list node)
      (ground (arith, eq_iff node node, contains-cleared node attach_list node named))
  where
    node : String
    node = pool.spec.active_on_node

    not_empty : (pool.spec.active_on_node == "") ≡ false
    not_empty = ground (arith, eq_iff pool.spec.active_on_node "")
