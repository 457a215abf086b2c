-- ===== src/Examples/Pools.antt =====
-- The theorems on thin pools at concrete pools.
use kubesan.Prelude.{
  String, List, [], ◌∷◌, some, true, false, ◌≡◌, ◌≢◌, refl, ◌⊎◌, ◌↔◌, string_eq, map,
}
use kubesan.Slices.{contains}
use kubesan.Api.{
  ThinPoolLv, ThinLvSpec, ThinLvStatus, ThinLvSpecStateName, ThinLvStatusStateName,
  ThinLvContentsType,
}
use kubesan.Exec.{ok}
use kubesan.ThinPool.{
  thin_pool_lv_needs_activation, recalc_active_on_node, update_thin_pool_lv, activate_thin_lv,
  interested_nodes, has_active_clone, deep_equal, volume_to_thin_lv_name,
}
use kubesan.ThinPool.Activation.{AllSettled, needs_activation-AllSettled, recalc_active_on_node_lem}
use kubesan.ThinPool.Nodes.{interested_nodes_overwrites}
use kubesan.ThinPool.Requests.{RequestsActive, activate_thin_lv-RequestsActive}
use kubesan.NodePool.{should_be_active, deactivate_thin_lvs, set_inactive, status_update}
use kubesan.NodePool.ThinLvs.{reconcile_pool, reconcile_thin_lv_deletion, remove_loop}
use kubesan.NodePool.Exclusion.{
  IsQuery, IsDeactivated, inactive_entry, reconcile_pool_waits, deactivate_thin_lvs_lem,
}
use kubesan.NodePool.Removal.{AllRemoved, without_removed, reconcile_thin_lv_deletion_lem}
use kubesan.Examples.World.{world, different, lv_spec, lv_status, pool_of}

-- a pool that node-1 should activate, and that node-2 still has
abbrev held : ThinPoolLv
held =
    pool_of (lv_spec "lv" ThinLvSpecStateName.active ∷ [])
      (lv_status "lv" ThinLvStatusStateName.inactive ∷ []) "node-1" "node-2"

differ : held.status.active_on_node ≢ ""
differ = different "node-2" "" refl

apart : held.status.active_on_node ≢ "node-1"
apart = different "node-2" "node-1" refl

wanted : should_be_active "node-1" held ≡ true
unfolding should_be_active
wanted = refl

reconcile_pool_waits_example :
    ((reconcile_pool held world []).1 ≡ []) ⊎ IsQuery [] (reconcile_pool held world []).1
reconcile_pool_waits_example = reconcile_pool_waits held world [] wanted differ apart

abbrev two_lvs : List ThinLvStatus
two_lvs =
    lv_status "a" ThinLvStatusStateName.active ∷ lv_status "b" ThinLvStatusStateName.active ∷ []

deactivated : (deactivate_thin_lvs held two_lvs world []).0 ≡ ok (map inactive_entry two_lvs)
unfolding deactivate_thin_lvs kubesan.NodePool.set_inactive kubesan.Commands.lvm
    kubesan.NodePool.check_unless_gone
deactivated = refl

deactivate_thin_lvs_lem_example :
    (map inactive_entry two_lvs ≡ map inactive_entry two_lvs)
    × IsDeactivated "vg" two_lvs [] (deactivate_thin_lvs held two_lvs world []).1
deactivate_thin_lvs_lem_example =
    deactivate_thin_lvs_lem held two_lvs (map inactive_entry two_lvs) world [] deactivated

-- a pool with one thin LV to remove and one to keep
abbrev shrinking : ThinPoolLv
shrinking =
    pool_of
      (lv_spec "old" ThinLvSpecStateName.removed ∷ lv_spec "new" ThinLvSpecStateName.inactive ∷ [])
      (lv_status "old" ThinLvStatusStateName.inactive
        ∷ lv_status "new" ThinLvStatusStateName.inactive
        ∷ [])
      "node-1" "node-1"

abbrev shrunk : ThinPoolLv
shrunk =
    pool_of
      (lv_spec "old" ThinLvSpecStateName.removed ∷ lv_spec "new" ThinLvSpecStateName.inactive ∷ [])
      (lv_status "new" ThinLvStatusStateName.inactive ∷ []) "node-1" "node-1"

deleted : (reconcile_thin_lv_deletion shrinking world []).0 ≡ ok shrunk
unfolding reconcile_thin_lv_deletion remove_loop kubesan.ThinPool.is_removed_spec
    kubesan.NodePool.ThinLvs.remove_thin_lv kubesan.NodePool.ThinLvs.kept_entries
    kubesan.Api.find_spec status_update
deleted = refl

reconcile_thin_lv_deletion_lem_example :
    let t = (remove_loop shrinking shrinking.spec.thin_lvs false world []).1 in
    AllRemoved shrinking shrinking.spec.thin_lvs t
    × ((reconcile_thin_lv_deletion shrinking world [] ≡ (ok shrinking, t))
        ⊎ (reconcile_thin_lv_deletion shrinking world []
            ≡ status_update (without_removed shrinking) world t))
reconcile_thin_lv_deletion_lem_example =
    reconcile_thin_lv_deletion_lem shrinking shrunk world [] deleted

needs_activation-AllSettled_example :
    (thin_pool_lv_needs_activation shrunk ≡ ok false)
    ↔ AllSettled shrunk.spec.thin_lvs shrunk.status.thin_lvs
needs_activation-AllSettled_example = needs_activation-AllSettled shrunk

-- the pool `held` before a node has been chosen
abbrev unassigned : ThinPoolLv
unassigned = record held { spec = record held.spec { active_on_node = "" } }

assigned : recalc_active_on_node "node-1" unassigned ≡ ok held
unfolding recalc_active_on_node thin_pool_lv_needs_activation kubesan.Api.find_status
assigned = refl

node_1 : world.local_node_name ≢ ""
node_1 = different "node-1" "" refl

recalc_active_on_node_lem_example :
    ((held.spec.active_on_node ≡ "")
      ↔ AllSettled unassigned.spec.thin_lvs unassigned.status.thin_lvs)
    × (unassigned.spec.active_on_node ≢ "" → held.spec.active_on_node ≢ "" → held ≡ unassigned)
    × (recalc_active_on_node "node-1" held ≡ ok held)
recalc_active_on_node_lem_example =
    recalc_active_on_node_lem "node-1" unassigned held node_1 assigned

activate_thin_lv-RequestsActive_example :
    RequestsActive
      (volume_to_thin_lv_name "pvc-1")
      []
      (activate_thin_lv (some unassigned) unassigned "pvc-1" world []).1
activate_thin_lv-RequestsActive_example =
    activate_thin_lv-RequestsActive (some unassigned) unassigned "pvc-1" world [] node_1

-- a pool on node-1 with an active clone source
abbrev cloning : ThinPoolLv
cloning =
    pool_of (lv_spec "clone-1" ThinLvSpecStateName.active ∷ [])
      (lv_status "clone-1" ThinLvStatusStateName.active ∷ []) "node-1" "node-1"

on_node_1 : cloning.spec.active_on_node ≢ ""
on_node_1 = different "node-1" "" refl

is_cloning : has_active_clone cloning.spec.thin_lvs ≡ true
unfolding has_active_clone
is_cloning = refl

abbrev two_nodes : List String
two_nodes = "node-2" ∷ "node-1" ∷ []

asked : contains two_nodes cloning.spec.active_on_node ≡ true
unfolding contains
asked = refl

interested_nodes_overwrites_example :
    contains (interested_nodes cloning two_nodes).1 "node-1" ≡ false
interested_nodes_overwrites_example =
    interested_nodes_overwrites cloning two_nodes on_node_1 is_cloning asked
