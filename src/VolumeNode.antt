-- ===== src/VolumeNode.antt =====
-- internal/manager/node/volume_node_controller.go: what the volumes of a node have in common. A function
-- that changes its volume returns it; `InterestedNodes` may overwrite its list of nodes.
pub mod Attached
pub mod Exports
pub mod Linear
pub mod Population
pub mod Reconcile
pub mod Retiring
pub mod Thin
pub mod Wiping
pub mod Zeroed
use Prim.Native.String.{◌++◌ as ◌<>◌}
use kubesan.Prelude.{
  ℕ, String, List, [], ◌∷◌, ◌++◌, Option, none, some, Bool, true, false, not, ◌&&◌, ◌||◌, ◌==◌,
  string_eq, ltb, if◌then◌else◌,
}
use kubesan.Slices.{contains, remove_all}
use kubesan.Api.{Volume, ThinPoolLv, ThinLvStatus, find_thin_lv_status}
use kubesan.Exec.{Env, Exec, pure, ask, ◌>>=◌}
use kubesan.ThinPool.{volume_to_thin_lv_name, is_active_status, interested_nodes}
use kubesan.VolumeController.{status_update}

abbrev pub dev_name : Volume → String
dev_name volume =
    "/dev/" <> (volume.spec.vg_name <> ("/" <> volume_to_thin_lv_name volume.metadata.name))

abbrev pub with_attach_to_nodes : Volume → List String → Volume
with_attach_to_nodes volume nodes = record volume {
  spec = record volume.spec { attach_to_nodes = nodes };
}

-- the nodes that are interested, and the volume as the call leaves it
unfoldable pub interested_in : ThinPoolLv → Volume → List String × Volume
unfolding interested_nodes
interested_in pool volume =
    let (nodes, left) = interested_nodes pool volume.spec.attach_to_nodes in
    (nodes, with_attach_to_nodes volume left)

is_active_entry : Option ThinLvStatus → Bool
unfolding is_active_status
is_active_entry none = false
is_active_entry (some status) = is_active_status status.state.name

unfoldable pub is_thin_lv_active_on_local_node : Env → ThinPoolLv → String → Bool
unfolding is_active_entry
is_thin_lv_active_on_local_node env pool name =
    is_active_entry (find_thin_lv_status pool name)
    && pool.status.active_on_node == env.local_node_name

abbrev pub with_attached_to_nodes : Volume → List String → Volume
with_attached_to_nodes volume nodes = record volume {
  status = record volume.status { attached_to_nodes = nodes };
}

-- the size of the thin LV, if it is larger; the flag says whether something has changed
unfoldable pub with_larger_size : Volume × Bool → Option ThinLvStatus → Volume × Bool
with_larger_size (volume, changed) none = (volume, changed)
with_larger_size (volume, changed) (some status) =
    if ltb volume.status.size_bytes status.size_bytes
    then (record volume { status = record volume.status { size_bytes = status.size_bytes } }, true)
    else (volume, changed)

-- AttachedToNodes with this node
unfoldable pub with_local_node : Env → Volume → Volume × Bool
unfolding contains
with_local_node env volume =
    if not (contains volume.status.attached_to_nodes env.local_node_name)
    then (
      with_attached_to_nodes volume (volume.status.attached_to_nodes ++ env.local_node_name ∷ []),
      true,
    )
    else (volume, false)

-- AttachedToNodes without this node
unfoldable pub without_local_node : Env → Volume → Volume × Bool
unfolding contains remove_all
without_local_node env volume =
    if contains volume.status.attached_to_nodes env.local_node_name
    then (
      with_attached_to_nodes volume
          (remove_all volume.status.attached_to_nodes env.local_node_name),
      true,
    )
    else (volume, false)

-- what `updateStatusAttachedToNodes` makes of the volume
unfoldable pub attached_status : Env → Volume → Bool → ThinPoolLv → Volume × Bool
unfolding with_local_node without_local_node with_larger_size is_thin_lv_active_on_local_node
attached_status env volume false pool = without_local_node env volume
attached_status env volume true pool =
    let name = volume_to_thin_lv_name volume.metadata.name in
    if is_thin_lv_active_on_local_node env pool name
    then with_larger_size (with_local_node env volume) (find_thin_lv_status pool name)
    else with_local_node env volume

unfoldable pub update_status_attached_to_nodes : Volume → Bool → ThinPoolLv → Exec Volume
unfolding attached_status status_update ask pure ◌>>=◌
update_status_attached_to_nodes volume attached pool = do
  env ← ask
  let (noted, changed) = attached_status env volume attached pool
  if changed then status_update noted else pure noted
