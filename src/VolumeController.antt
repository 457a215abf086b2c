-- ===== src/VolumeController.antt =====
-- internal/manager/cluster/volume_controller.go: what the cluster controller does for the volumes. A
-- function that changes its volume returns it.
pub mod Availability
pub mod Creation
pub mod Deletion
pub mod Honesty
pub mod Resize
use Prim.Native.String.{◌++◌ as ◌<>◌}
use kubesan.Prelude.{
  ℕ, ◌+◌, String, List, [], ◌∷◌, Option, none, some, Bool, true, false, not, ◌&&◌, ◌||◌, ◌==◌,
  string_eq, ltb, nat_beq, length, if◌then◌else◌,
}
use kubesan.Prelude.Dict.{lookup, insert, delete}
use kubesan.Slices.{count_non_nil}
use kubesan.Api.{
  Volume, VolumeMode, VolumeContentsType, VolumeTypeFilesystem, Condition, ConditionStatus,
  condition_true, condition_false,
}
use kubesan.Exec.{
  Env, Err, bad_request, watch_pending, panicked, Result, ok, err, Exec, pure, throw, lift, try,
  ask, ignore_not_found, get_volume, get_snapshot, write_volume, update, update_status, ◌>>=◌, ◌>>◌,
}
use kubesan.ClusterPool.{finalizer}
use kubesan.Blobs.Manager.{BlobManager, thin_blob_manager, linear_blob_manager}

unfoldable pub status_update : Volume → Exec Volume
unfolding write_volume
status_update volume = write_volume update_status (record volume {
  status = record volume.status { observed_generation = volume.metadata.generation };
})

abbrev pub condition : String → ConditionStatus → String → String → Condition
condition type status reason message = record {
  type = type;
  status = status;
  reason = reason;
  message = message;
  last_transition_time = 0;
}

-- the volume with the condition, and whether that is a change
unfoldable pub with_condition : Env → Volume → Condition → Volume × Bool
with_condition env volume c =
    let (conditions, changed) = env.set_status_condition volume.status.conditions c in
    (record volume { status = record volume.status { conditions = conditions } }, changed)

abbrev pub has_condition : Env → Volume → String → Bool
has_condition env volume type = env.is_status_condition_true volume.status.conditions type

unfoldable pub new_blob_manager : Volume → VolumeMode → Result BlobManager
new_blob_manager volume VolumeMode.thin =
    ok (thin_blob_manager volume.spec.vg_name volume.metadata.name)
new_blob_manager volume VolumeMode.linear = ok (linear_blob_manager volume.spec.vg_name)
new_blob_manager volume VolumeMode.other = err (bad_request "invalid volume mode")

abbrev pub clone_volume_snapshot_name : String → String
clone_volume_snapshot_name volume_name = "clone-" <> volume_name

-- the manager of a data source, with the name of the blob and of the pool
abbrev pub DataSource : Type 0
DataSource = BlobManager × String × String

-- a source that is missing is a nil pointer
volume_source : Option String → Exec (Option DataSource)
unfolding new_blob_manager get_volume lift pure throw ◌>>=◌
volume_source none = throw panicked
volume_source (some name) = do
  source ← get_volume name
  manager ← lift (new_blob_manager source source.spec.mode)
  pure (some (manager, name, name))

snapshot_source : Option String → Exec (Option DataSource)
unfolding get_snapshot pure throw ◌>>=◌
snapshot_source none = throw panicked
snapshot_source (some name) = do
  source ← get_snapshot name
  pure (
      some (
        thin_blob_manager source.spec.vg_name source.spec.source_volume,
        name,
        source.spec.source_volume,
      ))

unfoldable pub get_data_source_blob : Volume → VolumeContentsType → Exec (Option DataSource)
unfolding volume_source snapshot_source pure
get_data_source_blob volume VolumeContentsType.clone_volume =
    volume_source volume.spec.contents.source_volume
get_data_source_blob volume VolumeContentsType.clone_snapshot =
    snapshot_source volume.spec.contents.source_snapshot
get_data_source_blob volume VolumeContentsType.empty = pure none
get_data_source_blob volume VolumeContentsType.other = pure none

abbrev pub population_node_label : Env → String
population_node_label env = env.domain <> "/populationNode"

abbrev pub clone_source_label : Env → String
clone_source_label env = env.domain <> "/cloneSourcePool"

abbrev pub labels_of : Volume → List (String × String)
labels_of volume = elim volume.metadata.labels [ none ↦ [] | some labels ↦ labels ]

abbrev with_labels : Volume → List (String × String) → Volume
with_labels volume labels = record volume {
  metadata = record volume.metadata { labels = some labels };
}

-- a temporary snapshot of the source, to clone from
unfoldable pub prepare_source : Volume → Option DataSource → Exec (Unit {0})
unfolding pure ◌>>=◌
prepare_source volume none = pure tt
prepare_source volume (some (manager, name, pool)) = do
  let tmp = clone_volume_snapshot_name volume.metadata.name
  manager.snapshot_blob tmp "" name volume.metadata.name
  manager.activate_blob_for_clone_source tmp volume.metadata.name

-- the labels that lead back to the source
source_labels : Env → String → Option DataSource → List (String × String) → List (String × String)
source_labels env node none labels = insert (population_node_label env) node labels
source_labels env node (some (manager, name, pool)) labels =
    let labels' = insert (population_node_label env) node labels in
    if not (pool == "") then insert (clone_source_label env) pool labels' else labels'

unfoldable pub note_source : Volume → String → Option DataSource → Exec Volume
unfolding source_labels ask pure write_volume ◌>>=◌
note_source volume node source = do
  env ← ask
  elim (lookup (population_node_label env) (labels_of volume)) [
    | some old ↦ pure volume
    | none ↦
        write_volume update (with_labels volume (source_labels env node source (labels_of volume)))
  ]

source_pool : Option DataSource → Option (Option String)
source_pool none = none
source_pool (some (manager, name, pool)) = some manager.thin_pool

unfoldable pub activate_data_source : BlobManager → Volume → Exec Volume
unfolding get_data_source_blob prepare_source note_source source_pool pure ◌>>=◌
activate_data_source manager volume = do
  source ← get_data_source_blob volume volume.spec.contents.contents_type
  prepare_source volume source
  node ← manager.activate_blob_for_clone_target volume.metadata.name (source_pool source)
  if node == "" then pure volume else note_source volume node source

-- the temporary snapshot is removed
unfoldable pub drop_source : Volume → Option String → Exec (Unit {0})
unfolding pure ◌>>=◌
drop_source volume none = pure tt
drop_source volume (some pool) = do
  let tmp = clone_volume_snapshot_name volume.metadata.name
  let manager = thin_blob_manager volume.spec.vg_name pool
  manager.deactivate_blob_for_clone_source tmp
  manager.remove_blob tmp volume.metadata.name

-- the labels are cleaned up
unfoldable pub forget_source : Volume → List (String × String) → Exec Volume
unfolding ask pure write_volume ◌>>=◌
forget_source volume labels = do
  env ← ask
  elim (lookup (population_node_label env) labels) [
    | none ↦ pure volume
    | some node ↦ write_volume update (
        with_labels volume
          (delete (clone_source_label env) (delete (population_node_label env) labels)))
  ]

deactivate_labeled : Volume → Option (List (String × String)) → Exec Volume
unfolding drop_source forget_source ask pure ◌>>=◌
deactivate_labeled volume none = pure volume
deactivate_labeled volume (some labels) = do
  env ← ask
  drop_source volume (lookup (clone_source_label env) labels)
  forget_source volume labels

unfoldable pub deactivate_data_source : BlobManager → Volume → Exec Volume
unfolding deactivate_labeled ◌>>=◌
deactivate_data_source manager volume = do
  manager.deactivate_blob_for_clone_target volume.metadata.name
  deactivate_labeled volume volume.metadata.labels

unfoldable pub drop_finalizer : Volume → Exec (Unit {0})
unfolding ask pure write_volume ◌>>=◌
drop_finalizer volume = do
  env ← ask
  let (metadata, changed) = env.remove_finalizer volume.metadata (finalizer env.domain)
  if changed
      then (do write_volume update (record volume { metadata = metadata }); pure tt)
      else pure tt

unfoldable pub reconcile_deleting : BlobManager → Volume → Exec (Unit {0})
unfolding deactivate_data_source drop_finalizer pure ◌>>=◌
reconcile_deleting manager volume =
    if ltb 0 (length volume.status.attached_to_nodes) then pure tt else (do
      v ← deactivate_data_source manager volume
      manager.remove_blob v.metadata.name v.metadata.name
      drop_finalizer v)
