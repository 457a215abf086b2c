-- ===== src/Csi/Node/Publish.antt =====
-- internal/csi/node: publishing a staged volume, in publish.go, and what the node says of a volume, in
-- stats.go.
use Prim.Native.String.{◌++◌ as ◌<>◌}
use kubesan.Prelude.{
  ℕ, String, Option, none, some, Bool, true, false, not, string_eq, if◌then◌else◌,
}
use kubesan.Slices.{contains}
use kubesan.Api.{Volume, VolumeMode, Condition, condition_true}
use kubesan.Exec.{
  rpc, invalid_argument, absent, failed_precondition, Result, ok, err, Exec, pure, throw, lift, try,
  ask, stat_path, is_mount_point, clean_up_mount_point, make_dirs, remove_file, bind_mount, do_file,
  ◌>>=◌, ◌>>◌,
}
use kubesan.Csi.{AccessType, VolumeCapability, Parameters}
use kubesan.Csi.Names.{validate_id, validate_volume_context, validate_volume_capability}
use kubesan.Csi.Node.{check_path, get_existing, remove_if_there, link_to}
use kubesan.Dm

pub record PublishRequest : Type 0 where
  pub volume_id : String
  pub publish_context : Parameters
  pub staging_target_path : String
  pub target_path : String
  pub capability : Option VolumeCapability

unfoldable pub check_given : Option VolumeCapability → Exec VolumeCapability
unfolding pure throw
check_given none = throw (rpc invalid_argument "must specify volume capability")
check_given (some capability) = pure capability

-- the volume is staged on this node, and there to stay
unfoldable pub check_staged : Volume → Option ℕ → Exec (Unit {0})
unfolding contains ask pure throw ◌>>=◌
check_staged volume deletion = do
  env ← ask
  if not (contains volume.spec.attach_to_nodes env.local_node_name)
      then throw (rpc failed_precondition "volume is not staged on node")
      else elim deletion [
        | none ↦ pure tt
        | some when ↦ throw (rpc failed_precondition "volume deletion is already in progress")
      ]

-- a bind mount, whose directory is removed again if it fails
unfoldable pub bind : String → String → Exec (Unit {0})
unfolding do_file try pure throw ◌>>=◌
bind source target = do
  do_file (make_dirs target)
  mounted ← try (do_file (bind_mount source target))
  elim mounted [ ok b ↦ pure tt | err e ↦ (do try (do_file (remove_file target)); throw e) ]

unfoldable pub publish : String → String → AccessType → Exec (Unit {0})
unfolding bind link_to
publish source target (AccessType.mount fs_type flags) = bind source target
publish source target AccessType.block = link_to source target
publish source target AccessType.unset = link_to source target

unfoldable pub node_publish_volume : PublishRequest → Exec (Unit {0})
unfolding check_given check_path check_staged get_existing publish validate_id lift ◌>>=◌
node_publish_volume req = do
  validate_id req.volume_id "volume"
  lift (validate_volume_context req.publish_context)
  check_path req.target_path "must specify target path"
  capability ← check_given req.capability
  lift (validate_volume_capability capability)
  volume ← get_existing req.volume_id "volume not found"
  check_staged volume volume.metadata.deletion_timestamp
  publish req.staging_target_path req.target_path capability.access_type

is_mounted : Result Bool → Bool
is_mounted (ok b) = b
is_mounted (err e) = false

unfoldable pub node_unpublish_volume : (volume_id target_path : String) → Exec (Unit {0})
unfolding check_path is_mounted get_existing remove_if_there validate_id do_file try pure ◌>>=◌
node_unpublish_volume volume_id target_path = do
  validate_id volume_id "volume"
  check_path target_path "must specify target path"
  mounted ← try (do_file (is_mount_point target_path))
  (if is_mounted mounted
      then (do do_file (clean_up_mount_point target_path); pure tt)
      else remove_if_there target_path)
  get_existing volume_id "volume not found"
  pure tt

pub record VolumeStats : Type 0 where
  pub total : ℕ
  pub abnormal : Bool
  pub message : String

-- what the condition "Abnormal" says
unfoldable pub abnormal_of : Option Condition → Bool × String
abnormal_of none = (false, "Volume is operational")
abnormal_of (some condition) = elim condition.status [
  | condition_true ↦ (true, condition.message)
  | _ ↦ (false, "Volume is operational")
]

-- the size that this node sees of a thin volume
unfoldable pub seen_size : Volume → VolumeMode → Exec ℕ
unfolding Dm.get_size pure
seen_size volume VolumeMode.thin = Dm.get_size volume.metadata.name
seen_size volume VolumeMode.linear = pure volume.status.size_bytes
seen_size volume VolumeMode.other = pure volume.status.size_bytes

check_there : String → Bool → Exec (Unit {0})
unfolding pure throw
check_there path true = pure tt
check_there path false = throw (rpc absent ("Failed to find a volume at " <> path))

unfoldable pub node_get_volume_stats : (volume_id volume_path : String) → Exec VolumeStats
unfolding check_path check_there get_existing abnormal_of seen_size validate_id stat_path ask pure
    ◌>>=◌
node_get_volume_stats volume_id volume_path = do
  env ← ask
  validate_id volume_id "volume"
  check_path volume_path "Volume Path not provided"
  there ← stat_path volume_path
  check_there volume_path there
  volume ← get_existing volume_id (volume_id <> " does not exist")
  size ← seen_size volume volume.spec.mode
  let (abnormal, message) =
      abnormal_of (env.find_status_condition volume.status.conditions "Abnormal")
  pure (record { total = size; abnormal = abnormal; message = message })
