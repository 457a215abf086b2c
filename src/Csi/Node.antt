-- ===== src/Csi/Node.antt =====
-- internal/csi/node: the node service, in stage.go, publish.go and stats.go. A request's missing
-- capability is none; how often a wait polls is an argument.
pub mod Attachment
pub mod Order
pub mod Publish
pub mod Traces
use Prim.Native.String.{◌++◌ as ◌<>◌}
use kubesan.Prelude.{
  ℕ, String, List, [], ◌∷◌, ◌++◌, Option, none, some, Bool, true, false, not, ◌==◌, string_eq,
  if◌then◌else◌,
}
use kubesan.Slices.{contains, remove_all, append_unique}
use kubesan.Api.{Volume, VolumeMode, Condition, ConditionStatus, condition_true}
use kubesan.Exec.{
  Env, Err, rpc, not_found, invalid_argument, absent, failed_precondition, internal, Result, ok,
  err, Exec, pure, throw, lift, try, ask, get_volume, write_volume, update, stat_path, FileOp,
  is_mount_point, clean_up_mount_point, make_dirs, remove_file, lstat, need_resize, resize_fs,
  bind_mount, symlink, do_file, ◌>>=◌, ◌>>◌,
}
use kubesan.Csi.{AccessType, VolumeCapability, Parameters}
use kubesan.Csi.Names.{validate_id, validate_volume_context, validate_volume_capability}
use kubesan.Csi.Client.{watch_volume_until}
use kubesan.Csi.Volumes.Change.{retry_on_conflict}
use kubesan.Dm

pub record StageRequest : Type 0 where
  pub volume_id : String
  pub publish_context : Parameters
  pub staging_target_path : String
  pub capability : Option VolumeCapability

-- the getters read a missing capability as one of no type
abbrev pub capability_of : Option VolumeCapability → VolumeCapability
capability_of none = record { access_type = AccessType.unset; access_mode = none }
capability_of (some capability) = capability

-- an empty path is an invalid argument
unfoldable pub check_path : String → String → Exec (Unit {0})
unfolding throw pure
check_path path message = if path == "" then throw (rpc invalid_argument message) else pure tt

-- the object that `Get` reads
unfoldable pub get_existing : String → String → Exec Volume
unfolding get_volume try pure throw ◌>>=◌
get_existing name message = do
  got ← try (get_volume name)
  elim got [
    | ok volume ↦ pure volume
    | err not_found ↦ throw (rpc absent message)
    | err e ↦ throw e
  ]

abbrev with_nodes : Volume → List String → Volume
with_nodes volume nodes = record volume { spec = record volume.spec { attach_to_nodes = nodes } }

-- one round of `NodeStageVolume`: this node is added to AttachToNodes
unfoldable pub request_attach : Volume → Option ℕ → Exec Volume
unfolding contains append_unique ask pure throw write_volume ◌>>=◌
request_attach volume (some when) =
    throw (rpc failed_precondition "volume deletion is already in progress")
request_attach volume none = do
  env ← ask
  if not (contains volume.spec.attach_to_nodes env.local_node_name)
      then write_volume update
          (with_nodes volume (append_unique volume.spec.attach_to_nodes env.local_node_name))
      else pure volume

unfoldable pub attach_round : String → Exec Volume
unfolding get_existing request_attach ◌>>=◌
attach_round name = do
  volume ← get_existing name "volume does not exist"
  request_attach volume volume.metadata.deletion_timestamp

unfoldable pub is_attached : Env → Volume → Bool
unfolding contains
is_attached env volume = contains volume.status.attached_to_nodes env.local_node_name

-- an error that is handed on as an internal one
unfoldable pub or_internal : String → Exec Bool → Exec Bool
unfolding try pure throw ◌>>=◌
or_internal message m = do
  r ← try m
  elim r [ ok b ↦ pure b | err e ↦ throw (rpc internal message) ]

is_sure : Result Bool → Bool
is_sure (ok b) = b
is_sure (err e) = false

-- `formatAndMount`
unfoldable pub format_and_mount : String → String → String → List String → Exec (Unit {0})
unfolding or_internal is_sure do_file try pure ◌>>=◌
format_and_mount source target fs_type flags = do
  mounted ← try (do_file (is_mount_point target))
  if is_sure mounted then pure tt else (do
    or_internal "format and mount failed"
        (do_file (FileOp.format_and_mount source target fs_type flags))
    needs ←
        or_internal "failed to determine whether to resize" (do_file (need_resize source target))
    if needs
        then (do or_internal "failed to resize" (do_file (resize_fs source target)); pure tt)
        else pure tt)

-- os.Remove, without an error if there is nothing
unfoldable pub remove_if_there : String → Exec (Unit {0})
unfolding do_file try pure throw ◌>>=◌
remove_if_there path = do
  removed ← try (do_file (remove_file path))
  elim removed [ ok b ↦ pure tt | err not_found ↦ pure tt | err e ↦ throw e ]

unfoldable pub link_to : String → String → Exec (Unit {0})
unfolding remove_if_there do_file pure ◌>>=◌
link_to source target = do remove_if_there target; do_file (symlink source target); pure tt

unfoldable pub prepare_target : Volume → String → AccessType → Exec (Unit {0})
unfolding format_and_mount link_to
prepare_target volume target (AccessType.mount fs_type flags) =
    format_and_mount volume.status.path target fs_type flags
prepare_target volume target AccessType.block = link_to volume.status.path target
prepare_target volume target AccessType.unset = link_to volume.status.path target

unfoldable pub node_stage_volume : ℕ → StageRequest → Exec (Unit {0})
unfolding check_path attach_round is_attached prepare_target validate_id lift ask ◌>>=◌
node_stage_volume polls req = do
  env ← ask
  validate_id req.volume_id "volume"
  lift (validate_volume_context req.publish_context)
  check_path req.staging_target_path "must specify staging target path"
  lift (validate_volume_capability (capability_of req.capability))
  volume ← retry_on_conflict 4 (attach_round req.volume_id)
  attached ← watch_volume_until polls (is_attached env) volume
  prepare_target attached req.staging_target_path (capability_of req.capability).access_type

-- a symbolic link at the path is removed
unfoldable pub remove_link : String → Exec (Unit {0})
unfolding do_file try pure throw ◌>>=◌
remove_link path = do
  found ← try (do_file (lstat path))
  elim found [
    | ok is_link ↦ if is_link then (do do_file (remove_file path); pure tt) else pure tt
    | err not_found ↦ pure tt
    | err e ↦ throw (rpc internal "error determining if dir is a symbolic link")
  ]

unfoldable pub clean_up_target : String → Exec (Unit {0})
unfolding or_internal remove_link do_file pure ◌>>=◌
clean_up_target path = do
  sure ←
      or_internal "failed to determine whether target is a mount point"
        (do_file (is_mount_point path))
  if sure
      then (do
        or_internal "failed to clean up mount point" (do_file (clean_up_mount_point path))
        pure tt)
      else remove_link path

-- one round of `NodeUnstageVolume`: this node is taken out of AttachToNodes
unfoldable pub detach_round : String → Exec Volume
unfolding get_existing contains remove_all ask pure write_volume ◌>>=◌
detach_round name = do
  env ← ask
  volume ← get_existing name "volume does not exist"
  if contains volume.spec.attach_to_nodes env.local_node_name
      then write_volume update
          (with_nodes volume (remove_all volume.spec.attach_to_nodes env.local_node_name))
      else pure volume

unfoldable pub node_unstage_volume : ℕ → (volume_id staging_target_path : String) → Exec (Unit {0})
unfolding check_path clean_up_target detach_round is_attached validate_id ask pure ◌>>=◌
node_unstage_volume polls volume_id path = do
  env ← ask
  validate_id volume_id "volume"
  check_path path "must specify staging target path"
  clean_up_target path
  volume ← retry_on_conflict 4 (detach_round volume_id)
  watch_volume_until polls (λ v. not (is_attached env v)) volume
  pure tt
