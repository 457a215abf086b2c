-- ===== src/Csi/Volumes.antt =====
-- internal/csi/controller/volume.go: the handlers for volumes.
pub mod Create
pub mod Change
pub mod Idempotence
pub mod Promises
use Prim.Native.String.{◌++◌ as ◌<>◌}
use kubesan.Prelude.{
  ℕ, zero, suc, ◌+◌, String, List, [], ◌∷◌, ◌++◌, Option, none, some, Bool, true, false, not, ◌&&◌,
  ◌||◌, ◌==◌, string_eq, ltb, leb, length, if◌then◌else◌,
}
use kubesan.Api.{
  VolumeMode, VolumeWipePolicy, VolumeType, VolumeAccessMode, VolumeContents, VolumeContentsType,
  VolumeSpec, VolumeStatus, Volume, Snapshot, ObjectMeta,
}
use kubesan.Exec.{
  Code, invalid_argument, absent, exists, out_of_range, failed_precondition, unimplemented, Err,
  rpc, not_found, already_exists, conflict, Result, ok, err, Env, Exec, pure, throw, lift, try, ask,
  create, update, get_volume, get_snapshot, write_volume, ◌>>=◌, ◌>>◌,
}
use kubesan.ClusterPool.{finalizer}
use kubesan.Csi.{VolumeCapability, Parameters, lookup}
use kubesan.Csi.Capacity.{CapacityRange, default_extent_size, validate_capacity}
use kubesan.Csi.Parameters.{
  get_volume_mode, get_wipe_policy, get_volume_type, get_volume_access_modes, validate_capabilities,
}
use kubesan.Csi.Names.{safe_name, validate_id, validate_volume_context, validate_volume_capability}
use kubesan.Csi.Client.{watch_volume_until, delete_volume_and_confirm}

-- the union behind GetVolume and GetSnapshot of a VolumeContentSource
pub data ContentSource : Type 0 where
  from_volume from_snapshot : String → ContentSource
  unsupported : ContentSource

pub record CreateVolumeRequest : Type 0 where
  pub name : String
  pub parameters : Parameters
  pub capabilities : List VolumeCapability
  pub capacity_range : Option CapacityRange
  pub content_source : Option ContentSource
  pub mutable_parameters : Parameters

pub record CreateVolumeResponse : Type 0 where
  pub capacity_bytes : ℕ
  pub volume_id : String
  pub content_source : Option ContentSource

invalid : {A : Type 0} → String → Result A
invalid message = err (rpc invalid_argument message)

is_known_key : String → Bool
is_known_key key =
    key == "lvmVolumeGroup"
    || key == "mode"
    || key == "wipePolicy"
    || key == "csi.storage.k8s.io/pvc/name"
    || key == "csi.storage.k8s.io/pvc/namespace"
    || key == "csi.storage.k8s.io/pv/name"

unfoldable pub copy_known_parameters : Parameters → Parameters
unfolding is_known_key
copy_known_parameters [] = []
copy_known_parameters ((key, value) ∷ parameters) =
    let rest = copy_known_parameters parameters in
    if is_known_key key then (key, value) ∷ rest else rest

is_filesystem : VolumeType → Bool
is_filesystem type = elim type.filesystem [ none ↦ false | some f ↦ true ]

is_linear : VolumeMode → Bool
is_linear VolumeMode.linear = true
is_linear _ = false

unfoldable pub is_deleting : ObjectMeta → Bool
is_deleting metadata = elim metadata.deletion_timestamp [ none ↦ false | some at ↦ true ]

-- the cases on a source volume that has been read
unfoldable pub check_source_volume : Env → Volume → String → ℕ → VolumeType → Result (Unit {0})
unfolding is_filesystem is_linear is_deleting invalid
check_source_volume env volume vg_name limit volume_type =
    if is_deleting volume.metadata
    then err (rpc absent "source volume is marked for deletion")
    else if not (volume.spec.vg_name == vg_name)
    then invalid "source volume does not live in same volume group as destination"
    else if is_filesystem volume_type
    then invalid "cannot create filesystem volume from a block device source"
    else if is_filesystem volume.spec.type
    then invalid "cannot create block device from a filesystem source"
    else if is_linear volume.spec.mode
    then invalid "cannot clone from a linear volume"
    else if not (env.is_status_condition_true volume.status.conditions "Available")
    then err (rpc absent "source volume is not ready yet")
    else if ltb 0 limit && ltb limit volume.status.size_bytes
    then err (rpc out_of_range "destination capacity is insufficient to accommodate source size")
    else ok tt

unfoldable pub check_source_snapshot : Env → Snapshot → String → ℕ → VolumeType → Result (Unit {0})
unfolding is_filesystem is_deleting invalid
check_source_snapshot env snapshot vg_name limit volume_type =
    if is_deleting snapshot.metadata
    then err (rpc absent "source snapshot is marked for deletion")
    else if not (snapshot.spec.vg_name == vg_name)
    then invalid "source snapshot does not live in same volume group as destination"
    else if is_filesystem volume_type
    then invalid "cannot create filesystem volume from a block device source"
    else if not (env.is_status_condition_true snapshot.status.conditions "Available")
    then err (rpc absent "source snapshot is not ready yet")
    else if ltb 0 limit && ltb limit snapshot.status.size_bytes
    then err (rpc out_of_range "destination capacity is insufficient to accommodate source size")
    else ok tt

-- the first cases of each switch, on the error of `Get`
source_read : {A : Type 0} → String → Result A → Result A
source_read kind (ok a) = ok a
source_read kind (err not_found) = err (rpc absent ("source " <> (kind <> " does not exist")))
source_read kind (err e) = err (rpc invalid_argument ("unable to inspect source " <> kind))

unfoldable pub get_volume_contents :
    Option ContentSource → String → ℕ → VolumeType → Exec VolumeContents
unfolding source_read
get_volume_contents none vg_name limit volume_type = pure (record {
  contents_type = VolumeContentsType.empty;
  source_volume = none;
  source_snapshot = none;
})
get_volume_contents (some (from_volume id)) vg_name limit volume_type = do
  validate_id id "volume"
  read ← try (get_volume id)
  volume ← lift (source_read "volume" read)
  env ← ask
  lift (check_source_volume env volume vg_name limit volume_type)
  pure (record {
    contents_type = VolumeContentsType.clone_volume;
    source_volume = some id;
    source_snapshot = none;
  })
get_volume_contents (some (from_snapshot id)) vg_name limit volume_type = do
  validate_id id "snapshot"
  read ← try (get_snapshot id)
  snapshot ← lift (source_read "snapshot" read)
  env ← ask
  lift (check_source_snapshot env snapshot vg_name limit volume_type)
  pure (record {
    contents_type = VolumeContentsType.clone_snapshot;
    source_volume = none;
    source_snapshot = some id;
  })
get_volume_contents (some unsupported) vg_name limit volume_type =
    throw (rpc invalid_argument "unsupported volume content source")
