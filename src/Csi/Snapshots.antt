-- ===== src/Csi/Snapshots.antt =====
-- internal/csi/controller/snapshot.go: the handlers for snapshots. `slices.SortFunc` is an insertion
-- sort: the order that it sorts by tells any two snapshots apart, so the result is the same.
pub mod Paging
use Prim.Native.String.{◌++◌ as ◌<>◌}
use kubesan.Prelude.{
  ℕ, zero, suc, ◌+◌, ◌-◌, String, List, [], ◌∷◌, ◌++◌, Option, none, some, Bool, true, false, not,
  ◌&&◌, ◌||◌, ◌==◌, string_eq, ltb, leb, nat_beq, length, drop, if◌then◌else◌,
}
use kubesan.Prelude.Int.{ℤ}
use kubesan.Prelude.Text.{decimal}
use kubesan.Api.{Volume, VolumeMode, Snapshot, SnapshotSpec, SnapshotStatus, ObjectMeta, Condition}
use kubesan.Exec.{
  Code, invalid_argument, absent, exists, aborted, unimplemented, Err, rpc, not_found,
  already_exists, panicked, Result, ok, err, Env, Exec, pure, throw, lift, try, ask, create,
  get_volume, get_snapshot, write_snapshot, list_snapshots, ◌>>=◌, ◌>>◌,
}
use kubesan.ClusterPool.{finalizer}
use kubesan.Csi.{Parameters, lookup}
use kubesan.Csi.Names.{validate_id, safe_name}
use kubesan.Csi.Client.{watch_snapshot_until, delete_snapshot_and_confirm}
use kubesan.Csi.Listing.{starting_token, max_entries}
use kubesan.Csi.Volumes.{is_deleting}
use kubesan.Csi.Volumes.Create.{new_metadata}

pub record CreateSnapshotRequest : Type 0 where
  pub source_volume_id : String
  pub name : String
  pub secrets : Parameters
  pub parameters : Parameters

pub record SnapshotEntry : Type 0 where
  pub size_bytes : ℕ
  pub snapshot_id : String
  pub source_volume_id : String
  pub creation_time : ℕ

all_expected : Parameters → Bool
all_expected [] = true
all_expected ((key, value) ∷ parameters) =
    (key == "csi.storage.k8s.io/volumesnapshot/name"
      || key == "csi.storage.k8s.io/volumesnapshot/namespace"
      || key == "csi.storage.k8s.io/volumesnapshotcontent/name")
    && all_expected parameters

is_thin : VolumeMode → Bool
is_thin VolumeMode.thin = true
is_thin _ = false

has_filesystem : Volume → Bool
has_filesystem volume = elim volume.spec.type.filesystem [ none ↦ false | some f ↦ true ]

-- the switch of `CreateSnapshot`
unfoldable pub check_snapshot_request : Env → Volume → CreateSnapshotRequest → Result (Unit {0})
unfolding all_expected is_thin has_filesystem
check_snapshot_request env volume req =
    if is_deleting volume.metadata
    then err (rpc absent "volume is marked for deletion")
    else if not (is_thin volume.spec.mode)
    then err (rpc unimplemented "snapshots are only supported on thin volumes")
    else if has_filesystem volume
    then err (rpc unimplemented "filesystem snapshots not implemented yet")
    else if not (env.is_status_condition_true volume.status.conditions "Available")
    then err (rpc absent "source volume is not ready yet")
    else if req.name == ""
    then err (rpc invalid_argument "must specify snapshot name")
    else if ltb 0 (length req.secrets)
    then err (rpc invalid_argument "unexpected secrets")
    else if not (all_expected req.parameters)
    then err (rpc invalid_argument "unexpected parameters")
    else ok tt

unfoldable pub snapshot_binding : String → String → Parameters → String
snapshot_binding request_name name parameters =
    if request_name == name
    then lookup parameters "csi.storage.k8s.io/volumesnapshot/namespace"
      <> ("/" <> lookup parameters "csi.storage.k8s.io/volumesnapshot/name")
    else request_name

unfoldable pub new_snapshot : Env → Volume → CreateSnapshotRequest → String → Snapshot
new_snapshot env volume req name = record {
  metadata = (env.add_finalizer (new_metadata name) (finalizer env.domain)).0;
  spec = record {
    vg_name = volume.spec.vg_name;
    binding = snapshot_binding req.name name req.parameters;
    source_volume = req.source_volume_id;
  };
  status = record { observed_generation = 0; conditions = []; size_bytes = 0 };
}

unfoldable pub check_same_snapshot : Snapshot → CreateSnapshotRequest → Result (Unit {0})
check_same_snapshot snapshot req =
    if is_deleting snapshot.metadata
    then err (rpc exists "snapshot deletion is already in progress")
    else if not (req.source_volume_id == snapshot.spec.source_volume)
    then err (rpc exists "snapshot already exists with different source")
    else ok tt

source_error : Result Volume → Result Volume
source_error (err not_found) = err (rpc absent "volume not found")
source_error r = r

create_or_check : CreateSnapshotRequest → Snapshot → Exec Snapshot
create_or_check req asked = do
  created ← try (write_snapshot create asked)
  elim created [
    | ok snapshot ↦ pure snapshot
    | err already_exists ↦ (do
      snapshot ← get_snapshot asked.metadata.name
      lift (check_same_snapshot snapshot req)
      pure snapshot)
    | err e ↦ throw e
  ]

-- `condition.LastTransitionTime` behind a nil check that is not made
transition_time : Option Condition → Result ℕ
transition_time none = err panicked
transition_time (some condition) = ok condition.last_transition_time

unfoldable pub create_snapshot : ℕ → CreateSnapshotRequest → Exec SnapshotEntry
unfolding source_error create_or_check transition_time
create_snapshot polls req = do
  validate_id req.source_volume_id "volume"
  read ← try (get_volume req.source_volume_id)
  volume ← lift (source_error read)
  env ← ask
  lift (check_snapshot_request env volume req)
  let name = safe_name req.name "snapshot"
  created ← create_or_check req (new_snapshot env volume req name)
  snapshot ←
      watch_snapshot_until polls (λ s. env.is_status_condition_true s.status.conditions "Available")
        created
  time ← lift (transition_time (env.find_status_condition snapshot.status.conditions "Available"))
  pure (record {
    size_bytes = snapshot.status.size_bytes;
    snapshot_id = snapshot.metadata.name;
    source_volume_id = snapshot.spec.source_volume;
    creation_time = time;
  })

no_secrets : Parameters → Result (Unit {0})
no_secrets [] = ok tt
no_secrets (_ ∷ _) = err (rpc invalid_argument "unexpected secrets")

-- the object that is deleted has a name and no more
named : String → Snapshot
named name = record {
  metadata = record (new_metadata name) { labels = none };
  spec = record { vg_name = ""; binding = ""; source_volume = "" };
  status = record { observed_generation = 0; conditions = []; size_bytes = 0 };
}

unfoldable pub delete_snapshot : ℕ → String → Parameters → Exec (Unit {0})
unfolding no_secrets named
delete_snapshot polls snapshot_id secrets = do
  validate_id snapshot_id "snapshot"
  lift (no_secrets secrets)
  delete_snapshot_and_confirm polls (named snapshot_id)
