-- ===== src/SnapshotController.antt =====
-- internal/manager/cluster/snapshot_controller.go: what the cluster controller does for the snapshots.
pub mod Source
use kubesan.Prelude.{ℕ, String, List, [], Option, none, some, Bool, true, false, not, if◌then◌else◌}
use kubesan.Api.{Snapshot, Volume, Condition, condition_true}
use kubesan.Exec.{
  Env, Err, bad_request, watch_pending, Result, ok, err, Exec, pure, throw, lift, try, ask,
  ignore_not_found, get_volume, get_snapshot, write_snapshot, update, update_status, ◌>>=◌, ◌>>◌,
}
use kubesan.ClusterPool.{finalizer}
use kubesan.Blobs.Manager.{BlobManager, thin_blob_manager}
use kubesan.VolumeController.{condition}
use kubesan.VolumeController.Creation.{swallow_wait}

unfoldable pub status_update : Snapshot → Exec Snapshot
unfolding write_snapshot
status_update snapshot = write_snapshot update_status (record snapshot {
  status = record snapshot.status { observed_generation = snapshot.metadata.generation };
})

unfoldable pub ensure_finalizer : Snapshot → Exec Snapshot
unfolding ask pure write_snapshot ◌>>=◌
ensure_finalizer snapshot = do
  env ← ask
  let (metadata, changed) = env.add_finalizer snapshot.metadata (finalizer env.domain)
  if changed then write_snapshot update (record snapshot { metadata = metadata }) else pure snapshot

unfoldable pub drop_finalizer : Snapshot → Exec (Unit {0})
unfolding ask pure write_snapshot ◌>>=◌
drop_finalizer snapshot = do
  env ← ask
  let (metadata, changed) = env.remove_finalizer snapshot.metadata (finalizer env.domain)
  if changed
      then (do write_snapshot update (record snapshot { metadata = metadata }); pure tt)
      else pure tt

unfoldable pub reconcile_deleting : BlobManager → Snapshot → Exec (Unit {0})
unfolding drop_finalizer ◌>>=◌
reconcile_deleting manager snapshot = do
  manager.remove_blob snapshot.metadata.name snapshot.metadata.name
  drop_finalizer snapshot

-- the source volume must be there to stay, and available
unfoldable pub check_source : Volume → Option ℕ → Exec (Unit {0})
unfolding ask pure throw ◌>>=◌
check_source volume (some when) = throw (bad_request "source not found")
check_source volume none = do
  env ← ask
  if not (env.is_status_condition_true volume.status.conditions "Available")
      then throw (watch_pending "waiting for volume to become available")
      else pure tt

abbrev pub created : Condition
created = condition "Available" condition_true "Created" "lvm logical snapshot created"

-- the snapshot with its condition and its size
unfoldable pub with_blob : Env → Snapshot → ℕ → Snapshot
with_blob env snapshot size = record snapshot {
  status = record snapshot.status {
    conditions = (env.set_status_condition snapshot.status.conditions created).0;
    size_bytes = size;
  };
}

unfoldable pub create_snapshot_blob : BlobManager → Snapshot → Exec (Unit {0})
unfolding check_source with_blob status_update get_volume ask pure ◌>>=◌
create_snapshot_blob manager snapshot = do
  env ← ask
  volume ← get_volume snapshot.spec.source_volume
  check_source volume volume.metadata.deletion_timestamp
  manager.snapshot_blob snapshot.metadata.name snapshot.spec.binding snapshot.spec.source_volume
      snapshot.metadata.name
  size ← manager.get_size snapshot.metadata.name
  status_update (with_blob env snapshot size)
  pure tt

-- `reconcileNotDeleting` behind the finalizer
unfoldable pub create_if_needed : BlobManager → Snapshot → Exec (Unit {0})
unfolding create_snapshot_blob ask pure ◌>>=◌
create_if_needed manager snapshot = do
  env ← ask
  if not (env.is_status_condition_true snapshot.status.conditions "Available")
      then create_snapshot_blob manager snapshot
      else pure tt

-- A wait is no error for a snapshot that is not being deleted, as it was stored last.
unfoldable pub end_reconcile : Option ℕ → Result (Unit {0}) → Exec (Unit {0})
unfolding lift
end_reconcile none r = swallow_wait r
end_reconcile (some when) r = lift r

unfoldable pub reconcile_snapshot : BlobManager → Snapshot → Option ℕ → Exec (Unit {0})
unfolding reconcile_deleting ensure_finalizer create_if_needed end_reconcile try ◌>>=◌
reconcile_snapshot manager snapshot (some when) = reconcile_deleting manager snapshot
reconcile_snapshot manager snapshot none = do
  stored ← ensure_finalizer snapshot
  r ← try (create_if_needed manager stored)
  end_reconcile stored.metadata.deletion_timestamp r

unfoldable pub reconcile : String → Exec (Unit {0})
unfolding reconcile_snapshot get_snapshot ignore_not_found try lift ◌>>=◌
reconcile name = do
  got ← try (get_snapshot name)
  elim got [
    | err e ↦ lift (ignore_not_found e)
    | ok snapshot ↦
        reconcile_snapshot (thin_blob_manager "" snapshot.spec.source_volume) snapshot
          snapshot.metadata.deletion_timestamp
  ]
