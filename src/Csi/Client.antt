-- ===== src/Csi/Client.antt =====
-- internal/csi/common/client/client.go: waiting for a resource. The code polls until its context ends;
-- `polls` is the number of polls that the context leaves, and each wait takes it as an argument.
pub mod Waiting
pub mod Deletion
use kubesan.Prelude.{ℕ, zero, suc, String, Bool, true, false, if◌then◌else◌}
use kubesan.Api.{Volume, Snapshot}
use kubesan.Exec.{
  Err, not_found, unavailable, Result, ok, err, Exec, pure, throw, lift, try, ignore_not_found,
  get_volume, get_snapshot, delete_volume, delete_snapshot, ◌>>=◌, ◌>>◌,
}

-- The wait of `watchObjectUntil` behind its first test. `get` reads the object, and `check` says of
-- what it answers whether the wait is over, or which error ends it.
module _ {A : Type 0} (get : Exec A) (check : Result A → Result Bool) where
  unfoldable pub poll_until : ℕ → A → Exec A
  poll_until zero object = throw (unavailable "context ended")
  poll_until (suc polls) object = do
    read ← try get
    done ← lift (check read)
    let next : A = elim read [ ok found ↦ found | err e ↦ object ]
    if done then pure next else poll_until polls next

unfoldable pub not_done : Result (Unit {0}) → Result Bool
not_done (ok u) = ok false
not_done (err e) = err e

-- the condition of `WatchVolumeUntil` and `WatchSnapshotUntil`
unfoldable pub until : {A : Type 0} → (A → Bool) → Result A → Result Bool
unfolding ignore_not_found not_done
until condition (ok object) = ok (condition object)
until condition (err e) = not_done (ignore_not_found e)

unfoldable pub watch_volume_until : ℕ → (Volume → Bool) → Volume → Exec Volume
watch_volume_until polls condition volume =
    if condition volume
    then pure volume
    else poll_until (get_volume volume.metadata.name) (until condition) polls volume

unfoldable pub watch_snapshot_until : ℕ → (Snapshot → Bool) → Snapshot → Exec Snapshot
watch_snapshot_until polls condition snapshot =
    if condition snapshot
    then pure snapshot
    else poll_until (get_snapshot snapshot.metadata.name) (until condition) polls snapshot

-- the condition of `DeleteAndConfirm`
unfoldable pub until_gone : {A : Type 0} → Result A → Result Bool
until_gone (ok object) = ok false
until_gone (err not_found) = ok true
until_gone (err e) = err e

unfoldable pub delete_volume_and_confirm : ℕ → Volume → Exec (Unit {0})
delete_volume_and_confirm polls volume = do
  deleted ← try (delete_volume volume)
  elim deleted [
    | err e ↦ lift (ignore_not_found e)
    | ok u ↦ (do poll_until (get_volume volume.metadata.name) until_gone polls volume; pure tt)
  ]

unfoldable pub delete_snapshot_and_confirm : ℕ → Snapshot → Exec (Unit {0})
delete_snapshot_and_confirm polls snapshot = do
  deleted ← try (delete_snapshot snapshot.metadata.name)
  elim deleted [
    | err e ↦ lift (ignore_not_found e)
    | ok u ↦ (do
      poll_until (get_snapshot snapshot.metadata.name) until_gone polls snapshot
      pure tt)
  ]
