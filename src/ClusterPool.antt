-- ===== src/ClusterPool.antt =====
-- internal/manager/cluster/thinpoollv_controller.go: what the cluster controller does for the thin
-- pools: it creates the LVM thin pool, and removes it when nothing uses it any more.
pub mod Creation
pub mod Deletion
use Prim.Native.String.{◌++◌ as ◌<>◌}
use kubesan.Prelude.{
  ℕ, String, List, [], ◌∷◌, Option, none, some, Bool, true, false, not, ltb, length, if◌then◌else◌,
}
use kubesan.Prelude.Text.{decimal}
use kubesan.Api.{ThinPoolLv, Condition, condition_true}
use kubesan.Exec.{
  Result, ok, err, Exec, pure, lift, try, ask, get_pool, write_pool, update, ignore_not_found,
  ◌>>=◌, ◌>>◌,
}
use kubesan.Commands.{Output, must, lvm_lv_create_idempotent, lvm_lv_remove_idempotent}
use kubesan.NodePool.{status_update, lv_path}

-- config.Finalizer
unfoldable pub finalizer : String → String
finalizer domain = domain <> "/finalizer"

unfoldable pub create_args : ThinPoolLv → List String
create_args pool =
    "--devicesfile"
    ∷ pool.spec.vg_name
    ∷ "--activate"
    ∷ "n"
    ∷ "--type"
    ∷ "thin-pool"
    ∷ "--metadataprofile"
    ∷ "kubesan"
    ∷ "--name"
    ∷ pool.metadata.name
    ∷ "--size"
    ∷ (decimal pool.spec.size_bytes <> "b")
    ∷ pool.spec.vg_name
    ∷ []

available_condition : Condition
available_condition = record {
  type = "Available";
  status = condition_true;
  reason = "Created";
  message = "thin pool logical volume created";
  last_transition_time = 0;
}

unfoldable pub create_thin_pool_lv : ThinPoolLv → Exec (Unit {0})
unfolding create_args available_condition ask ◌>>=◌
create_thin_pool_lv pool = do
  must (lvm_lv_create_idempotent "" (create_args pool))
  env ← ask
  let conditions = (env.set_status_condition pool.status.conditions available_condition).0
  status_update (record pool { status = record pool.status { conditions = conditions } })
  pure tt

unfoldable pub remove_pool_lv : ThinPoolLv → Exec Output
unfolding lv_path
remove_pool_lv pool = must (
    lvm_lv_remove_idempotent
      ("--devicesfile" ∷ pool.spec.vg_name ∷ lv_path pool pool.metadata.name ∷ []))

-- `if controllerutil.RemoveFinalizer(...) { r.Update(...) }`
unfoldable pub drop_finalizer : ThinPoolLv → Exec (Unit {0})
unfolding ask pure ◌>>=◌
drop_finalizer pool = do
  env ← ask
  let (metadata, changed) = env.remove_finalizer pool.metadata (finalizer env.domain)
  if changed then (do write_pool update (record pool { metadata = metadata }); pure tt) else pure tt

unfoldable pub remove_thin_pool_lv : ThinPoolLv → Exec (Unit {0})
unfolding ◌>>=◌
remove_thin_pool_lv pool = do remove_pool_lv pool; drop_finalizer pool

-- The pool as it is stored with its finalizer.
unfoldable pub ensure_finalizer : ThinPoolLv → Exec ThinPoolLv
unfolding ask pure ◌>>=◌
ensure_finalizer pool = do
  env ← ask
  let (metadata, changed) = env.add_finalizer pool.metadata (finalizer env.domain)
  if changed then write_pool update (record pool { metadata = metadata }) else pure pool

unfoldable pub reconcile_not_deleting : ThinPoolLv → Exec (Unit {0})
unfolding ask pure ◌>>=◌
reconcile_not_deleting pool = do
  stored ← ensure_finalizer pool
  env ← ask
  if not (env.is_status_condition_true stored.status.conditions "Available")
      then create_thin_pool_lv stored
      else pure tt

unfoldable pub reconcile_deleting : ThinPoolLv → Exec (Unit {0})
unfolding ask pure ◌>>=◌
reconcile_deleting pool = do
  env ← ask
  if env.is_status_condition_true pool.status.conditions "Active"
      then pure tt
      else if ltb 0 (length pool.status.thin_lvs)
      then pure tt
      else remove_thin_pool_lv pool

-- what `Reconcile` does with the pool that it has read
unfoldable pub reconcile_pool : ThinPoolLv → Option ℕ → Exec (Unit {0})
reconcile_pool pool none = reconcile_not_deleting pool
reconcile_pool pool (some deleted_at) = reconcile_deleting pool

unfoldable pub reconcile : String → Exec (Unit {0})
unfolding reconcile_pool ignore_not_found try get_pool lift ◌>>=◌
reconcile name = do
  read ← try (get_pool name)
  elim read [
    | ok pool ↦ reconcile_pool pool pool.metadata.deletion_timestamp
    | err e ↦ lift (ignore_not_found e)
  ]
