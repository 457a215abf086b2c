-- ===== src/Blobs/Quiet.antt =====
-- What the operations of a blob manager leave alone: they call the API server for pools, and LVM.
pub mod Linear
pub mod Pools
pub mod Thin
use kubesan.Prelude.{ℕ, String, List, ◌∷◌, Option, none, some, true, false, not}
use kubesan.Api.{ThinPoolLv, ThinLvContents, find_thin_lv_spec, find_thin_lv_status}
use kubesan.Prelude.Int.{ℤ, pos, negsuc}
use kubesan.Exec.{
  parse_failed, Env, Trace, Result, ok, err, already_exists, Verb, Exit, got_pool, wrote_pool,
  deleted_pool, ran, get_pool, write_pool, delete_pool, create, pure, throw, lift, try, ask,
  ignore_not_found, ◌>>=◌,
}
use kubesan.Exec.Rules.{
  Keeps, Keeps-bind, Keeps-pure, Keeps-throw, Keeps-lift, Keeps-try, Keeps-if, Keeps-ask,
  Keeps-elim_option, Keeps-elim_result, keeps_rules,
}
use kubesan.Commands.{lvm_size, parsed_size, lvm_lv_extend_idempotent}
use kubesan.Commands.Traces.{
  must-Keeps, lvm-Keeps, lvm_lv_remove_idempotent-Keeps, lvm_lv_create_idempotent-Keeps,
}
use kubesan.ThinPool.{
  update_thin_pool_lv, activate_thin_lv, deactivate_thin_lv, volume_to_thin_lv_name,
}
use kubesan.Blobs.{
  Copies, create_thin_lv, request_thin_lv_removal, without_first, forget_removed_thin_lv,
  delete_if_empty, finish_removal, remove_from_pool, remove_blob, is_deletable,
  check_thin_lv_removed,
}
use kubesan.Blobs.Create.{
  create_pool_object, finish_creation, create_and_wait, create_blob, get_size, snapshot_blob,
  activate_blob_for_clone_source, deactivate_blob, snapshot_source,
}
use kubesan.Blobs.Manager.{
  BlobManager, activate_on_source_node, activate_target, thin_blob_manager, linear_create_blob,
  linear_remove_blob, linear_blob_manager,
}

-- `P` does not look at the calls for pools, nor at commands.
pub record IgnoresBlobs (P : Trace → Type 0) : Type 0 where
  pub on_get : (name : String) (r : Result ThinPoolLv) (t : Trace) → P t → P (got_pool name r ∷ t)
  pub on_write :
      (v : Verb) (p : ThinPoolLv) (r : Result ThinPoolLv) (t : Trace)
      → P t
      → P (wrote_pool v p r ∷ t)
  pub on_delete :
      (p : ThinPoolLv) (r : Result (Unit {0})) (t : Trace) → P t → P (deleted_pool p r ∷ t)
  pub on_command : (c : List String) (e : Exit) (t : Trace) → P t → P (ran c e ∷ t)

-- What a client relies on: no operation of the manager breaks `P`.
pub record Quiet (env : Env) (P : Trace → Type 0) (m : BlobManager) : Type 0 where
  pub create_blob : (n b : String) (s : ℕ) (o : String) → Keeps env P (m.create_blob n b s o)
  pub remove_blob : (n o : String) → Keeps env P (m.remove_blob n o)
  pub snapshot_blob : (n b s o : String) → Keeps env P (m.snapshot_blob n b s o)
  pub activate_source : (n o : String) → Keeps env P (m.activate_blob_for_clone_source n o)
  pub activate_target :
      (n : String) (d : Option (Option String)) → Keeps env P (m.activate_blob_for_clone_target n d)
  pub deactivate_source : (n : String) → Keeps env P (m.deactivate_blob_for_clone_source n)
  pub deactivate_target : (n : String) → Keeps env P (m.deactivate_blob_for_clone_target n)
  pub get_size : (n : String) → Keeps env P (m.get_size n)
