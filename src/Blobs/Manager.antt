-- ===== src/Blobs/Manager.antt =====
-- internal/manager/common/blobs/blob_manager.go: what the controllers know of a blob manager, and the
-- two that there are. The linear one is blob_manager_linear.go; the thin one is Blobs and Blobs/Create.
use Prim.Native.String.{◌++◌ as ◌<>◌}
use kubesan.Prelude.{
  ℕ, String, List, [], ◌∷◌, Option, none, some, Bool, true, false, not, if◌then◌else◌,
}
use kubesan.Prelude.Text.{decimal}
use kubesan.Exec.{bad_request, Exec, pure, throw, ask, get_pool, ◌>>=◌, ◌>>◌}
use kubesan.Commands.{
  must, lvm_lv_create_idempotent, lvm_lv_extend_idempotent, lvm_lv_remove_idempotent, lvm_size,
}
use kubesan.Dm.{get_device_path}
use kubesan.ThinPool.{activate_thin_lv, with_active_on_node}
use kubesan.Blobs.{remove_blob}
use kubesan.Blobs.Create.{
  create_blob, get_size, snapshot_blob, activate_blob_for_clone_source, deactivate_blob,
}

-- `thin_pool` is the pool's name in a `*ThinBlobManager`, and none in another manager: it answers the
-- type assertion in `ActivateBlobForCloneTarget`, whose data source is given by its `thin_pool`.
pub record BlobManager : Type 0 where
  pub thin_pool : Option String
  pub create_blob : (name binding : String) (size_bytes : ℕ) (owner : String) → Exec (Unit {0})
  pub remove_blob : (name owner : String) → Exec (Unit {0})
  pub snapshot_blob : (name binding source_name owner : String) → Exec (Unit {0})
  pub activate_blob_for_clone_source : (name owner : String) → Exec (Unit {0})
  pub activate_blob_for_clone_target :
      (name : String) (data_source : Option (Option String)) → Exec String
  pub deactivate_blob_for_clone_source : (name : String) → Exec (Unit {0})
  pub deactivate_blob_for_clone_target : (name : String) → Exec (Unit {0})
  pub get_size : (name : String) → Exec ℕ
  pub get_path : (name : String) → String
  pub expansion_must_be_offline : Bool
  pub size_needs_check : (staged : Bool) → Bool

-- The node that is returned stands beside the call that may change it: which is read first is left
-- open by Go.
unfoldable pub activate_on_source_node : String → String → String → Exec String
unfolding activate_thin_lv get_pool ask throw pure ◌>>=◌
activate_on_source_node pool_name name source_pool = do
  env ← ask
  pool ← get_pool pool_name
  source ← get_pool source_pool
  let node = source.status.active_on_node
  activated ← activate_thin_lv (some pool) (with_active_on_node pool node) name
  pure (if env.reads_before_call then node else activated.1.spec.active_on_node)

unfoldable pub activate_target : String → String → Option (Option String) → Exec String
unfolding activate_on_source_node get_pool throw pure ◌>>=◌
activate_target pool_name name none = pure ""
activate_target pool_name name (some none) = do
  get_pool pool_name
  throw (bad_request "Data source is not a thin-pool!")
activate_target pool_name name (some (some source_pool)) =
    activate_on_source_node pool_name name source_pool

-- NewThinBlobManager
unfoldable pub thin_blob_manager : String → String → BlobManager
thin_blob_manager vg_name pool_name = record {
  thin_pool = some pool_name;
  create_blob = create_blob vg_name;
  remove_blob = remove_blob pool_name;
  snapshot_blob = snapshot_blob pool_name;
  activate_blob_for_clone_source = activate_blob_for_clone_source pool_name;
  activate_blob_for_clone_target = activate_target pool_name;
  deactivate_blob_for_clone_source = deactivate_blob pool_name;
  deactivate_blob_for_clone_target = deactivate_blob pool_name;
  get_size = get_size pool_name;
  get_path = get_device_path;
  expansion_must_be_offline = false;
  size_needs_check = λ staged. not staged;
}

module _ (vg_name : String) where
  unfoldable pub linear_create_args : String → ℕ → List String
  linear_create_args name size_bytes =
      "--devicesfile"
      ∷ vg_name
      ∷ "--activate"
      ∷ "ey"
      ∷ "--zero"
      ∷ "y"
      ∷ "--wipesignatures"
      ∷ "n"
      ∷ "--type"
      ∷ "linear"
      ∷ "--metadataprofile"
      ∷ "kubesan"
      ∷ "--name"
      ∷ name
      ∷ "--size"
      ∷ (decimal size_bytes <> "b")
      ∷ vg_name
      ∷ []

  unfoldable pub linear_create_blob : String → String → ℕ → String → Exec (Unit {0})
  unfolding linear_create_args must lvm_lv_create_idempotent lvm_lv_extend_idempotent pure ◌>>=◌
  linear_create_blob name binding size_bytes owner = do
    must (lvm_lv_create_idempotent binding (linear_create_args name size_bytes))
    must (
        lvm_lv_extend_idempotent (
          "--devicesfile"
          ∷ vg_name
          ∷ "--size"
          ∷ (decimal size_bytes <> "b")
          ∷ (vg_name <> ("/" <> name))
          ∷ []))
    pure tt

  unfoldable pub linear_remove_blob : String → String → Exec (Unit {0})
  unfolding must lvm_lv_remove_idempotent pure ◌>>=◌
  linear_remove_blob name owner = do
    must (lvm_lv_remove_idempotent ("--devicesfile" ∷ vg_name ∷ (vg_name <> ("/" <> name)) ∷ []))
    pure tt

-- NewLinearBlobManager
unfoldable pub linear_blob_manager : String → BlobManager
unfolding linear_create_blob linear_remove_blob lvm_size ask throw pure ◌>>=◌
linear_blob_manager vg_name = record {
  thin_pool = none;
  create_blob = linear_create_blob vg_name;
  remove_blob = linear_remove_blob vg_name;
  snapshot_blob =
      λ name binding source owner. throw (bad_request "linear volumes do not support snapshots");
  activate_blob_for_clone_source =
      λ name owner. throw (bad_request "linear volumes do not support cloning");
  activate_blob_for_clone_target = λ name data_source. (do env ← ask; pure env.local_node_name);
  deactivate_blob_for_clone_source =
      λ name. throw (bad_request "linear volumes do not support cloning");
  deactivate_blob_for_clone_target = λ name. pure tt;
  get_size = lvm_size vg_name;
  get_path = λ name. "/dev/" <> (vg_name <> ("/" <> name));
  expansion_must_be_offline = true;
  size_needs_check = λ staged. true;
}
