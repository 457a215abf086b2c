-- ===== src/Blobs/Create.antt =====
-- internal/manager/common/blobs/blob_manager_thin.go: creating, expanding, snapshotting, and
-- activating blobs. The fields of the manager are arguments of the functions that read them.
use kubesan.Prelude.{ℕ, String, [], Option, none, some, min, string_eq, ◌<>◌, if◌then◌else◌}
use kubesan.Api.{
  ThinPoolLv, ThinPoolLvStatus, ThinLvSpec, ThinLvContents, ThinLvContentsType, find_thin_lv_spec,
  find_thin_lv_status,
}
use kubesan.Exec.{
  Env, already_exists, bad_request, watch_pending, Result, ok, err, Exec, pure, throw, lift, try,
  ask, ignore_not_found, get_pool, write_pool, create, ◌>>=◌,
}
use kubesan.ThinPool.{
  update_thin_pool_lv, volume_to_thin_lv_name, is_removed_spec, activate_thin_lv,
  deactivate_thin_lv,
}
use kubesan.ClusterPool.{finalizer}
use kubesan.Csi.Volumes.Create.{new_metadata}
use kubesan.Blobs.{Copies, create_thin_lv, check_thin_lv_exists}

abbrev no_status : ThinPoolLvStatus
no_status = record { observed_generation = 0; conditions = []; active_on_node = ""; thin_lvs = [] }

-- the object that `createThinPoolLv` sends, but for its owner
unfoldable pub new_pool : Env → String → String → ℕ → ThinPoolLv
new_pool env vg_name name size = record {
  metadata = (env.add_finalizer (new_metadata name) (finalizer env.domain)).0;
  spec = record {
    vg_name = vg_name;
    size_bytes = min size 1073741824;
    thin_lvs = [];
    active_on_node = "";
  };
  status = no_status;
}

with_owner : Env → String → ThinPoolLv → Result ThinPoolLv
with_owner env owner pool = elim (env.set_owner_reference owner pool.metadata) [
  | ok metadata ↦ ok (record pool { metadata = metadata })
  | err e ↦ err e
]

unfoldable pub create_pool_object : String → String → ℕ → String → Exec ThinPoolLv
unfolding new_pool with_owner lift try throw pure ask get_pool write_pool ◌>>=◌
create_pool_object vg_name name size owner = do
  env ← ask
  owned ← lift (with_owner env owner (new_pool env vg_name name size))
  created ← try (write_pool create owned)
  elim created [ ok pool ↦ pure pool | err already_exists ↦ get_pool name | err e ↦ throw e ]

abbrev pub empty_contents : ThinLvContents
empty_contents = record { contents_type = ThinLvContentsType.empty; source_thin_lv_name = none }

abbrev snapshot_contents : String → ThinLvContents
snapshot_contents source = record {
  contents_type = ThinLvContentsType.snapshot;
  source_thin_lv_name = some source;
}

-- waiting for the thin LV, and the last update of the pool
unfoldable pub finish_creation : String → String → ℕ → Copies → Exec (Unit {0})
unfolding check_thin_lv_exists pure throw ◌>>=◌
finish_creation message name size created =
    if check_thin_lv_exists created.1 name size
    then (update_thin_pool_lv created.0 created.1 >>= λ u. pure tt)
    else throw (watch_pending message)

-- what `CreateBlob` and `SnapshotBlob` end with: create or expand the thin LV, wait, update the pool
unfoldable pub create_and_wait :
    String → ThinPoolLv → ThinPoolLv → String → String → ℕ → ThinLvContents → Exec (Unit {0})
unfolding create_thin_lv finish_creation ◌>>=◌
create_and_wait message old pool name binding size contents =
    create_thin_lv (some old) pool name binding size contents >>= finish_creation message name size

unfoldable pub create_blob : String → String → String → ℕ → String → Exec (Unit {0})
unfolding create_pool_object create_and_wait ◌>>=◌
create_blob vg_name name binding size owner = do
  pool ← create_pool_object vg_name name size owner
  create_and_wait "waiting for thin pool creation" pool pool (volume_to_thin_lv_name name) binding
      size empty_contents

unfoldable pub get_size : String → String → Exec ℕ
unfolding pure throw get_pool ◌>>=◌
get_size pool_name name = do
  pool ← get_pool pool_name
  let thin_lv_name = volume_to_thin_lv_name name
  elim (find_thin_lv_status pool thin_lv_name) [
    | none ↦ throw (bad_request ("thinLv \"" <> (thin_lv_name <> "\" not found")))
    | some status ↦ pure status.size_bytes
  ]

-- sourceThinLv of `SnapshotBlob`
unfoldable pub snapshot_source : Option ThinLvSpec → Result ThinLvSpec
unfolding is_removed_spec
snapshot_source none = err (bad_request "sourceThinLv not found")
snapshot_source (some lv) =
    if is_removed_spec lv.state then err (bad_request "sourceThinLv not found") else ok lv

unfoldable pub snapshot_blob : String → String → String → String → String → Exec (Unit {0})
unfolding snapshot_source with_owner create_and_wait lift ask get_pool ◌>>=◌
snapshot_blob pool_name name binding source_name owner = do
  env ← ask
  pool ← get_pool pool_name
  source ← lift (snapshot_source (find_thin_lv_spec pool (volume_to_thin_lv_name source_name)))
  owned ← lift (with_owner env owner pool)
  create_and_wait "waiting for blob creation" pool owned (volume_to_thin_lv_name name) binding 0
      (snapshot_contents source.name)

unfoldable pub activate_blob_for_clone_source : String → String → String → Exec (Unit {0})
unfolding with_owner activate_thin_lv lift ask pure get_pool ◌>>=◌
activate_blob_for_clone_source pool_name name owner = do
  env ← ask
  pool ← get_pool pool_name
  owned ← lift (with_owner env owner pool)
  activate_thin_lv (some pool) owned name >>= λ u. pure tt

-- `DeactivateBlobForCloneTarget`, and `DeactivateBlobForCloneSource`, which logs more
unfoldable pub deactivate_blob : String → String → Exec (Unit {0})
unfolding deactivate_thin_lv lift try pure get_pool ignore_not_found ◌>>=◌
deactivate_blob pool_name name = do
  got ← try (get_pool pool_name)
  elim got [
    | err e ↦ lift (ignore_not_found e)
    | ok pool ↦ elim (find_thin_lv_spec pool (volume_to_thin_lv_name name)) [
      | none ↦ pure tt
      | some lv ↦ deactivate_thin_lv (some pool) pool name >>= λ u. pure tt
    ]
  ]
