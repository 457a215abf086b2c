-- ===== src/VolumeNode/Thin.antt =====
-- internal/manager/node/volume_node_controller.go: attaching a thin volume to this node, and detaching
-- it.
use kubesan.Prelude.{
  ℕ, String, List, [], ◌∷◌, Option, none, some, Bool, true, false, not, ◌&&◌, ◌==◌, string_eq,
  nat_beq, length, if◌then◌else◌,
}
use kubesan.Slices.{contains}
use kubesan.Api.{
  Volume, ThinPoolLv, ThinLvSpec, ThinLvStatus, ThinLvSpecStateName, NbdExport, find_thin_lv_spec,
  find_thin_lv_status, with_thin_lv_spec,
}
use kubesan.Exec.{
  Env, Err, not_found, bad_request, watch_pending, panicked, Result, ok, err, Exec, pure, throw,
  lift, try, ask, ignore_not_found, get_pool, get_export, ◌>>=◌, ◌>>◌,
}
use kubesan.Dm
use kubesan.Nbd.Client.{connect_client}
use kubesan.ThinPool.{
  volume_to_thin_lv_name, is_removed_spec, is_active_spec, update_thin_pool_lv, with_active_on_node,
  status_is_active,
}
use kubesan.VolumeNode.{
  dev_name, interested_in, is_thin_lv_active_on_local_node, update_status_attached_to_nodes,
}
use kubesan.VolumeNode.Exports.{no_export, reconcile_thin_nbd_cleanup, reconcile_thin_nbd_setup}

-- the device, and the size that it has
abbrev pub Source : Type 0
Source = ℕ × String

-- nbdExport after `Get`
found_export : Result NbdExport → Exec NbdExport
unfolding pure throw
found_export (ok e) = pure e
found_export (err not_found) = pure no_export
found_export (err x) = throw x

-- another node has the thin LV: it is reached through its export
unfoldable pub connect_source : Volume → Exec Source
unfolding found_export connect_client get_export try pure throw ◌>>=◌
connect_source volume =
    if volume.status.nbd_export == "" then throw (watch_pending "waiting for NBD server") else (do
      got ← try (get_export volume.status.nbd_export)
      e ← found_export got
      (e', device) ← connect_client e
      pure (e'.spec.size_bytes, device))

-- this node has the thin LV, or will have it
unfoldable pub local_source : Volume → ThinPoolLv → ℕ → Exec Source
unfolding is_thin_lv_active_on_local_node ask pure throw ◌>>=◌
local_source volume pool size_bytes = do
  env ← ask
  if not (is_thin_lv_active_on_local_node env pool (volume_to_thin_lv_name volume.metadata.name))
      then throw (watch_pending "waiting for thinlv activation")
      else pure (size_bytes, dev_name volume)

unfoldable pub find_source : Volume → ThinPoolLv → ℕ → Exec Source
unfolding connect_source local_source ask ◌>>=◌
find_source volume pool size_bytes = do
  env ← ask
  if pool.spec.active_on_node == env.local_node_name
      then local_source volume pool size_bytes
      else connect_source volume

-- nodes[0]
first_node : List String → Exec String
unfolding pure throw
first_node [] = throw panicked
first_node (node ∷ nodes) = pure node

-- the thin LV is requested as active; its size is the one of its status
request_attached :
    ThinPoolLv → String → Option ThinLvSpec → Option ThinLvStatus → Result (ThinPoolLv × ℕ)
unfolding is_removed_spec
request_attached pool name (some lv) (some status) =
    if is_removed_spec lv.state
    then err (bad_request "unexpected missing blob")
    else ok (
      with_thin_lv_spec pool name (λ l. record l { state = ThinLvSpecStateName.active }),
      status.size_bytes,
    )
request_attached pool name _ _ = err (bad_request "unexpected missing blob")

unfoldable pub reconcile_thin_attaching : Volume → ThinPoolLv → Exec (Volume × ThinPoolLv)
unfolding request_attached first_node find_source interested_in update_thin_pool_lv Dm.create
    Dm.resume lift pure ◌>>=◌
reconcile_thin_attaching volume pool = do
  let name = volume_to_thin_lv_name volume.metadata.name
  (requested, size_bytes) ←
      lift
        (request_attached pool name (find_thin_lv_spec pool name) (find_thin_lv_status pool name))
  Dm.create volume.metadata.name size_bytes
  let (nodes, v) = interested_in requested volume
  node ← first_node nodes
  updated ← update_thin_pool_lv (some pool) (with_active_on_node requested node)
  source ← find_source v updated.1 size_bytes
  Dm.resume v.metadata.name source.0 source.1
  pure (v, updated.1)

-- the thin LV is not requested as active any more if no node wants the volume
request_detached : ThinPoolLv → String → List String → Option ThinLvSpec → ThinPoolLv
unfolding is_active_spec
request_detached pool name [] (some lv) =
    if is_active_spec lv.state
    then with_thin_lv_spec pool name (λ l. record l { state = ThinLvSpecStateName.inactive })
    else pool
request_detached pool name nodes lv = pool

abbrev first_or_none : List String → String
first_or_none [] = ""
first_or_none (node ∷ nodes) = node

unfoldable pub release_pool : Volume → ThinPoolLv → Exec (Volume × ThinPoolLv)
unfolding request_detached interested_in update_thin_pool_lv status_is_active pure throw ◌>>=◌
release_pool volume pool = do
  let name = volume_to_thin_lv_name volume.metadata.name
  let released =
      request_detached pool name volume.spec.attach_to_nodes (find_thin_lv_spec pool name)
  let (nodes, v) = interested_in released volume
  updated ← update_thin_pool_lv (some pool) (with_active_on_node released (first_or_none nodes))
  if nat_beq (length v.spec.attach_to_nodes) 0
        && status_is_active (find_thin_lv_status updated.1 name)
      then throw (watch_pending "waiting for thinlv deactivation")
      else pure (v, updated.1)

unfoldable pub reconcile_thin_detaching : Volume → ThinPoolLv → Exec (Volume × ThinPoolLv)
unfolding release_pool Dm.remove ask pure ◌>>=◌
reconcile_thin_detaching volume pool = do
  env ← ask
  Dm.remove volume.metadata.name
  if not (pool.status.active_on_node == env.local_node_name)
        && not (pool.spec.active_on_node == env.local_node_name)
      then pure (volume, pool)
      else release_pool volume pool

is_none {ℓ} : {A : Type ℓ} → Option A → Bool
is_none none = true
is_none (some a) = false

-- whether the volume belongs on this node
unfoldable pub should_be_attached : Env → Volume → Bool
unfolding is_none contains
should_be_attached env volume =
    is_none volume.metadata.deletion_timestamp
    && contains volume.spec.attach_to_nodes env.local_node_name

-- `reconcileThin` with the pool and the status of the thin LV
unfoldable pub reconcile_thin_lv : Volume → ThinPoolLv → ThinLvStatus → Exec (Unit {0})
unfolding reconcile_thin_nbd_cleanup reconcile_thin_attaching reconcile_thin_detaching
    update_status_attached_to_nodes reconcile_thin_nbd_setup should_be_attached ask pure ◌>>=◌
reconcile_thin_lv volume pool status = do
  env ← ask
  v ← reconcile_thin_nbd_cleanup volume pool status.size_bytes
  let attached = should_be_attached env v
  (w, updated) ←
      (if attached then reconcile_thin_attaching v pool else reconcile_thin_detaching v pool)
  x ← update_status_attached_to_nodes w attached updated
  reconcile_thin_nbd_setup x updated
  pure tt

-- a thin LV that is missing is an error, unless the volume is being deleted and not on this node
missing_thin_lv : Volume → Exec (Unit {0})
unfolding is_none contains ask pure throw ◌>>=◌
missing_thin_lv volume = do
  env ← ask
  if not (is_none volume.metadata.deletion_timestamp)
        && not (contains volume.status.attached_to_nodes env.local_node_name)
      then pure tt
      else throw (bad_request "unexpected missing blob")

-- what is made of the answer of `Get`
thin_pool_missing : Volume → Err → Exec (Unit {0})
unfolding is_none ignore_not_found lift throw
thin_pool_missing volume e =
    if not (is_none volume.metadata.deletion_timestamp) then lift (ignore_not_found e) else throw e

unfoldable pub reconcile_thin : Volume → Exec (Unit {0})
unfolding thin_pool_missing missing_thin_lv reconcile_thin_lv get_pool try ◌>>=◌
reconcile_thin volume = do
  got ← try (get_pool volume.metadata.name)
  elim got [
    | err e ↦ thin_pool_missing volume e
    | ok pool ↦ elim (find_thin_lv_status pool (volume_to_thin_lv_name volume.metadata.name)) [
      | none ↦ missing_thin_lv volume
      | some status ↦ reconcile_thin_lv volume pool status
    ]
  ]
