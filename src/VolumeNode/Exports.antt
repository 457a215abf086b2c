-- ===== src/VolumeNode/Exports.antt =====
-- internal/manager/node/volume_node_controller.go: the NBD export of a thin volume that several nodes
-- use (`reconcileThinNBDCleanup`, `reconcileThinNBDSetup`).
use Prim.Native.String.{◌++◌ as ◌<>◌}
use kubesan.Prelude.{
  ℕ, String, List, [], Option, none, some, Bool, true, false, not, ◌&&◌, ◌||◌, ◌==◌, string_eq,
  nat_beq, length, if◌then◌else◌,
}
use kubesan.Slices.{contains}
use kubesan.Api.{Volume, ThinPoolLv, ThinLvStatus, NbdExport, find_thin_lv_status}
use kubesan.Exec.{
  Env, not_found, already_exists, watch_pending, panicked, Result, ok, err, Exec, pure, throw, lift,
  try, ask, get_export, write_export, delete_export, create, update, ◌>>=◌, ◌>>◌,
}
use kubesan.ClusterPool.{finalizer}
use kubesan.Csi.Volumes.Create.{new_metadata}
use kubesan.Dm
use kubesan.Nbd.{should_stop_export}
use kubesan.Nbd.Client.{check_client, disconnect_client}
use kubesan.ThinPool.{volume_to_thin_lv_name}
use kubesan.VolumeController.{status_update}
use kubesan.VolumeNode.{dev_name, interested_in, is_thin_lv_active_on_local_node}

abbrev pub with_nbd_export : Volume → String → Volume
with_nbd_export volume name = record volume { status = record volume.status { nbd_export = name } }

-- &v1alpha1.NBDExport{}, which `Get` leaves as it is if there is none
abbrev pub no_export : NbdExport
no_export = record {
  metadata = record {
    name = "";
    labels = none;
    finalizers = [];
    owner_references = [];
    deletion_timestamp = none;
    generation = 0;
    resource_version = 0;
  };
  spec = record { export_name = ""; path = ""; host = ""; size_bytes = 0; clients = [] };
  status = record { observed_generation = 0; conditions = []; uri = "" };
}

-- what is made of the answer of `Get`: an export that is gone is taken out of the status
unfoldable pub read_export : Volume → Result NbdExport → Exec (Volume × NbdExport)
unfolding status_update pure throw ◌>>=◌
read_export volume (ok e) = pure (volume, e)
read_export volume (err not_found) = do
  v ← status_update (with_nbd_export volume "")
  pure (v, no_export)
read_export volume (err x) = throw x

-- the client is disconnected if it is not wanted any more, or has to be
unfoldable pub clean_up_client : Volume → NbdExport → Exec NbdExport
unfolding check_client disconnect_client Dm.suspend contains ask pure ◌>>=◌
clean_up_client volume e = do
  env ← ask
  (connected, disconnect) ← check_client e
  if connected && not (contains volume.spec.attach_to_nodes env.local_node_name) || disconnect
      then (do
        Dm.suspend volume.metadata.name
            (elim volume.spec.type.block [ none ↦ false | some b ↦ true ])
        disconnect_client e)
      else pure e

-- an export that is gone is deleted
unfoldable pub delete_gone : NbdExport → Exec (Unit {0})
unfolding delete_export try pure throw ◌>>=◌
delete_gone e = do
  deleted ← try (delete_export e)
  elim deleted [ ok u ↦ pure tt | err not_found ↦ pure tt | err x ↦ throw x ]

unfoldable pub request_stop : NbdExport → Exec NbdExport
unfolding pure write_export
request_stop e =
    if not (e.spec.path == "")
    then write_export update (record e { spec = record e.spec { path = "" } })
    else pure e

unfoldable pub stop_serving : Volume → NbdExport → Exec Volume
unfolding request_stop delete_gone status_update throw ◌>>=◌
stop_serving volume e = do
  stopping ← request_stop e
  if nat_beq (length stopping.spec.clients) 0
      then (do delete_gone stopping; status_update (with_nbd_export volume ""))
      else throw (watch_pending "waiting for NBD clients to detach")

unfoldable pub clean_up_server : Volume → ThinPoolLv → NbdExport → ℕ → Exec Volume
unfolding stop_serving interested_in should_stop_export ask pure ◌>>=◌
clean_up_server volume pool e size_bytes = do
  env ← ask
  let (nodes, v) = interested_in pool volume
  if should_stop_export env e nodes size_bytes then stop_serving v e else pure v

unfoldable pub reconcile_thin_nbd_cleanup : Volume → ThinPoolLv → ℕ → Exec Volume
unfolding read_export clean_up_client clean_up_server get_export try pure ◌>>=◌
reconcile_thin_nbd_cleanup volume pool size_bytes =
    if volume.status.nbd_export == "" then pure volume else (do
      got ← try (get_export volume.status.nbd_export)
      (v, e) ← read_export volume got
      e' ← clean_up_client v e
      clean_up_server v pool e' size_bytes)

abbrev pub export_name_of : Env → Volume → String
export_name_of env volume =
    env.local_node_name <> ("-" <> volume_to_thin_lv_name volume.metadata.name)

unfoldable pub new_export : Env → Volume → ℕ → NbdExport
new_export env volume size_bytes = record {
  metadata =
      (env.add_finalizer (new_metadata (export_name_of env volume)) (finalizer env.domain)).0;
  spec = record {
    export_name = volume.metadata.name;
    path = dev_name volume;
    host = env.local_node_name;
    size_bytes = size_bytes;
    clients = [];
  };
  status = record { observed_generation = 0; conditions = []; uri = "" };
}

with_controller : Env → String → NbdExport → Result NbdExport
with_controller env owner e = elim (env.set_controller_reference owner e.metadata) [
  | ok metadata ↦ ok (record e { metadata = metadata })
  | err x ↦ err x
]

unfoldable pub create_export : Volume → Option ThinLvStatus → Exec Volume
unfolding new_export with_controller status_update ask try lift throw pure write_export ◌>>=◌
create_export volume none = throw panicked
create_export volume (some status) = do
  env ← ask
  e ← lift (with_controller env volume.metadata.name (new_export env volume status.size_bytes))
  created ← try (write_export create e)
  elim created [ ok u ↦ pure tt | err already_exists ↦ pure tt | err x ↦ throw x ]
  status_update (with_nbd_export volume (export_name_of env volume))

-- whether this node is to serve the volume to others
unfoldable pub is_server : Env → Volume → ThinPoolLv → List String → Bool
unfolding is_thin_lv_active_on_local_node contains
is_server env volume pool nodes =
    is_thin_lv_active_on_local_node env pool (volume_to_thin_lv_name volume.metadata.name)
    && (contains nodes env.local_node_name && not (nat_beq (length nodes) 1))

unfoldable pub reconcile_thin_nbd_setup : Volume → ThinPoolLv → Exec Volume
unfolding is_server create_export interested_in ask pure ◌>>=◌
reconcile_thin_nbd_setup volume pool = do
  env ← ask
  let (nodes, v) = interested_in pool volume
  if not (is_server env v pool nodes)
      then pure v
      else if v.status.nbd_export == export_name_of env v
      then pure v
      else create_export v (find_thin_lv_status pool (volume_to_thin_lv_name v.metadata.name))
