-- ===== src/NbdController.antt =====
-- internal/manager/node/nbdexport_node_controller.go: a node starts, checks and stops the exports that
-- it hosts.
pub mod Deletion
use kubesan.Prelude.{
  ℕ, zero, suc, String, List, [], ◌∷◌, Option, none, some, Bool, true, false, not, ◌&&◌, ◌||◌, ◌==◌,
  string_eq, ltb, length, if◌then◌else◌,
}
use kubesan.Api.{NbdExport, Condition, ConditionStatus, condition_true, condition_false}
use kubesan.Exec.{
  Env, Err, conflict, not_found, Result, ok, err, Exec, pure, throw, lift, try, ask,
  ignore_not_found, get_export, write_export, list_exports, update, update_status, read_process,
  ◌>>=◌, ◌>>◌,
}
use kubesan.ClusterPool.{finalizer}
use kubesan.Csi.Volumes.Change.{retry_on_conflict}
use kubesan.Nbd.{start_export, check_export_health, stop_export, export_degraded}

unfoldable pub status_update : NbdExport → Exec NbdExport
unfolding write_export
status_update e =
    write_export update_status
      (record e { status = record e.status { observed_generation = e.metadata.generation } })

abbrev pub available : ConditionStatus → String → String → Condition
available status reason message = record {
  type = "Available";
  status = status;
  reason = reason;
  message = message;
  last_transition_time = 0;
}

-- the export with the condition, and whether that is a change
unfoldable pub with_condition : Env → NbdExport → Condition → NbdExport × Bool
with_condition env e condition =
    let (conditions, changed) = env.set_status_condition e.status.conditions condition in
    (record e { status = record e.status { conditions = conditions } }, changed)

unfoldable pub ensure_finalizer : NbdExport → Exec NbdExport
unfolding ask pure write_export ◌>>=◌
ensure_finalizer e = do
  env ← ask
  let (metadata, changed) = env.add_finalizer e.metadata (finalizer env.domain)
  if changed then write_export update (record e { metadata = metadata }) else pure e

-- a stop that was requested: the export is marked as unavailable if it was available
unfoldable pub note_stopping : NbdExport → Exec NbdExport
unfolding with_condition status_update ask pure ◌>>=◌
note_stopping e = do
  env ← ask
  if e.spec.path == "" && env.is_status_condition_true e.status.conditions "Available"
      then status_update
          (with_condition env e (
            available condition_false "Stopping"
              "server stop requested, waiting for clients to disconnect")).0
      else pure e

unfoldable pub start_if_needed : NbdExport → Exec NbdExport
unfolding with_condition status_update start_export ask pure read_process ◌>>=◌
start_if_needed e = do
  env ← ask
  p ← read_process
  if e.status.uri == "" && not p.blockdevs.shutdown
      then (do
        uri ← start_export e.spec.export_name e.spec.path
        let serving = record e { status = record e.status { uri = uri } }
        status_update
            (with_condition env serving (available condition_true "Ready" "NBD Export is ready")).0)
      else pure e

-- the daemon has lost the export: that is noted, and the error handed on
unfoldable pub note_failure : NbdExport → Err → Exec (Unit {0})
unfolding with_condition status_update ask pure throw ◌>>=◌
note_failure e x = do
  env ← ask
  let (noted, changed) =
      with_condition env e (available condition_false "DeviceError" "unexpected NBD server error")
  if changed then (do status_update noted; throw x) else throw x

unfoldable pub check_health : NbdExport → Exec (Unit {0})
unfolding check_export_health note_failure try pure ◌>>=◌
check_health e =
    if ltb 0 (length e.spec.clients)
    then (do
      checked ← try (check_export_health e.spec.export_name)
      elim checked [ ok u ↦ pure tt | err x ↦ note_failure e x ])
    else pure tt

unfoldable pub reconcile_not_deleting : NbdExport → Exec (Unit {0})
unfolding ensure_finalizer note_stopping start_if_needed check_health ◌>>=◌
reconcile_not_deleting e = do
  stored ← ensure_finalizer e
  noted ← note_stopping stored
  started ← start_if_needed noted
  check_health started

-- `if !nbd.ExportDegraded(export) { ... }`
unfoldable pub note_deleting : NbdExport → Exec NbdExport
unfolding with_condition status_update export_degraded ask pure ◌>>=◌
note_deleting e = do
  env ← ask
  if not (export_degraded env e)
      then status_update
          (with_condition env e (
            available condition_false "Deleting"
              "deletion requested, waiting for clients to disconnect")).0
      else pure e

unfoldable pub drop_finalizer : NbdExport → Exec (Unit {0})
unfolding ask pure write_export ◌>>=◌
drop_finalizer e = do
  env ← ask
  write_export update
      (record e { metadata = (env.remove_finalizer e.metadata (finalizer env.domain)).0 })
  pure tt

-- what is left once the export is marked
unfoldable pub stop_if_unused : NbdExport → Exec (Unit {0})
unfolding stop_export drop_finalizer pure ◌>>=◌
stop_if_unused e =
    if ltb 0 (length e.spec.clients)
    then pure tt
    else (do stop_export e.spec.export_name; drop_finalizer e)

unfoldable pub reconcile_deleting : NbdExport → Exec (Unit {0})
unfolding note_deleting stop_if_unused ◌>>=◌
reconcile_deleting e = do noted ← note_deleting e; stop_if_unused noted

reconcile_export : NbdExport → Option ℕ → Exec (Unit {0})
unfolding reconcile_not_deleting reconcile_deleting
reconcile_export e none = reconcile_not_deleting e
reconcile_export e (some when) = reconcile_deleting e

unfoldable pub reconcile : String → Exec (Unit {0})
unfolding reconcile_export ignore_not_found get_export ask try pure lift ◌>>=◌
reconcile name = do
  env ← ask
  got ← try (get_export name)
  elim got [
    | err x ↦ lift (ignore_not_found x)
    | ok e ↦
        if not (e.spec.host == env.local_node_name)
        then pure tt
        else reconcile_export e e.metadata.deletion_timestamp
  ]

-- exports that `triggerCleanup` passes over
unfoldable pub is_skipped : Env → NbdExport → Bool
is_skipped env e =
    not (e.spec.host == env.local_node_name) || e.status.uri == "" || e.spec.path == ""

-- the last error, unless the export is gone
abbrev last_error : Option Err → Result NbdExport → Option Err
last_error last (ok e) = last
last_error last (err not_found) = last
last_error last (err x) = some x

unfoldable pub cleanup_loop : List NbdExport → Option Err → Exec (Option Err)
unfolding is_skipped ask try pure write_export ◌>>=◌
cleanup_loop [] last = pure last
cleanup_loop (e ∷ es) last = do
  env ← ask
  next ←
      (if is_skipped env e then pure last else (do
        written ← try (write_export update (record e { spec = record e.spec { path = "" } }))
        pure (last_error last written)))
  cleanup_loop es next

unfoldable pub cleanup_round : Exec (Unit {0})
unfolding cleanup_loop list_exports pure throw ◌>>=◌
cleanup_round = do
  exports ← list_exports
  last ← cleanup_loop exports none
  elim last [ none ↦ pure tt | some x ↦ throw x ]

unfoldable pub trigger_cleanup : ℕ → Exec (Unit {0})
unfolding cleanup_round retry_on_conflict
trigger_cleanup retries = retry_on_conflict retries cleanup_round
