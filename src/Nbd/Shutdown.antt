-- ===== src/Nbd/Shutdown.antt =====
-- Stopping an export after the server was asked to shut down and has no export left.
use kubesan.Prelude.{String, [], true, ◌≡◌, refl, string_eq, eq_iff}
use kubesan.Prelude.Dict.{lookup, insert, delete}
use kubesan.Process.{Blockdevs}
use kubesan.Exec.{
  Env, Trace, err, ok, panicked, returned, QmpCommand, process_of, connect_qmp, run_qmp,
  read_process, store_process, lift, pure, ◌>>=◌,
}
use kubesan.Nbd.{node_name, name_node, run, checked, close_channel, forget_export, stop_export}
use kubesan.Nbd.Names.{Reached, Reached-IsConsistent}

-- a table without names, whose channel is closed
abbrev IsDone : Blockdevs → Type 0
IsDone b = (b.names ≡ []) × (b.shutdown ≡ true) × (b.closed ≡ true)

-- naming an export and forgetting it again closes the channel once more
forget-named :
    (b : Blockdevs) (e : String) → IsDone b → forget_export (node_name b e).1 e ≡ err panicked
unfolding forget_export node_name close_channel lookup insert delete
forget-named b e (empty, shutdown, closed) = rw (empty, (eq_iff e e).1 refl, shutdown, closed) refl

module _ (env : Env) (connects : (t : Trace) → env.connect_qmp t ≡ ok tt)
    (answers : (t : Trace) (c : QmpCommand) → env.run_qmp t c ≡ returned) where
  -- a done table makes `StopExport` close the channel again
  stop-IsDone :
      (e : String) (t : Trace)
      → IsDone (process_of t).blockdevs
      → (stop_export e env t).0 ≡ err panicked
  unfolding stop_export run checked name_node connect_qmp run_qmp read_process store_process lift
      pure ◌>>=◌
  stop-IsDone e t done =
      rw (connects, answers) (rw answers (rw (forget-named (process_of t).blockdevs e done) refl))

  -- If the table of a process is one that it can reach, a shutdown was asked for, and no export is
  -- left, then `StopExport` panics, for any export, when the daemon answers every command: it closes
  -- the channel that is closed already.
  pub stop_export-panicked :
      (e : String) (t : Trace)
      → Reached (process_of t).blockdevs
      → (process_of t).blockdevs.shutdown ≡ true
      → (process_of t).blockdevs.names ≡ []
      → (stop_export e env t).0 ≡ err panicked
  stop_export-panicked e t r shutdown empty =
      stop-IsDone e t (empty, shutdown, (Reached-IsConsistent r).drained shutdown empty)
