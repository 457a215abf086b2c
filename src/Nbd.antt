-- ===== src/Nbd.antt =====
-- internal/common/nbd/server.go: the NBD server of a node, which is a qemu-storage-daemon, and the
-- table of the daemon's node names. The mutex is held over each function on the table, so that these
-- are single steps.
pub mod Client
pub mod Names
pub mod Reuse
pub mod Shutdown
pub mod Traces
use Prim.Native.String.{◌++◌ as ◌<>◌}
use kubesan.Prelude.{
  ℕ, ◌+◌, ◌%◌, String, List, [], ◌∷◌, Option, none, some, Bool, true, false, not, ◌&&◌, ◌||◌, ◌==◌,
  string_eq, ltb, nat_beq, length, if◌then◌else◌,
}
use kubesan.Prelude.Dict.{lookup, insert, delete}
use kubesan.Prelude.Text.{contains_text, decimal}
use kubesan.Slices.{contains}
use kubesan.Api.{NbdExport}
use kubesan.Process.{Blockdevs}
use kubesan.Exec.{
  Env, Err, io_failed, panicked, unavailable, Result, ok, err, Exec, pure, throw, lift, ask,
  QmpCommand, blockdev_add, blockdev_del, block_export_add, block_export_del, QmpAnswer, returned,
  refused_with, connect_qmp, run_qmp, query_exports, read_process, store_process, ◌>>=◌, ◌>>◌,
}

-- an error of the daemon counts unless its text has the guard
checked : String → QmpAnswer → Exec (Unit {0})
unfolding pure throw
checked guard returned = pure tt
checked guard (refused_with message) =
    if not (contains_text message guard) then throw io_failed else pure tt

unfoldable pub run : QmpCommand → String → Exec (Unit {0})
unfolding checked run_qmp ◌>>=◌
run command guard = do answer ← run_qmp command; checked guard answer

-- `nodeName` on its table, in which it has found `blockdev`
unfoldable pub named_as : Blockdevs → String → Option String → String × Blockdevs
named_as b export_name (some blockdev) = (blockdev, b)
named_as b export_name none =
    let blockdev = "blockdev-" <> decimal b.count in
    (
      blockdev,
      record b {
        names = insert export_name blockdev b.names;
        count = (b.count + 1) % 18446744073709551616;
      },
    )

-- the name, and the table afterwards
unfoldable pub node_name : Blockdevs → String → String × Blockdevs
unfolding named_as
node_name b export_name = named_as b export_name (lookup export_name b.names)

unfoldable pub name_node : String → Exec String
unfolding node_name read_process store_process pure ◌>>=◌
name_node export_name = do
  p ← read_process
  let (blockdev, b) = node_name p.blockdevs export_name
  store_process (record p { blockdevs = b })
  pure blockdev

abbrev pub block_export_id : String → String
block_export_id export_name = "export-" <> export_name

-- url.URL{Scheme: "nbd", Host: config.PodIP, Path: export}.String() for names that need no escape
abbrev pub export_uri : Env → String → String
export_uri env export_name = "nbd://" <> (env.pod_ip <> ("/" <> export_name))

unfoldable pub start_export : String → String → Exec String
unfolding connect_qmp name_node run ask pure ◌>>=◌
start_export export_name device_path = do
  env ← ask
  connect_qmp
  node ← name_node export_name
  run (blockdev_add node device_path) "Duplicate nodes with node-name"
  run (block_export_add (block_export_id export_name) node export_name) " is already in use"
  pure (export_uri env export_name)

unfoldable pub check_export_health : String → Exec (Unit {0})
unfolding connect_qmp query_exports contains pure throw ◌>>=◌
check_export_health export_name = do
  connect_qmp
  ids ← query_exports
  if contains ids (block_export_id export_name)
      then pure tt
      else throw (unavailable "NBD server unexpectedly gone")

-- close(shutdownChannel), which panics on a closed channel
unfoldable pub close_channel : Blockdevs → Result Blockdevs
close_channel b = if b.closed then err panicked else ok (record b { closed = true })

-- the last part of `StopExport`, under the mutex
unfoldable pub forget_export : Blockdevs → String → Result Blockdevs
unfolding close_channel
forget_export b export_name =
    let left = record b { names = delete export_name b.names } in
    if left.shutdown && nat_beq (length left.names) 0 then close_channel left else ok left

unfoldable pub stop_export : String → Exec (Unit {0})
unfolding connect_qmp name_node forget_export run read_process store_process lift ◌>>=◌
stop_export export_name = do
  connect_qmp
  run (block_export_del (block_export_id export_name)) " is not found"
  node ← name_node export_name
  run (blockdev_del node) "Failed to find node with node-name"
  p ← read_process
  b ← lift (forget_export p.blockdevs export_name)
  store_process (record p { blockdevs = b })

-- Return true if no new clients should connect to this export
unfoldable pub export_degraded : Env → NbdExport → Bool
export_degraded env e =
    not (e.status.uri == "") && not (env.is_status_condition_true e.status.conditions "Available")

unfoldable pub should_stop_export : Env → NbdExport → List String → ℕ → Bool
unfolding export_degraded contains
should_stop_export env e nodes size_bytes =
    if not (e.spec.host == env.local_node_name)
    then false
    else if export_degraded env e
    then true
    else if ltb e.spec.size_bytes size_bytes
    then true
    else not (contains nodes env.local_node_name) || nat_beq (length nodes) 1

-- `StopServer` on the table; the goroutine that it starts tells the daemon to quit once the channel is
-- closed.
unfoldable pub stop_server : Blockdevs → Result Blockdevs
unfolding close_channel
stop_server b =
    let stopping = record b { shutdown = true } in
    if nat_beq (length stopping.names) 0 then close_channel stopping else ok stopping
