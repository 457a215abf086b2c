-- ===== src/Nbd/Client.antt =====
-- internal/common/nbd/client.go: the NBD devices that this node has connected, one for each URI. An
-- export that a function changes is part of its result; no function here is called with nil.
pub mod Traces
use Prim.Native.String.{◌++◌ as ◌<>◌, slice, len}
use text.Mathlib.Text.{starts_with}
use kubesan.Prelude.{
  ◌-◌, String, List, [], ◌∷◌, ◌++◌, Option, none, some, Bool, true, false, not, ◌||◌, ◌==◌,
  string_eq, if◌then◌else◌,
}
use kubesan.Prelude.Dict.{lookup, insert, delete}
use kubesan.Prelude.Text.{cut_prefix}
use kubesan.Slices.{contains, remove_all}
use kubesan.Api.{NbdExport}
use kubesan.Commands.Nbd.{nbd_client_connect, nbd_client_backend, nbd_client_disconnect}
use kubesan.Nbd.{export_degraded}
use kubesan.Exec.{
  watch_pending, Result, ok, err, Exec, pure, throw, try, ask, write_export, update, read_process,
  store_process, ◌>>=◌, ◌>>◌,
}

-- the device of `/sys/block/<device>/backend`: each cut leaves a text without it alone
unfoldable pub device_of_path : String → String
device_of_path path =
    let dev : String = elim (cut_prefix path "/sys/block/") [ none ↦ path | some rest ↦ rest ] in
    let n = len dev - 8 in if slice dev n (len dev) == "/backend" then slice dev 0 n else dev

-- the loop of `Startup` over the paths that `filepath.Glob` has found
unfoldable pub startup : List String → Exec (Unit {0})
unfolding device_of_path try read_process store_process pure ◌>>=◌
startup [] = pure tt
startup (path ∷ paths) = do
  let dev = device_of_path path
  r ← try (nbd_client_backend dev)
  elim r [
    | err e ↦ pure tt
    | ok uri ↦
        if starts_with uri "nbd://"
        then (do p ← read_process; store_process (record p { clients = insert uri dev p.clients }))
        else pure tt
  ]
  startup paths

abbrev with_clients : NbdExport → List String → NbdExport
with_clients e clients = record e { spec = record e.spec { clients = clients } }

-- the claim of this node in the export's spec
unfoldable pub claim : NbdExport → Exec NbdExport
unfolding contains ask pure write_export ◌>>=◌
claim e = do
  env ← ask
  if not (contains e.spec.clients env.local_node_name)
      then write_export update (with_clients e (e.spec.clients ++ env.local_node_name ∷ []))
      else pure e

-- the undo of a claim, whose own error is ignored
unfoldable pub unclaim : NbdExport → Exec (Unit {0})
unfolding remove_all ask try pure write_export ◌>>=◌
unclaim e = do
  env ← ask
  try (write_export update (with_clients e (remove_all e.spec.clients env.local_node_name)))
  pure tt

-- what nbd-client answered: the new device is entered in the table, or the claim undone
unfoldable pub keep_device : NbdExport → Result String → Exec String
unfolding unclaim pure throw read_process store_process ◌>>=◌
keep_device e (err x) = do unclaim e; throw x
keep_device e (ok dev) = do
  p ← read_process
  store_process (record p { clients = insert e.status.uri dev p.clients })
  pure dev

-- the device in the table, or a new one
unfoldable pub device_or_connect : NbdExport → Option String → Exec String
unfolding keep_device try pure nbd_client_connect ◌>>=◌
device_or_connect e (some dev) = pure dev
device_or_connect e none = do
  connected ← try (nbd_client_connect e.status.uri)
  keep_device e connected

unfoldable pub open_device : NbdExport → Exec String
unfolding device_or_connect read_process ◌>>=◌
open_device e = do p ← read_process; device_or_connect e (lookup e.status.uri p.clients)

unfoldable pub connect_client : NbdExport → Exec (NbdExport × String)
unfolding claim open_device export_degraded ask pure throw ◌>>=◌
connect_client e = do
  env ← ask
  if e.status.uri == "" || export_degraded env e
      then throw (watch_pending "waiting for NBD server to become available")
      else (do claimed ← claim e; dev ← open_device claimed; pure (claimed, "/dev/" <> dev))

-- Whether there is a connection, and whether it must be closed.
unfoldable pub check_client : NbdExport → Exec (Bool × Bool)
unfolding export_degraded contains ask try pure read_process nbd_client_backend ◌>>=◌
check_client e = do
  env ← ask
  p ← read_process
  if e.status.uri == "" then pure (false, false) else elim (lookup e.status.uri p.clients) [
    | none ↦ pure (false, contains e.spec.clients env.local_node_name)
    | some dev ↦ (do
      r ← try (nbd_client_backend dev)
      elim r [
        | err x ↦ pure (true, true)
        | ok uri ↦ pure (true, not (uri == e.status.uri) || export_degraded env e)
      ])
  ]

-- the device of the URI is disconnected, if there is one
close_device : String → Exec (Unit {0})
unfolding read_process pure nbd_client_disconnect ◌>>=◌
close_device uri = do
  p ← read_process
  elim (lookup uri p.clients) [ none ↦ pure tt | some dev ↦ nbd_client_disconnect uri dev ]

unfoldable pub disconnect_client : NbdExport → Exec NbdExport
unfolding close_device contains remove_all ask pure read_process store_process write_export ◌>>=◌
disconnect_client e = do
  env ← ask
  if not (contains e.spec.clients env.local_node_name) then pure e else (do
    close_device e.status.uri
    p ← read_process
    store_process (record p { clients = delete e.status.uri p.clients })
    write_export update (with_clients e (remove_all e.spec.clients env.local_node_name)))
