-- ===== src/Examples/Nbd.antt =====
-- The theorems on NBD exports and workers at concrete inputs.
use kubesan.Prelude.Dict.{lookup, insert, delete}
use kubesan.Prelude.{
  ℕ, ◌+◌, String, List, true, false, [], ◌∷◌, some, ◌≡◌, ◌≢◌, refl, sym, ap, arith,
}
use kubesan.Api.{NbdExport}
use kubesan.Process.{Process, Blockdevs, no_blockdevs, started}
use kubesan.Exec.{deleted_export, Env, Trace, begun, ok, err, panicked, stored, dd, exited}
use kubesan.Exec.Rules.{ok-injective}
use kubesan.Nbd.{export_degraded, stop_export, stop_server, node_name, forget_export, close_channel}
use kubesan.Nbd.Names.{Step, Reached, IsConsistent, Reached-IsConsistent}
use kubesan.Nbd.Shutdown.{stop_export-panicked}
use kubesan.Nbd.Client.{connect_client}
use kubesan.Nbd.Reuse.{IsServed, connect_client-again}
use kubesan.NbdController.{note_deleting, reconcile_deleting}
use kubesan.NbdController.Deletion.{IsOrderly, KeepsName, reconcile_deleting_export_lem}
use kubesan.Commands.Nbd.{match_uri, match_connected, trim_newline}
use kubesan.Workers.Tracking.{Request, IsTracked, serve_all, serve_all-IsTracked}
use kubesan.VolumeNode.Exports.{with_nbd_export, reconcile_thin_nbd_cleanup}
use kubesan.VolumeNode.Retiring.{DeletesUnused, KeepsPath, reconcile_thin_nbd_cleanup-DeletesUnused}
use kubesan.Examples.World.{
  world, linear_volume, pool_of, is_condition_true, meta, available, different,
}

-- one export is named, forgotten again, and the server asked to stop
abbrev one_name : Blockdevs
one_name = (node_name no_blockdevs "pvc").1

abbrev left : Blockdevs
left = record { names = []; count = 1; shutdown = false; closed = false }

abbrev done : Blockdevs
done = record { names = []; count = 1; shutdown = true; closed = true }

forgot : Step one_name left
unfolding node_name forget_export lookup delete insert
forgot = Step.forget "pvc" refl

stopped : Step left done
unfolding stop_server close_channel
stopped = Step.stop refl

done-Reached : Reached done
done-Reached = Reached.next (Reached.next (Reached.next Reached.start named) forgot) stopped
  where
    named : Step no_blockdevs one_name
    named = Step.name no_blockdevs "pvc" (omega arith)

Reached-IsConsistent_example : IsConsistent done
Reached-IsConsistent_example = Reached-IsConsistent done-Reached

abbrev after_stop : Trace
after_stop = stored (record started { blockdevs = done }) ∷ []

stop_export-panicked_example : (stop_export "other" world after_stop).0 ≡ err panicked
stop_export-panicked_example =
    stop_export-panicked world (λ t. refl) (λ t c. refl) "other" after_stop done-Reached refl refl

abbrev copy_twice : List Request
copy_twice =
    Request.to_run "dd-pvc" (dd "/dev/vg/thin-pvc" "/dev/vg/thin-clone-pvc")
    ∷ Request.to_cancel "dd-pvc"
    ∷ []

serve_all-IsTracked_example : IsTracked (serve_all world copy_twice [])
serve_all-IsTracked_example = serve_all-IsTracked world copy_twice

-- an export that is served
abbrev export_of : List String → NbdExport
export_of clients = record {
  metadata = meta "node-2-thin-pvc";
  spec = record {
    export_name = "pvc";
    path = "/dev/vg/thin-pvc";
    host = "node-2";
    size_bytes = 4194304;
    clients = clients;
  };
  status = record {
    observed_generation = 1;
    conditions = available ∷ [];
    uri = "nbd://10.0.0.2/pvc";
  };
}

-- nbd-client finds a device
abbrev connecting : Env
connecting = record world { run_command = λ t command. exited 0 "Connected /dev/nbd3" }

connected :
    (connect_client (export_of []) connecting []).0 ≡ ok (export_of ("node-1" ∷ []), "/dev/nbd3")
unfolding connect_client is_condition_true lookup
connected = refl

served : (clients : List String) → IsServed connecting (export_of clients)
unfolding export_degraded is_condition_true
served clients = (different _ _ refl, refl)

connect_client-again_example :
    connect_client
      (export_of ("node-1" ∷ []))
      connecting
      (connect_client (export_of []) connecting []).1
    ≡ (ok (export_of ("node-1" ∷ []), "/dev/nbd3"), (connect_client (export_of []) connecting []).1)
unfolding kubesan.Slices.contains
connect_client-again_example =
    connect_client-again (export_of []) connecting [] (export_of ("node-1" ∷ [])) "/dev/nbd3"
      (served []) connected refl (served ("node-1" ∷ []))

keeps : KeepsName world
keeps = record { same = λ t verb e e' h. sym (ap (λ x. x.spec.export_name) (ok-injective h)) }

-- a process that serves the export and has connected it
abbrev busy : Process
busy = record {
  clients = ("nbd://10.0.0.2/pvc", "nbd0") ∷ [];
  blockdevs = record no_blockdevs { names = ("pvc", "blockdev-0") ∷ []; count = 1 };
  workers = [];
}

reconcile_deleting_export_lem_example :
    IsOrderly "pvc" (reconcile_deleting (export_of []) world (begun busy)).1
    × ((noted : NbdExport)
        → (note_deleting (export_of []) world (begun busy)).0 ≡ ok noted
        → noted.spec.clients ≢ []
        → reconcile_deleting (export_of []) world (begun busy)
          ≡ (ok tt, (note_deleting (export_of []) world (begun busy)).1))
reconcile_deleting_export_lem_example =
    reconcile_deleting_export_lem (export_of []) world keeps busy

-- node-2 serves an export that nobody uses, of a volume that it does not have to serve
abbrev serving : Env
serving = record world { local_node_name = "node-2"; get_export = λ t name. ok (export_of []) }

serving_keeps : KeepsPath serving
serving_keeps = record { same = λ t verb e e' h. sym (ap (λ x. x.spec.path) (ok-injective h)) }

reconcile_thin_nbd_cleanup-DeletesUnused_example :
    DeletesUnused
      (reconcile_thin_nbd_cleanup
        (with_nbd_export (linear_volume []) "node-2-thin-pvc")
        (pool_of [] [] "" "")
        4194304
        serving
        (begun busy)).1
reconcile_thin_nbd_cleanup-DeletesUnused_example =
    reconcile_thin_nbd_cleanup-DeletesUnused serving_keeps busy
      (with_nbd_export (linear_volume []) "node-2-thin-pvc") (pool_of [] [] "" "") 4194304

uri_matches : match_uri "nbd://10.0.0.1/pvc-1 x" ≡ some ("10.0.0.1", "pvc-1")
unfolding match_uri
uri_matches = refl

connects : match_connected "Warning\nConnected /dev/nbd3\n" ≡ some "nbd3"
unfolding match_connected
connects = refl

trims : trim_newline "nbd://a/b\n" ≡ "nbd://a/b"
unfolding trim_newline
trims = refl

-- this run deletes the export
abbrev count_deleted : Trace → ℕ
count_deleted [] = 0
count_deleted (deleted_export e r ∷ t) = 1 + count_deleted t
count_deleted (_ ∷ t) = count_deleted t

cleanup_deletes :
    count_deleted
      (reconcile_thin_nbd_cleanup
        (with_nbd_export (linear_volume []) "node-2-thin-pvc")
        (pool_of [] [] "" "")
        4194304
        serving
        (begun busy)).1
    ≡ 1
unfolding reconcile_thin_nbd_cleanup kubesan.Prelude.Dict.lookup is_condition_true
cleanup_deletes = refl
