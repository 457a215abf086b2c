-- ===== src/Nbd/Client/Traces.antt =====
-- What looking at a client's connection and closing it add to the record of calls.
use kubesan.Prelude.{String, List, ◌∷◌, Bool, true, false, not, ◌||◌, ◌==◌, string_eq}
use kubesan.Prelude.Dict.{lookup, delete}
use kubesan.Slices.{contains, remove_all}
use kubesan.Process.{Process}
use kubesan.Api.{NbdExport}
use kubesan.Exec.{
  Env, Trace, Result, stored, wrote_export, ran, update, read_process, store_process, write_export,
  try, ask, ok, err, pure, ◌>>=◌,
}
use kubesan.Exec.Rules.{
  Keeps, Keeps-bind, Keeps-pure, Keeps-try, Keeps-if, Keeps-ask, Keeps-elim_option,
  Keeps-elim_result,
}
use kubesan.Commands.{run_on_host, run_in_container}
use kubesan.Commands.Nbd.{nbd_client, nbd_client_backend, nbd_client_disconnect}
use kubesan.Commands.Traces.{must-Keeps}
use kubesan.Nbd.{export_degraded}
use kubesan.Nbd.Client.{with_clients, check_client, close_device, disconnect_client}

-- `P` does not look at commands, at the memory of the process, nor at updates of exports.
pub record IgnoresClients (env : Env) (P : Trace → Type 0) : Type 0 where
  pub on_command : (c : List String) (t : Trace) → P t → P (ran c (env.run_command t c) ∷ t)
  pub on_store : (p : Process) (t : Trace) → P t → P (stored p ∷ t)
  pub on_update :
      (e : NbdExport) (r : Result NbdExport) (t : Trace) → P t → P (wrote_export update e r ∷ t)

module _ {env : Env} {P : Trace → Type 0} (i : IgnoresClients env P) where
  read-Keeps : Keeps env P read_process
  unfolding read_process
  read-Keeps = record { at = λ t h. h }

  store-Keeps : (p : Process) → Keeps env P (store_process p)
  unfolding store_process
  store-Keeps p = record { at = λ t h. i.on_store p t h }

  pub update-Keeps : (e : NbdExport) → Keeps env P (write_export update e)
  unfolding write_export
  update-Keeps e = record { at = λ t h. i.on_update e _ t h }

  host-Keeps : (command : List String) → Keeps env P (run_on_host command)
  unfolding run_on_host
  host-Keeps command = record { at = λ t h. i.on_command _ t h }

  backend-Keeps : (device : String) → Keeps env P (nbd_client_backend device)
  unfolding nbd_client_backend
  backend-Keeps device = Keeps-bind _ _ (must-Keeps _ (host-Keeps _)) (λ o. Keeps-pure _)

  nbd_client-Keeps : (args : List String) → Keeps env P (nbd_client args)
  unfolding nbd_client run_in_container
  nbd_client-Keeps args = record { at = λ t h. i.on_command _ t h }

  disconnect-Keeps : (uri device : String) → Keeps env P (nbd_client_disconnect uri device)
  unfolding nbd_client_disconnect
  disconnect-Keeps uri device =
      Keeps-bind (nbd_client_backend device) _ (backend-Keeps device) (λ backend.
        Keeps-if (backend == uri) _ _
          (λ e. Keeps-bind _ _ (must-Keeps _ (nbd_client-Keeps _)) (λ o. Keeps-pure tt))
          (λ e. Keeps-pure tt))

  checked-Keeps :
      (v : Env) (e : NbdExport) (dev : String)
      → Keeps {A = Bool × Bool} env P (
          try (nbd_client_backend dev) >>= λ r. elim r [
            | err x ↦ pure (true, true)
            | ok uri ↦ pure (true, not (uri == e.status.uri) || export_degraded v e)
          ])
  checked-Keeps v e dev =
      Keeps-bind (try (nbd_client_backend dev)) _ (Keeps-try _ (backend-Keeps dev)) (λ r.
        Keeps-elim_result r (λ uri. pure (true, not (uri == e.status.uri) || export_degraded v e))
          (λ x. pure (true, true))
          (λ uri z. Keeps-pure (true, not (uri == e.status.uri) || export_degraded v e))
          (λ x z. Keeps-pure (true, true)))

  pub check_client-Keeps : (e : NbdExport) → Keeps env P (check_client e)
  unfolding check_client
  check_client-Keeps e = Keeps-bind ask _ Keeps-ask (λ v. Keeps-bind read_process _ read-Keeps (λ p.
      Keeps-if (e.status.uri == "") (pure (false, false)) _ (λ x. Keeps-pure (false, false))
        (λ x.
          Keeps-elim_option (lookup e.status.uri p.clients)
            (pure (false, contains e.spec.clients v.local_node_name)) _ (λ y. Keeps-pure _)
            (λ dev y. checked-Keeps v e dev))))

  close_device-Keeps : (uri : String) → Keeps env P (close_device uri)
  unfolding close_device
  close_device-Keeps uri = Keeps-bind read_process _ read-Keeps (λ p.
      Keeps-elim_option (lookup uri p.clients) _ _ (λ x. Keeps-pure tt)
        (λ dev x. disconnect-Keeps uri dev))

  pub disconnect_client-Keeps : (e : NbdExport) → Keeps env P (disconnect_client e)
  unfolding disconnect_client
  disconnect_client-Keeps e = Keeps-bind ask _ Keeps-ask (λ v.
      Keeps-if (not (contains e.spec.clients v.local_node_name)) _ _ (λ x. Keeps-pure e)
        (λ x. Keeps-bind (close_device e.status.uri) _ (close_device-Keeps _) (λ u.
          Keeps-bind read_process _ read-Keeps (λ p.
            Keeps-bind (store_process (record p { clients = delete e.status.uri p.clients })) _
              (store-Keeps _)
              (λ w. update-Keeps (with_clients e (remove_all e.spec.clients v.local_node_name)))))))
