-- ===== src/VolumeNode/Retiring.antt =====
-- Deleting the NBD export of a volume.
use kubesan.Prelude.{
  ℕ, String, List, [], ◌∷◌, Bool, true, false, not, ◌&&◌, ◌||◌, ◌≡◌, refl, ◌==◌, string_eq, nat_beq,
  length, arith,
}
use kubesan.Slices.{contains}
use kubesan.Process.{Process}
use kubesan.Api.{Volume, ThinPoolLv, NbdExport}
use kubesan.Exec.{
  Env, not_found, Trace, begun, Result, ok, err, Verb, update, deleted_export, get_export,
  write_export, delete_export, write_volume, pure, throw, try, ask,
}
use kubesan.Exec.Rules.{
  Keeps, Keeps-bind, Keeps-bind_known, Keeps-pure, Keeps-throw, Keeps-try, Keeps-if, Keeps-ask,
  Yields, Yields-if, Yields-pure,
}
use kubesan.Dm
use kubesan.Dm.Traces.{suspend-Keeps}
use kubesan.Nbd.{should_stop_export}
use kubesan.Nbd.Client.{check_client}
use kubesan.Nbd.Client.Traces.{
  IgnoresClients, update-Keeps, check_client-Keeps, disconnect_client-Keeps,
}
use kubesan.VolumeController.{status_update}
use kubesan.VolumeNode.{interested_in}
use kubesan.VolumeNode.Exports.{
  with_nbd_export, no_export, read_export, clean_up_client, delete_gone, request_stop, stop_serving,
  clean_up_server, reconcile_thin_nbd_cleanup,
}

-- each export that is deleted has no clients, and its server has been told to stop
abbrev pub DeletesUnused : Trace → Type 0
DeletesUnused [] = Unit
DeletesUnused (deleted_export e r ∷ t) =
    (e.spec.clients ≡ []) × (e.spec.path ≡ "") × DeletesUnused t
DeletesUnused (_ ∷ t) = DeletesUnused t

-- An export that the API server answers a write with has the path that was sent.
pub record KeepsPath (env : Env) : Type 0 where
  pub same :
      (t : Trace) (verb : Verb) (e e' : NbdExport)
      → env.write_export t verb e ≡ ok e'
      → e'.spec.path ≡ e.spec.path

ignores : (env : Env) → IgnoresClients env DeletesUnused
ignores env = record { on_command = λ c t h. h; on_store = λ p t h. h; on_update = λ e r t h. h }

module _ {env : Env} where
  status-Keeps : (v : Volume) → Keeps env DeletesUnused (status_update v)
  unfolding status_update write_volume
  status-Keeps v = record { at = λ t h. h }

  get-Keeps : (name : String) → Keeps env DeletesUnused (get_export name)
  unfolding get_export
  get-Keeps name = record { at = λ t h. h }

  read_export-Keeps :
      (v : Volume) (r : Result NbdExport) → Keeps env DeletesUnused (read_export v r)
  unfolding read_export
  read_export-Keeps v (ok e) = Keeps-pure _
  read_export-Keeps v (err not_found) =
      Keeps-bind (status_update (with_nbd_export v "")) _ (status-Keeps (with_nbd_export v ""))
        (λ w. Keeps-pure (w, no_export))
  read_export-Keeps v (err e) = Keeps-throw e

  clean_up_client-Keeps :
      (v : Volume) (e : NbdExport) → Keeps env DeletesUnused (clean_up_client v e)
  unfolding clean_up_client
  clean_up_client-Keeps v e = Keeps-bind ask _ Keeps-ask (λ x.
      Keeps-bind (check_client e) _ (check_client-Keeps (ignores env) e) (λ c.
        Keeps-if (c.0 && not (contains v.spec.attach_to_nodes x.local_node_name) || c.1) _ _
          (λ y.
            Keeps-bind (Dm.suspend v.metadata.name _) _
              (suspend-Keeps (λ c t h. h) (λ p r t h. h) _ _)
              (λ u. disconnect_client-Keeps (ignores env) e))
          (λ y. Keeps-pure e)))

  -- an export without clients whose server has been told to stop
  delete_gone-Keeps :
      (e : NbdExport)
      → e.spec.clients ≡ []
      → e.spec.path ≡ ""
      → Keeps env DeletesUnused (delete_gone e)
  unfolding delete_gone delete_export
  delete_gone-Keeps e unused stopped =
      Keeps-bind (try (delete_export e)) _ (Keeps-try _ deleted-Keeps) handled-Keeps
    where
      deleted-Keeps : Keeps env DeletesUnused (delete_export e)
      deleted-Keeps = record { at = λ t h. (unused, stopped, h) }

      handled-Keeps :
          (r : Result (Unit {0}))
          → Keeps env DeletesUnused
              (elim r [ ok u ↦ pure tt | err not_found ↦ pure tt | err x ↦ throw x ])
      handled-Keeps (ok u) = Keeps-pure tt
      handled-Keeps (err not_found) = Keeps-pure tt
      handled-Keeps (err x) = Keeps-throw x

  request_stop-Keeps : (e : NbdExport) → Keeps env DeletesUnused (request_stop e)
  unfolding request_stop
  request_stop-Keeps e =
      Keeps-if (not (e.spec.path == "")) _ _ (λ x. update-Keeps (ignores env) _) (λ x. Keeps-pure e)

-- what is to be stopped has no path
abbrev IsStopping : NbdExport → Type 0
IsStopping e = e.spec.path ≡ ""

module _ {env : Env} (k : KeepsPath env) where
  request_stop-IsStopping : (e : NbdExport) → Yields env IsStopping (request_stop e)
  unfolding request_stop write_export
  request_stop-IsStopping e =
      Yields-if (not (e.spec.path == "")) _ _
        (λ x. record { result = λ t e' h. k.same t update _ e' h })
        (λ x. Yields-pure e ((string_eq.equals_iff e.spec.path "").0 (not_false _ x)))
    where
      not_false : (b : Bool) → not b ≡ false → b ≡ true
      not_false b h = ground arith

  stop_serving-Keeps : (v : Volume) (e : NbdExport) → Keeps env DeletesUnused (stop_serving v e)
  unfolding stop_serving
  stop_serving-Keeps v e =
      Keeps-bind_known (request_stop e) _ (request_stop-Keeps e) (λ t e' h deleted.
        (Keeps-if (nat_beq (length e'.spec.clients) 0) _ _
            (λ x.
              Keeps-bind (delete_gone e') _
                (delete_gone-Keeps e' (no_clients _ x) ((request_stop-IsStopping e).result t e' h))
                (λ u. status-Keeps (with_nbd_export v "")))
            (λ x. Keeps-throw _)).at
          _ deleted)
    where
      no_clients : (clients : List String) → nat_beq (length clients) 0 ≡ true → clients ≡ []
      no_clients [] h = refl
      no_clients (c ∷ cs) h = ground arith

  clean_up_server-Keeps :
      (v : Volume) (pool : ThinPoolLv) (e : NbdExport) (size_bytes : ℕ)
      → Keeps env DeletesUnused (clean_up_server v pool e size_bytes)
  unfolding clean_up_server
  clean_up_server-Keeps v pool e size_bytes = Keeps-bind ask _ Keeps-ask (λ x.
      Keeps-if (should_stop_export x e (interested_in pool v).0 size_bytes) _ _
        (λ y. stop_serving-Keeps (interested_in pool v).1 e)
        (λ y. Keeps-pure (interested_in pool v).1))

  -- When a node cleans up the NBD export of a volume, each export that it deletes has no clients and
  -- an empty path, which is how its server is told to stop, if the API server stores the path of an
  -- export as it is sent, and whatever the process has in its memory.
  pub reconcile_thin_nbd_cleanup-DeletesUnused :
      (p : Process) (volume : Volume) (pool : ThinPoolLv) (size_bytes : ℕ)
      → DeletesUnused (reconcile_thin_nbd_cleanup volume pool size_bytes env (begun p)).1
  unfolding reconcile_thin_nbd_cleanup
  reconcile_thin_nbd_cleanup-DeletesUnused p volume pool size_bytes =
      (Keeps-if (volume.status.nbd_export == "") _ _ (λ x. Keeps-pure volume)
          (λ x.
            Keeps-bind (try (get_export volume.status.nbd_export)) _ (Keeps-try _ (get-Keeps _))
              (λ got. Keeps-bind (read_export volume got) _ (read_export-Keeps volume got) (λ y.
                Keeps-bind (clean_up_client y.0 y.1) _ (clean_up_client-Keeps y.0 y.1)
                  (λ e. clean_up_server-Keeps y.0 pool e size_bytes))))).at
        (begun p) tt
