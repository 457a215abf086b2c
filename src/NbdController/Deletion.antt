-- ===== src/NbdController/Deletion.antt =====
-- Deleting an export: its clients, the daemon, and its finalizer.
use kubesan.Prelude.{
  String, List, [], ◌∷◌, true, false, not, ◌≡◌, ◌≢◌, refl, ◌∙◌, inr, arith, ltb, length,
}
use mathlib.Core.Path.{subst}
use kubesan.Process.{Process}
use kubesan.Api.{NbdExport, ObjectMeta}
use kubesan.Exec.{
  Env, Trace, begun, ok, wrote_export, update, update_status, Verb, write_export, pure, ask,
}
use kubesan.Exec.Rules.{
  >>=-ok, Keeps, Keeps-bind, Keeps-bind_known, Keeps-pure, Keeps-if, Keeps-ask, keeps_rules, Yields,
  Yields-bind, Yields-if, Yields-pure,
}
use kubesan.Nbd.{stop_export, export_degraded}
use kubesan.Nbd.Traces.{HasStopped, IgnoresDaemon, stop_export-Keeps, stop_export-HasStopped}
use kubesan.NbdController.{
  note_deleting, stop_if_unused, with_condition, drop_finalizer, reconcile_deleting, status_update,
}

-- each write of the export itself, not of its status, has no clients and comes after the stop
abbrev pub IsOrderly : String → Trace → Type 0
IsOrderly name [] = Unit
IsOrderly name (wrote_export update e r ∷ t) =
    (e.spec.clients ≡ []) × HasStopped name t × IsOrderly name t
IsOrderly name (_ ∷ t) = IsOrderly name t

IsOrderly-IgnoresDaemon : (name : String) → IgnoresDaemon (IsOrderly name)
IsOrderly-IgnoresDaemon name = record {
  on_connect = λ r t h. h;
  on_command = λ c a t h. h;
  on_store = λ p t h. h;
}

module _ {env : Env} (name : String) where
  status_update-Keeps : (e : NbdExport) → Keeps env (IsOrderly name) (status_update e)
  unfolding status_update write_export
  status_update-Keeps e = record { at = λ t h. h }

  note_deleting-Keeps : (e : NbdExport) → Keeps env (IsOrderly name) (note_deleting e)
  unfolding note_deleting
  note_deleting-Keeps e = search (keeps_rules, status_update-Keeps)

no_clients : (clients : List String) → ltb 0 (length clients) ≡ false → clients ≡ []
no_clients [] h = refl
no_clients (c ∷ cs) h = ground arith

-- the export is stopped, and each write was orderly
abbrev IsStopped : String → Trace → Type 0
IsStopped name t = HasStopped name t × IsOrderly name t

module _ {env : Env} (name : String) (e : NbdExport) (unused : e.spec.clients ≡ []) where
  write-Keeps :
      (metadata : ObjectMeta)
      → Keeps env (IsStopped name) (write_export update (record e { metadata = metadata }))
  unfolding write_export
  write-Keeps metadata = record { at = λ t h. (inr h.0, (unused, h.0, h.1)) }

  drop_finalizer-Keeps : Keeps env (IsStopped name) (drop_finalizer e)
  unfolding drop_finalizer
  drop_finalizer-Keeps =
      Keeps-bind ask _ Keeps-ask
        (λ v. Keeps-bind (write_export update _) _ (write-Keeps _) (λ w. Keeps-pure tt))

stop_if_unused-Keeps :
    {env : Env} (e : NbdExport) → Keeps env (IsOrderly e.spec.export_name) (stop_if_unused e)
unfolding stop_if_unused
stop_if_unused-Keeps {env} e =
    let name = e.spec.export_name in
    Keeps-if (ltb 0 (length e.spec.clients)) _ _ (λ used. Keeps-pure tt)
      (λ unused.
        Keeps-bind_known (stop_export name) _
          (stop_export-Keeps (IsOrderly-IgnoresDaemon name) name)
          (λ t u stopped h.
            ((drop_finalizer-Keeps {env = env} name e (no_clients e.spec.clients unused)).at
              (stop_export name env t).1 (stop_export-HasStopped name env t u stopped, h)).1))

-- An export that the API server answers a write with has the name that was sent.
pub record KeepsName (env : Env) : Type 0 where
  pub same :
      (t : Trace) (verb : Verb) (e e' : NbdExport)
      → env.write_export t verb e ≡ ok e'
      → e'.spec.export_name ≡ e.spec.export_name

note_deleting-name :
    {env : Env} (k : KeepsName env) (e : NbdExport)
    → Yields env (λ e'. e'.spec.export_name ≡ e.spec.export_name) (note_deleting e)
unfolding note_deleting status_update write_export with_condition
note_deleting-name {env} k e = Yields-bind ask _ (λ v.
    Yields-if (not (export_degraded v e)) _ _
      (λ b. record { result = λ t a h. k.same t update_status _ a h }) (λ b. Yields-pure e refl))

stops_nothing : (clients : List String) → clients ≢ [] → ltb 0 (length clients) ≡ true
stops_nothing [] h = absurd (h refl)
stops_nothing (c ∷ cs) h = ground arith

module _ (e : NbdExport) (env : Env) where
  -- with clients, the export is marked and nothing else is done
  waits :
      (noted : NbdExport) (t : Trace)
      → (note_deleting e env t).0 ≡ ok noted
      → noted.spec.clients ≢ []
      → reconcile_deleting e env t ≡ (ok tt, (note_deleting e env t).1)
  unfolding reconcile_deleting stop_if_unused pure
  waits noted t h used =
      >>=-ok (note_deleting e) stop_if_unused env t noted h
      ∙ rw (stops_nothing noted.spec.clients used) refl

  reconcile_deleting-IsOrderly :
      KeepsName env
      → (p : Process) → IsOrderly e.spec.export_name (reconcile_deleting e env (begun p)).1
  unfolding reconcile_deleting
  reconcile_deleting-IsOrderly k p =
      (Keeps-bind_known {env = env} {P = IsOrderly e.spec.export_name} (note_deleting e)
          stop_if_unused (note_deleting-Keeps e.spec.export_name e)
          (λ t noted h.
            subst
              (λ n.
                IsOrderly n (note_deleting e env t).1
                → IsOrderly n (stop_if_unused noted env (note_deleting e env t).1).1)
              ((note_deleting-name k e).result t noted h)
              ((stop_if_unused-Keeps noted).at (note_deleting e env t).1))).at
        (begun p) tt

  -- When an export is to be deleted and still has clients after it is marked as unavailable, nothing
  -- else is done. The export itself is written only without clients, and only after the daemon has
  -- removed the export of its name in this pass, or had none. Both hold if an export that the API
  -- server answers a write with has the name that was sent, and whatever the process has in its
  -- memory.
  pub reconcile_deleting_export_lem :
      KeepsName env
      → (p : Process)
      → IsOrderly e.spec.export_name (reconcile_deleting e env (begun p)).1
        × ((noted : NbdExport)
            → (note_deleting e env (begun p)).0 ≡ ok noted
            → noted.spec.clients ≢ []
            → reconcile_deleting e env (begun p) ≡ (ok tt, (note_deleting e env (begun p)).1))
  reconcile_deleting_export_lem k p =
      (reconcile_deleting-IsOrderly k p, λ noted. waits noted (begun p))
