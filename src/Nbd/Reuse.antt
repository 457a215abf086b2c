-- ===== src/Nbd/Reuse.antt =====
-- Connecting a node to an export again.
use mathlib.Core.Path.{subst}
use kubesan.Prelude.{
  String, Option, none, some, true, false, ◌≡◌, ◌≢◌, refl, sym, ap, ◌∙◌, ◌==◌, string_eq, eq_iff,
  inl, inr, Bool-cases, ◌<>◌,
}
use kubesan.Prelude.Dict.{lookup, lookup-insert}
use kubesan.Slices.{contains}
use kubesan.Api.{NbdExport}
use kubesan.Exec.{
  Env, Trace, Exec, Result, ok, err, process_of, pure, throw, try, ask, read_process, store_process,
  ◌>>=◌,
}
use kubesan.Exec.Rules.{>>=-runs, ok-injective}
use kubesan.Commands.Nbd.{nbd_client_connect}
use kubesan.Nbd.{export_degraded}
use kubesan.Nbd.Client.{claim, unclaim, keep_device, device_or_connect, open_device, connect_client}

-- the table of the process has the device of the URI
abbrev pub HasDevice : String → String → Trace → Type 0
HasDevice uri dev t = lookup uri (process_of t).clients ≡ some dev

keep_device-HasDevice :
    (e : NbdExport) (r : Result String) (env : Env) (t : Trace) (dev : String)
    → (keep_device e r env t).0 ≡ ok dev
    → HasDevice e.status.uri dev (keep_device e r env t).1
unfolding keep_device read_process store_process pure throw
keep_device-HasDevice e (ok d) env t dev h =
    lookup-insert e.status.uri e.status.uri d (process_of t).clients
    ∙ rw ((eq_iff e.status.uri e.status.uri).1 refl) (ap some (ok-injective h))
keep_device-HasDevice e (err x) env t dev h =
    let (u, undone, rest, traced) = >>=-runs (unclaim e) (λ u. throw x) env t dev h in
    absurd (no_result (unclaim e env t).1 rest)
  where
    no_result : (t : Trace) → (throw {A = String} x env t).0 ≡ ok dev → ⊥
    no_result t h = cc

device_or_connect-HasDevice :
    (e : NbdExport) (found : Option String) (env : Env) (t : Trace) (dev : String)
    → lookup e.status.uri (process_of t).clients ≡ found
    → (device_or_connect e found env t).0 ≡ ok dev
    → HasDevice e.status.uri dev (device_or_connect e found env t).1
unfolding device_or_connect pure
device_or_connect-HasDevice e (some d) env t dev found h = found ∙ ap some (ok-injective h)
device_or_connect-HasDevice e none env t dev found h =
    let (r, connected, rest, traced) =
      >>=-runs (try (nbd_client_connect e.status.uri)) (keep_device e) env t dev h in
    rw traced
      (keep_device-HasDevice e r env (try (nbd_client_connect e.status.uri) env t).1 dev rest)

open_device-HasDevice :
    (e : NbdExport) (env : Env) (t : Trace) (dev : String)
    → (open_device e env t).0 ≡ ok dev
    → HasDevice e.status.uri dev (open_device e env t).1
unfolding open_device read_process
open_device-HasDevice e env t dev h = device_or_connect-HasDevice e _ env t dev refl h

-- a device in the table is used without a call
open_device-again :
    (e : NbdExport) (env : Env) (t : Trace) (dev : String)
    → HasDevice e.status.uri dev t
    → open_device e env t ≡ (ok dev, t)
unfolding open_device device_or_connect read_process pure
open_device-again e env t dev h = rw h refl

claim-again :
    (e : NbdExport) (env : Env) (t : Trace)
    → contains e.spec.clients env.local_node_name ≡ true
    → claim e env t ≡ (ok e, t)
unfolding claim ask pure
claim-again e env t h = rw h refl

-- what `ConnectClient` does with an export that serves
abbrev attach : NbdExport → Exec (NbdExport × String)
attach e = do claimed ← claim e; dev ← open_device claimed; pure (claimed, "/dev/" <> dev)

-- the export is served, as far as its status says
abbrev pub IsServed : Env → NbdExport → Type 0
IsServed env e = (e.status.uri ≢ "") × (export_degraded env e ≡ false)

connect_client-attach :
    (e : NbdExport) (env : Env) (t : Trace)
    → IsServed env e
    → connect_client e env t ≡ attach e env t
unfolding connect_client ask export_degraded
connect_client-attach e env t (uri, good) = rw not_empty (rw (rw not_empty at good) refl)
  where
    not_empty : (e.status.uri == "") ≡ false
    not_empty = elim (Bool-cases (e.status.uri == "")) [
      | inl empty ↦ absurd (uri ((eq_iff e.status.uri "").0 empty))
      | inr other ↦ other
    ]

attach-known :
    (e : NbdExport) (dev : String) (env : Env) (t : Trace)
    → HasDevice e.status.uri dev t
    → contains e.spec.clients env.local_node_name ≡ true
    → attach e env t ≡ (ok (e, "/dev/" <> dev), t)
unfolding pure ◌>>=◌
attach-known e dev env t found kept =
    rw (claim-again e env t kept, open_device-again e env t dev found) refl

attach-again :
    (e : NbdExport) (env : Env) (t : Trace) (e' : NbdExport) (path : String)
    → (attach e env t).0 ≡ ok (e', path)
    → contains e'.spec.clients env.local_node_name ≡ true
    → attach e' env (attach e env t).1 ≡ (ok (e', path), (attach e env t).1)
unfolding pure
attach-again e env t e' path h kept =
    let (c, claimed, rest, traced) =
      >>=-runs (claim e) (λ c. open_device c >>= λ d. pure (c, "/dev/" <> d)) env t (e', path) h in
    let (d, opened, rest', traced') =
      >>=-runs (open_device c) (λ d. pure (c, "/dev/" <> d)) env (claim e env t).1 (e', path)
        rest in
    let last = (open_device c env (claim e env t).1).1 in
    rw (traced, traced')
      (subst
        (λ (x : NbdExport × String).
          contains x.0.spec.clients env.local_node_name ≡ true → attach x.0 env last ≡ (ok x, last))
        (ok-injective rest')
        (attach-known c d env last (open_device-HasDevice c env (claim e env t).1 d opened)) kept)

-- If `ConnectClient` has connected an export, the API server has kept the claim of the node, and the
-- export as stored is served, then `ConnectClient` on that export gives the same device and calls
-- nothing.
pub connect_client-again :
    (e : NbdExport) (env : Env) (t : Trace) (e' : NbdExport) (path : String)
    → IsServed env e
    → (connect_client e env t).0 ≡ ok (e', path)
    → contains e'.spec.clients env.local_node_name ≡ true
    → IsServed env e'
    → connect_client e' env (connect_client e env t).1 ≡ (ok (e', path), (connect_client e env t).1)
connect_client-again e env t e' path served h kept served' =
    connect_client-attach e' env (connect_client e env t).1 served'
    ∙ again (connect_client e env t) (sym (connect_client-attach e env t served)) h
  where
    again :
        (x : Result (NbdExport × String) × Trace)
        → attach e env t ≡ x
        → x.0 ≡ ok (e', path)
        → attach e' env x.1 ≡ (ok (e', path), x.1)
    again x same h =
        subst (λ y. y.0 ≡ ok (e', path) → attach e' env y.1 ≡ (ok (e', path), y.1)) same
          (λ k. attach-again e env t e' path k kept) h
