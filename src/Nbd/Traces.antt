-- ===== src/Nbd/Traces.antt =====
-- What the NBD server's functions add to the record of calls.
use kubesan.Prelude.{String, ◌∷◌, true, ◌≡◌, refl, inl, inr, Bool-cases, not, Some}
use kubesan.Prelude.Text.{contains_text}
use kubesan.Exec.{
  Env, Event, Trace, Exec, Result, ok, QmpCommand, block_export_del, blockdev_del, QmpAnswer,
  returned, refused_with, ran_qmp, connected_qmp, stored, connect_qmp, run_qmp, read_process,
  store_process, pure, throw, lift, ◌>>=◌, ◌>>◌,
}
use kubesan.Process.{Process}
use kubesan.Exec.Rules.{keeps_rules, >>=-runs, Keeps, Keeps-bind, Keeps-pure, Keeps-throw, Keeps-if}
use kubesan.Nbd.{run, checked, block_export_id, name_node, forget_export, stop_export}

-- `P` does not look at the calls to the daemon, nor at the memory of the process.
pub record IgnoresDaemon (P : Trace → Type 0) : Type 0 where
  pub on_connect : (r : Result (Unit {0})) (t : Trace) → P t → P (connected_qmp r ∷ t)
  pub on_command : (c : QmpCommand) (a : QmpAnswer) (t : Trace) → P t → P (ran_qmp c a ∷ t)
  pub on_store : (p : Process) (t : Trace) → P t → P (stored p ∷ t)

-- `StopExport` behind its first command
forgetting : String → Exec (Unit {0})
forgetting e = do
  node ← name_node e
  run (blockdev_del node) "Failed to find node with node-name"
  p ← read_process
  b ← lift (forget_export p.blockdevs e)
  store_process (record p { blockdevs = b })

module _ {P : Trace → Type 0} (i : IgnoresDaemon P) {env : Env} where
  checked-Keeps : (guard : String) (a : QmpAnswer) → Keeps env P (checked guard a)
  unfolding checked
  checked-Keeps guard returned = Keeps-pure tt
  checked-Keeps guard (refused_with message) =
      Keeps-if (not (contains_text message guard)) _ _ (λ e. Keeps-throw _) (λ e. Keeps-pure tt)

  run_qmp-Keeps : (c : QmpCommand) → Keeps env P (run_qmp c)
  unfolding run_qmp
  run_qmp-Keeps c = record { at = λ t h. i.on_command c (env.run_qmp t c) t h }

  connect_qmp-Keeps : Keeps env P connect_qmp
  unfolding connect_qmp
  connect_qmp-Keeps = record { at = λ t h. i.on_connect (env.connect_qmp t) t h }

  store-Keeps : (p : Process) → Keeps env P (store_process p)
  unfolding store_process
  store-Keeps p = record { at = λ t h. i.on_store p t h }

  read-Keeps : Keeps env P read_process
  unfolding read_process
  read-Keeps = record { at = λ t h. h }

  run-Keeps : (c : QmpCommand) (guard : String) → Keeps env P (run c guard)
  unfolding run
  run-Keeps c guard = Keeps-bind (run_qmp c) (checked guard) (run_qmp-Keeps c) (checked-Keeps guard)

  name_node-Keeps : (e : String) → Keeps env P (name_node e)
  unfolding name_node
  name_node-Keeps e = search (keeps_rules, read-Keeps, store-Keeps)

  forgetting-Keeps : (e : String) → Keeps env P (forgetting e)
  unfolding forgetting
  forgetting-Keeps e = search (keeps_rules, read-Keeps, store-Keeps, name_node-Keeps, run-Keeps)

  pub stop_export-Keeps : (e : String) → Keeps env P (stop_export e)
  unfolding stop_export forgetting
  stop_export-Keeps e = Keeps-bind connect_qmp _ connect_qmp-Keeps (λ u.
      Keeps-bind (run (block_export_del (block_export_id e)) _) _ (run-Keeps _ _)
        (λ v. forgetting-Keeps e))

-- the daemon has removed the export, or had none of the name
abbrev pub IsAccepted : QmpAnswer → Type 0
IsAccepted returned = Unit
IsAccepted (refused_with message) = contains_text message " is not found" ≡ true

abbrev pub IsStop : String → Event → Type 0
IsStop name (ran_qmp (block_export_del id) answer) = (id ≡ block_export_id name) × IsAccepted answer
IsStop name _ = ⊥

abbrev pub HasStopped : String → Trace → Type 0
HasStopped name = Some (IsStop name)

HasStopped-IgnoresDaemon : (name : String) → IgnoresDaemon (HasStopped name)
HasStopped-IgnoresDaemon name = record {
  on_connect = λ r t h. inr h;
  on_command = λ c a t h. inr h;
  on_store = λ p t h. inr h;
}

checked-IsAccepted :
    (a : QmpAnswer) (env : Env) (t : Trace) (u : Unit {0})
    → (checked " is not found" a env t).0 ≡ ok u
    → IsAccepted a × ((checked " is not found" a env t).1 ≡ t)
unfolding checked pure throw
checked-IsAccepted returned env t u h = (tt, refl)
checked-IsAccepted (refused_with message) env t u h =
    elim (Bool-cases (contains_text message " is not found")) [
      | inl harmless ↦ (harmless, rw harmless refl)
      | inr other ↦ absurd (cc (rw other at h))
    ]

run-HasStopped :
    (name : String) (env : Env) (t : Trace) (u : Unit {0})
    → (run (block_export_del (block_export_id name)) " is not found" env t).0 ≡ ok u
    → HasStopped name (run (block_export_del (block_export_id name)) " is not found" env t).1
unfolding run run_qmp ◌>>=◌
run-HasStopped name env t u h =
    let answer = env.run_qmp t (block_export_del (block_export_id name)) in
    let (accepted, same) =
      checked-IsAccepted answer env (ran_qmp (block_export_del (block_export_id name)) answer ∷ t) u
        h in
    rw same (inl (refl, accepted))

-- a stop that succeeds has removed the daemon's export
pub stop_export-HasStopped :
    (name : String) (env : Env) (t : Trace) (u : Unit {0})
    → (stop_export name env t).0 ≡ ok u
    → HasStopped name (stop_export name env t).1
unfolding stop_export forgetting
stop_export-HasStopped name env t u h =
    let stop = run (block_export_del (block_export_id name)) " is not found" in
    let (v, connected, rest, traced) =
      >>=-runs connect_qmp (λ a. stop >> forgetting name) env t u h in
    let (w, stopped, rest', traced') =
      >>=-runs stop (λ a. forgetting name) env (connect_qmp env t).1 u rest in
    rw (traced, traced')
      ((forgetting-Keeps (HasStopped-IgnoresDaemon name) {env = env} name).at
        (stop env (connect_qmp env t).1).1
        (run-HasStopped name env (connect_qmp env t).1 w stopped))
