-- ===== src/Workers/Traces.antt =====
-- What `Run` and `Cancel` add to the record of calls, and what they have found when they pass.
use kubesan.Prelude.{String, [], ◌∷◌, Option, none, some, ◌≡◌, refl, sym, ap, ◌⊎◌, inl}
use mathlib.Core.Path.{subst}
use kubesan.Process.{Process, Worker}
use kubesan.Prelude.Dict.{lookup}
use kubesan.Exec.{
  Env, Trace, Result, ok, err, Work, spawned, polled, canceled, stored, spawn, cancel_context,
  poll_work, process_of, read_process, store_process, throw, lift, ◌>>=◌,
}
use kubesan.Exec.Rules.{
  Keeps, Keeps-bind, Keeps-pure, Keeps-throw, Keeps-lift, keeps_rules, >>=-runs,
}
use kubesan.Workers.{
  ensure_worker, forget_worker, take_result, run, end_canceled, cancel_worker, cancel,
}

-- `P` does not look at what the pool of workers does with goroutines that are there.
pub record IgnoresWork (P : Trace → Type 0) : Type 0 where
  pub on_poll : (n : String) (r : Option (Result (Unit {0}))) (t : Trace) → P t → P (polled n r ∷ t)
  pub on_store : (p : Process) (t : Trace) → P t → P (stored p ∷ t)
  pub on_cancel : (n : String) (t : Trace) → P t → P (canceled n ∷ t)

module _ {P : Trace → Type 0} (i : IgnoresWork P) {env : Env} where
  read-Keeps : Keeps env P read_process
  unfolding read_process
  read-Keeps = record { at = λ t h. h }

  store-Keeps : (p : Process) → Keeps env P (store_process p)
  unfolding store_process
  store-Keeps p = record { at = λ t h. i.on_store p t h }

  poll-Keeps : (n : String) → Keeps env P (poll_work n)
  unfolding poll_work
  poll-Keeps n = record { at = λ t h. i.on_poll n (env.poll_work t n) t h }

  cancel_context-Keeps : (n : String) → Keeps env P (cancel_context n)
  unfolding cancel_context
  cancel_context-Keeps n = record { at = λ t h. i.on_cancel n t h }

  forget-Keeps : (n : String) → Keeps env P (forget_worker n)
  unfolding forget_worker
  forget-Keeps n = search (keeps_rules, read-Keeps, store-Keeps)

  take_result-Keeps : (n : String) (r : Option (Result (Unit {0}))) → Keeps env P (take_result n r)
  unfolding take_result
  take_result-Keeps n none = Keeps-throw _
  take_result-Keeps n (some r) = Keeps-bind (forget_worker n) _ (forget-Keeps n) (λ u. Keeps-lift r)

  end_canceled-Keeps :
      (n : String) (r : Option (Result (Unit {0}))) → Keeps env P (end_canceled n r)
  unfolding end_canceled
  end_canceled-Keeps n none = Keeps-throw _
  end_canceled-Keeps n (some r) = forget-Keeps n

  cancel_worker-Keeps : (n : String) (w : Option Worker) → Keeps env P (cancel_worker n w)
  unfolding cancel_worker
  cancel_worker-Keeps n none = Keeps-pure tt
  cancel_worker-Keeps n (some w) =
      Keeps-bind (cancel_context n) _ (cancel_context-Keeps n)
        (λ u. Keeps-bind (poll_work n) _ (poll-Keeps n) (end_canceled-Keeps n))

  pub cancel-Keeps : (n : String) → Keeps env P (cancel n)
  unfolding cancel
  cancel-Keeps n =
      Keeps-bind read_process _ read-Keeps (λ p. cancel_worker-Keeps n (lookup n p.workers))

  module _ (n : String) (work : Work) (starts : (t : Trace) → P t → P (spawned n work ∷ t)) where
    spawn-Keeps : Keeps env P (spawn n work)
    unfolding spawn
    spawn-Keeps = record { at = λ t h. starts t h }

    ensure_worker-Keeps : (w : Option Worker) → Keeps env P (ensure_worker n work w)
    unfolding ensure_worker
    ensure_worker-Keeps (some w) = Keeps-pure tt
    ensure_worker-Keeps none = search (keeps_rules, read-Keeps, store-Keeps, spawn-Keeps)

    -- what holds when the work is started holds after `Run`
    pub run-Keeps : Keeps env P (run n work)
    unfolding run
    run-Keeps = Keeps-bind read_process _ read-Keeps (λ p.
        Keeps-bind (ensure_worker n work (lookup n p.workers)) _
          (ensure_worker-Keeps (lookup n p.workers))
          (λ u. Keeps-bind (poll_work n) _ (poll-Keeps n) (take_result-Keeps n)))

-- the work of the name was done without an error, and its result received
abbrev pub HasDone : String → Trace → Type 0
HasDone n [] = ⊥
HasDone n (polled m r ∷ t) = ((m ≡ n) × (r ≡ some (ok tt))) ⊎ HasDone n t
HasDone n (_ ∷ t) = HasDone n t

take_result-HasDone :
    (n : String) (r : Option (Result (Unit {0}))) (env : Env) (t : Trace) (u : Unit {0})
    → (take_result n r env (polled n r ∷ t)).0 ≡ ok u
    → HasDone n (take_result n r env (polled n r ∷ t)).1
unfolding take_result forget_worker lift throw read_process store_process ◌>>=◌
take_result-HasDone n none env t u h = cc
take_result-HasDone n (some (err e)) env t u h = cc
take_result-HasDone n (some (ok v)) env t u h = inl (refl, refl)

-- `Run` passes only if the work is done.
pub run-HasDone :
    (n : String) (work : Work) (env : Env) (t : Trace) (u : Unit {0})
    → (run n work env t).0 ≡ ok u
    → HasDone n (run n work env t).1
unfolding run read_process poll_work ◌>>=◌
run-HasDone n work env t u h =
    let w = lookup n (process_of t).workers in
    let (v, started, rest, runs) =
      >>=-runs (ensure_worker n work w) (λ v. poll_work n >>= take_result n) env t u h in
    let t' : Trace = (ensure_worker n work w env t).1 in
    subst (HasDone n) (sym (ap (λ x. x.1) runs))
      (take_result-HasDone n (env.poll_work t' n) env t' u rest)
