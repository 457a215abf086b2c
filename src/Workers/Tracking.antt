-- ===== src/Workers/Tracking.antt =====
-- The pool of workers and the goroutines that it has started.
use kubesan.Prelude.{
  String, List, [], ◌∷◌, Option, none, some, Bool, true, false, ◌≡◌, refl, sym, ap, ◌∙◌, ◌==◌,
  string_eq, eq_iff, if◌then◌else◌,
}
use kubesan.Prelude.Dict.{lookup, insert, delete, lookup-insert, lookup-delete}
use kubesan.Process.{Worker, worker}
use kubesan.Exec.{
  Env, Trace, Result, ok, Work, spawned, polled, canceled, stored, process_of, pure, throw, lift,
  spawn, cancel_context, poll_work, read_process, store_process, ◌>>=◌,
}
use kubesan.Workers.{
  ensure_worker, forget_worker, take_result, run, end_canceled, cancel_worker, cancel,
}

-- a goroutine of the name was started, and its result is not received yet
abbrev pub is_live : String → Trace → Bool
is_live name [] = false
is_live name (spawned n w ∷ t) = if n == name then true else is_live name t
is_live name (polled n none ∷ t) = is_live name t
is_live name (polled n (some r) ∷ t) = if n == name then false else is_live name t
is_live name (_ ∷ t) = is_live name t

abbrev is_some {ℓ} : {A : Type ℓ} → Option A → Bool
is_some none = false
is_some (some a) = true

-- no goroutine is started while one of its name is live, and each result is one of a live goroutine
abbrev pub IsSingle : Trace → Type 0
IsSingle [] = Unit
IsSingle (spawned n w ∷ t) = (is_live n t ≡ false) × IsSingle t
IsSingle (polled n r ∷ t) = (is_live n t ≡ true) × IsSingle t
IsSingle (_ ∷ t) = IsSingle t

-- the pool has a worker for each live goroutine, and for no other name
pub record IsTracked (t : Trace) : Type 0 where
  pub tracked : (name : String) → is_some (lookup name (process_of t).workers) ≡ is_live name t
  pub single : IsSingle t

-- a result that is not there yet changes nothing
polled_none-IsTracked :
    (name : String) (t : Trace)
    → is_live name t ≡ true
    → IsTracked t
    → IsTracked (polled name none ∷ t)
polled_none-IsTracked name t live k = record { tracked = k.tracked; single = (live, k.single) }

-- a result is received, and the worker forgotten
received-IsTracked :
    (name : String) (r : Result (Unit {0})) (t : Trace)
    → is_live name t ≡ true
    → IsTracked t
    → IsTracked (
        stored (record (process_of t) { workers = delete name (process_of t).workers })
        ∷ polled name (some r)
        ∷ t)
received-IsTracked name r t live k = record {
  tracked = λ n. rw lookup-delete (split n (name == n));
  single = (live, k.single);
}
  where
    split :
        (n : String) (same : Bool)
        → is_some (if same then none else lookup n (process_of t).workers)
          ≡ (if same then false else is_live n t)
    split n true = refl
    split n false = k.tracked n

-- a worker is entered, and its goroutine started
spawned-IsTracked :
    (name : String) (w : Work) (t : Trace)
    → lookup name (process_of t).workers ≡ none
    → IsTracked t
    → IsTracked (
        spawned name w
        ∷ stored (record (process_of t) { workers = insert name worker (process_of t).workers })
        ∷ t)
spawned-IsTracked name w t missing k = record {
  tracked = λ n. rw lookup-insert (split n (name == n));
  single = (sym (k.tracked name) ∙ ap is_some missing, k.single);
}
  where
    split :
        (n : String) (same : Bool)
        → is_some (if same then some worker else lookup n (process_of t).workers)
          ≡ (if same then true else is_live n t)
    split n true = refl
    split n false = k.tracked n

module _ (name : String) (env : Env) where
  take_result-IsTracked :
      (r : Option (Result (Unit {0}))) (t : Trace)
      → is_live name t ≡ true
      → IsTracked t
      → IsTracked (take_result name r env (polled name r ∷ t)).1
  unfolding take_result forget_worker throw lift read_process store_process ◌>>=◌
  take_result-IsTracked none t live k = polled_none-IsTracked name t live k
  take_result-IsTracked (some r) t live k = received-IsTracked name r t live k

  end_canceled-IsTracked :
      (r : Option (Result (Unit {0}))) (t : Trace)
      → is_live name t ≡ true
      → IsTracked t
      → IsTracked (end_canceled name r env (polled name r ∷ t)).1
  unfolding end_canceled forget_worker throw lift read_process store_process ◌>>=◌
  end_canceled-IsTracked none t live k = polled_none-IsTracked name t live k
  end_canceled-IsTracked (some r) t live k = received-IsTracked name r t live k

  -- after the first section of `Run` there is a live goroutine
  ensure_worker-IsTracked :
      (work : Work) (found : Option Worker) (t : Trace)
      → lookup name (process_of t).workers ≡ found
      → IsTracked t
      → IsTracked (ensure_worker name work found env t).1
        × (is_live name (ensure_worker name work found env t).1 ≡ true)
        × ((ensure_worker name work found env t).0 ≡ ok tt)
  unfolding ensure_worker pure spawn read_process store_process ◌>>=◌
  ensure_worker-IsTracked work (some w) t found k =
      (k, sym (k.tracked name) ∙ ap is_some found, refl)
  ensure_worker-IsTracked work none t missing k =
      (spawned-IsTracked name work t missing k, rw ((eq_iff name name).1 refl) refl, refl)

  run-IsTracked : (work : Work) (t : Trace) → IsTracked t → IsTracked (run name work env t).1
  unfolding run read_process poll_work ◌>>=◌
  run-IsTracked work t k =
      let found = lookup name (process_of t).workers in
      let (k', live, done) = ensure_worker-IsTracked work found t refl k in
      rw done (
        take_result-IsTracked (env.poll_work (ensure_worker name work found env t).1 name)
          (ensure_worker name work found env t).1 live k')

  canceled-IsTracked : (t : Trace) → IsTracked t → IsTracked (canceled name ∷ t)
  canceled-IsTracked t k = record { tracked = k.tracked; single = k.single }

  cancel_worker-IsTracked :
      (found : Option Worker) (t : Trace)
      → lookup name (process_of t).workers ≡ found
      → IsTracked t
      → IsTracked (cancel_worker name found env t).1
  unfolding cancel_worker pure cancel_context poll_work ◌>>=◌
  cancel_worker-IsTracked none t missing k = k
  cancel_worker-IsTracked (some w) t found k =
      end_canceled-IsTracked (env.poll_work (canceled name ∷ t) name) (canceled name ∷ t)
        (sym (k.tracked name) ∙ ap is_some found) (canceled-IsTracked t k)

  cancel-IsTracked : (t : Trace) → IsTracked t → IsTracked (cancel name env t).1
  unfolding cancel read_process ◌>>=◌
  cancel-IsTracked t k = cancel_worker-IsTracked (lookup name (process_of t).workers) t refl k

-- the calls that the reconcilers make
pub data Request : Type 0 where
  to_run : String → Work → Request
  to_cancel : String → Request

-- the record of calls after a request, whatever it returns
abbrev pub serve : Env → Request → Trace → Trace
serve env (to_run name work) t = (run name work env t).1
serve env (to_cancel name) t = (cancel name env t).1

abbrev pub serve_all : Env → List Request → Trace → Trace
serve_all env [] t = t
serve_all env (r ∷ rs) t = serve_all env rs (serve env r t)

serve-IsTracked : (env : Env) (r : Request) (t : Trace) → IsTracked t → IsTracked (serve env r t)
serve-IsTracked env (to_run name work) t k = run-IsTracked name env work t k
serve-IsTracked env (to_cancel name) t k = cancel-IsTracked name env t k

serve_all-keeps :
    (env : Env) (rs : List Request) (t : Trace) → IsTracked t → IsTracked (serve_all env rs t)
serve_all-keeps env [] t k = k
serve_all-keeps env (r ∷ rs) t k =
    serve_all-keeps env rs (serve env r t) (serve-IsTracked env r t k)

-- After any sequence of calls of `Run` and `Cancel` in a new process, whatever the work does and
-- whenever its results come: the pool has a worker exactly for the names whose goroutine was started
-- and has not had its result received; no goroutine was started while one of its name was live; and
-- each look at `done` was at the one of a live goroutine.
pub serve_all-IsTracked : (env : Env) (rs : List Request) → IsTracked (serve_all env rs [])
unfolding lookup
serve_all-IsTracked env rs =
    serve_all-keeps env rs [] (record { tracked = λ name. refl; single = tt })
