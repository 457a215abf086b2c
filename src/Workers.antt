-- ===== src/Workers.antt =====
-- internal/manager/common/workers/workers.go: long work in goroutines, one for each name. What a
-- goroutine has sent by now is the environment's answer to `poll_work`.
pub mod Traces
pub mod Tracking
use kubesan.Prelude.{String, List, [], ◌∷◌, Option, none, some}
use kubesan.Prelude.Dict.{lookup, insert, delete}
use kubesan.Process.{Process, Worker, worker}
use kubesan.Exec.{
  Result, watch_pending, Exec, Work, pure, throw, lift, spawn, cancel_context, poll_work,
  read_process, store_process, ◌>>=◌, ◌>>◌,
}

abbrev with_workers : Process → List (String × Worker) → Process
with_workers p workers = record p { workers = workers }

-- the first locked section of `Run`, and the start of a worker that was not there
unfoldable pub ensure_worker : String → Work → Option Worker → Exec (Unit {0})
unfolding pure read_process store_process spawn ◌>>=◌
ensure_worker name work (some w) = pure tt
ensure_worker name work none = do
  p ← read_process
  store_process (with_workers p (insert name worker p.workers))
  spawn name work

-- delete(w.Workers, name)
unfoldable pub forget_worker : String → Exec (Unit {0})
unfolding read_process store_process ◌>>=◌
forget_worker name = do p ← read_process; store_process (with_workers p (delete name p.workers))

-- what `Run` makes of `getResult`
unfoldable pub take_result : String → Option (Result (Unit {0})) → Exec (Unit {0})
unfolding forget_worker throw lift ◌>>=◌
take_result name none = throw (watch_pending "waiting for worker to complete")
take_result name (some result) = do forget_worker name; lift result

unfoldable pub run : String → Work → Exec (Unit {0})
unfolding ensure_worker take_result read_process poll_work ◌>>=◌
run name work = do
  p ← read_process
  ensure_worker name work (lookup name p.workers)
  result ← poll_work name
  take_result name result

-- what `Cancel` makes of `getResult`: the result itself is dropped
unfoldable pub end_canceled : String → Option (Result (Unit {0})) → Exec (Unit {0})
unfolding forget_worker throw
end_canceled name none = throw (watch_pending "waiting for worker cancellation")
end_canceled name (some result) = forget_worker name

unfoldable pub cancel_worker : String → Option Worker → Exec (Unit {0})
unfolding end_canceled pure cancel_context poll_work ◌>>=◌
cancel_worker name none = pure tt
cancel_worker name (some w) = do
  cancel_context name
  result ← poll_work name
  end_canceled name result

unfoldable pub cancel : String → Exec (Unit {0})
unfolding cancel_worker read_process ◌>>=◌
cancel name = do p ← read_process; cancel_worker name (lookup name p.workers)
