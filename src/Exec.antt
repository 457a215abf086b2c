-- ===== src/Exec.antt =====
-- How the handlers run: what they call outside this repository, and the errors that they return.
-- A handler reads the environment and returns its result with the calls that it made, in front of
-- those that were made before. What the environment answers may depend on all earlier calls: it
-- stands for the API server, for LVM and device-mapper, for the host's files, and for all that
-- other processes do in between. Every field of `Env` is a parameter; nothing is assumed of one
-- unless a theorem says so.
pub mod Rules
use kubesan.Prelude.{ℕ, String, List, [], ◌∷◌, Option, none, some, Bool, true, false, if◌then◌else◌}
use kubesan.Api.{Condition, ObjectMeta, ThinPoolLv, Volume, Snapshot, NbdExport}
use kubesan.Process.{Process, started}

-- `not_found`, `already_exists` and `conflict` are the API server's, `refused` is any other error of
-- its; `watch_pending` is internal/manager/common/util/watch.go; `rpc` is gRPC's `status.Error`, whose
-- codes NotFound and AlreadyExists are `absent` and `exists`; `panicked` stands for a Go panic.
pub data Code : Type 0 where
  invalid_argument absent exists out_of_range failed_precondition unimplemented aborted internal :
      Code

pub data Err : Type 0 where
  not_found already_exists conflict refused : Err
  bad_request watch_pending unavailable : String → Err
  command_failed io_failed parse_failed panicked : Err
  rpc : Code → String → Err

pub data Result (A : Type 0) : Type 0 where
  ok : A → Result A
  err : Err → Result A

-- How a command ended, with its combined output; `failed` is a command that could not run.
pub data Exit : Type 0 where
  exited : ℕ → String → Exit
  failed : String → Exit

pub data Verb : Type 0 where
  create update update_status : Verb

-- The commands for qemu-storage-daemon; the code writes them as JSON.
pub data QmpCommand : Type 0 where
  blockdev_add : (node_name file_name : String) → QmpCommand
  blockdev_del : (node_name : String) → QmpCommand
  block_export_add : (id node_name export_name : String) → QmpCommand
  block_export_del : (id : String) → QmpCommand

-- an answer of the daemon, or an error with its text
pub data QmpAnswer : Type 0 where
  returned : QmpAnswer
  refused_with : String → QmpAnswer

-- The work that a goroutine does: `ddWork` and `blkdiscardWork`.
pub data Work : Type 0 where
  dd : (target_path source_path : String) → Work
  blkdiscard : (device : String) (offset : String) → Work

-- What the CSI node service asks of k8s.io/mount-utils and of the package os. The Boolean of the answer
-- says whether a path is a mount point, whether a file system needs a resize, or whether a file is a
-- symbolic link; the error `not_found` is ErrNotExist.
pub data FileOp : Type 0 where
  is_mount_point clean_up_mount_point make_dirs remove_file lstat : (path : String) → FileOp
  format_and_mount : (source target fs_type : String) (flags : List String) → FileOp
  need_resize resize_fs bind_mount symlink : (source target : String) → FileOp

pub data Event : Type 0 where
  got_pool : String → Result ThinPoolLv → Event
  wrote_pool : Verb → ThinPoolLv → Result ThinPoolLv → Event
  deleted_pool : ThinPoolLv → Result (Unit {0}) → Event
  got_volume : String → Result Volume → Event
  deleted_volume : Volume → Result (Unit {0}) → Event
  wrote_volume : Verb → Volume → Result Volume → Event
  got_snapshot : String → Result Snapshot → Event
  deleted_snapshot : String → Result (Unit {0}) → Event
  listed_volumes : Result (List Volume) → Event
  listed_snapshots : Result (List Snapshot) → Event
  wrote_snapshot : Verb → Snapshot → Result Snapshot → Event
  ran : List String → Exit → Event
  stat : String → Result Bool → Event
  did_file : FileOp → Result Bool → Event
  got_export : String → Result NbdExport → Event
  wrote_export : Verb → NbdExport → Result NbdExport → Event
  deleted_export : NbdExport → Result (Unit {0}) → Event
  listed_exports : Result (List NbdExport) → Event
  connected_qmp : Result (Unit {0}) → Event
  ran_qmp : QmpCommand → QmpAnswer → Event
  queried_exports : Result (List String) → Event
  -- a goroutine is started, its context canceled, and what it has sent to `done` received, if any
  spawned : String → Work → Event
  canceled : String → Event
  polled : String → Option (Result (Unit {0})) → Event
  -- the process changes its memory
  stored : Process → Event

abbrev pub Trace : Type 0
Trace = List Event

pub record Env : Type 0 where
  -- config.LocalNodeName
  pub local_node_name : String
  -- config.PodIP
  pub pod_ip : String
  -- config.Domain
  pub domain : String
  -- the API server: a write answers with the object as it is stored
  pub get_pool : Trace → String → Result ThinPoolLv
  pub write_pool : Trace → Verb → ThinPoolLv → Result ThinPoolLv
  pub delete_pool : Trace → ThinPoolLv → Result (Unit {0})
  pub get_volume : Trace → String → Result Volume
  pub write_volume : Trace → Verb → Volume → Result Volume
  pub get_snapshot : Trace → String → Result Snapshot
  pub write_snapshot : Trace → Verb → Snapshot → Result Snapshot
  pub delete_volume : Trace → Volume → Result (Unit {0})
  pub delete_snapshot : Trace → String → Result (Unit {0})
  pub list_volumes : Trace → Result (List Volume)
  pub list_snapshots : Trace → Result (List Snapshot)
  pub get_export : Trace → String → Result NbdExport
  pub write_export : Trace → Verb → NbdExport → Result NbdExport
  pub delete_export : Trace → NbdExport → Result (Unit {0})
  pub list_exports : Trace → Result (List NbdExport)
  -- qemu-storage-daemon: the connection, a command, and the ids of the block exports
  pub connect_qmp : Trace → Result (Unit {0})
  pub run_qmp : Trace → QmpCommand → QmpAnswer
  pub query_exports : Trace → Result (List String)
  -- the goroutines of the workers: what the one of the name has sent by now
  pub poll_work : Trace → String → Option (Result (Unit {0}))
  -- Go leaves open whether a variable beside a call in `return` is read before the call.
  pub reads_before_call : Bool
  -- processes and files of the host
  pub run_command : Trace → List String → Exit
  pub stat_path : Trace → String → Result Bool
  pub file_op : Trace → FileOp → Result Bool
  -- k8s.io/apimachinery/pkg/api/meta
  pub is_status_condition_true : List Condition → String → Bool
  pub find_status_condition : List Condition → String → Option Condition
  pub set_status_condition : List Condition → Condition → List Condition × Bool
  -- IsDNS1123Label of k8s.io/apimachinery/pkg/util/validation: what is wrong with the label
  pub is_dns_label : String → List String
  -- controller-runtime's controllerutil: the second result says whether the object changed
  pub add_finalizer : ObjectMeta → String → ObjectMeta × Bool
  pub remove_finalizer : ObjectMeta → String → ObjectMeta × Bool
  pub set_owner_reference : String → ObjectMeta → Result ObjectMeta
  pub remove_owner_reference : String → ObjectMeta → ObjectMeta
  pub set_controller_reference : String → ObjectMeta → Result ObjectMeta

-- client.IgnoreNotFound behind `Get`
unfoldable pub ignore_not_found : Err → Result (Unit {0})
ignore_not_found not_found = ok tt
ignore_not_found e = err e

abbrev pub Exec : Type 0 → Type 0
Exec A = Env → Trace → Result A × Trace

module _ {A : Type 0} where
  unfoldable pub pure : A → Exec A
  pure a env t = (ok a, t)

  unfoldable pub throw : Err → Exec A
  throw e env t = (err e, t)

  unfoldable pub lift : Result A → Exec A
  lift r env t = (r, t)

  -- runs and hands its error on as a value, as the Go code does before it looks at `err`
  unfoldable pub try : Exec A → Exec (Result A)
  try m env t = let (r, t') = m env t in (ok r, t')

unfoldable pub ask : Exec Env
ask env t = (ok env, t)

module _ {A B : Type 0} where
  abbrev pub continue : Result A → (A → Exec B) → Exec B
  continue (ok a) f env t = f a env t
  continue (err e) f env t = (err e, t)

  infixl 10 ◌>>=◌ ◌>>◌
  unfoldable pub ◌>>=◌ : Exec A → (A → Exec B) → Exec B
  unfolding pure throw lift try ask
  ◌>>=◌ m f env t = let (r, t') = m env t in continue r f env t'

  abbrev pub ◌>>◌ : Exec A → Exec B → Exec B
  m >> n = m >>= λ _. n

-- the calls, each recorded with its answer
module _ where
  unfoldable pub get_pool : String → Exec ThinPoolLv
  get_pool name env t = let r = env.get_pool t name in (r, got_pool name r ∷ t)

  unfoldable pub write_pool : Verb → ThinPoolLv → Exec ThinPoolLv
  write_pool verb pool env t = let r = env.write_pool t verb pool in (r, wrote_pool verb pool r ∷ t)

  unfoldable pub delete_pool : ThinPoolLv → Exec (Unit {0})
  delete_pool pool env t = let r = env.delete_pool t pool in (r, deleted_pool pool r ∷ t)

  unfoldable pub get_volume : String → Exec Volume
  get_volume name env t = let r = env.get_volume t name in (r, got_volume name r ∷ t)

  unfoldable pub write_volume : Verb → Volume → Exec Volume
  write_volume verb volume env t =
      let r = env.write_volume t verb volume in (r, wrote_volume verb volume r ∷ t)

  unfoldable pub delete_volume : Volume → Exec (Unit {0})
  delete_volume volume env t =
      let r = env.delete_volume t volume in (r, deleted_volume volume r ∷ t)

  unfoldable pub delete_snapshot : String → Exec (Unit {0})
  delete_snapshot name env t =
      let r = env.delete_snapshot t name in (r, deleted_snapshot name r ∷ t)

  unfoldable pub list_volumes : Exec (List Volume)
  list_volumes env t = let r = env.list_volumes t in (r, listed_volumes r ∷ t)

  unfoldable pub list_snapshots : Exec (List Snapshot)
  list_snapshots env t = let r = env.list_snapshots t in (r, listed_snapshots r ∷ t)

  unfoldable pub get_snapshot : String → Exec Snapshot
  get_snapshot name env t = let r = env.get_snapshot t name in (r, got_snapshot name r ∷ t)

  unfoldable pub write_snapshot : Verb → Snapshot → Exec Snapshot
  write_snapshot verb snapshot env t =
      let r = env.write_snapshot t verb snapshot in (r, wrote_snapshot verb snapshot r ∷ t)

  unfoldable pub run_command : List String → Exec Exit
  run_command command env t = let r = env.run_command t command in (ok r, ran command r ∷ t)

  unfoldable pub stat_path : String → Exec Bool
  stat_path path env t = let r = env.stat_path t path in (r, stat path r ∷ t)

  unfoldable pub do_file : FileOp → Exec Bool
  do_file op env t = let r = env.file_op t op in (r, did_file op r ∷ t)

  unfoldable pub get_export : String → Exec NbdExport
  get_export name env t = let r = env.get_export t name in (r, got_export name r ∷ t)

  unfoldable pub write_export : Verb → NbdExport → Exec NbdExport
  write_export verb e env t = let r = env.write_export t verb e in (r, wrote_export verb e r ∷ t)

  unfoldable pub delete_export : NbdExport → Exec (Unit {0})
  delete_export e env t = let r = env.delete_export t e in (r, deleted_export e r ∷ t)

  unfoldable pub list_exports : Exec (List NbdExport)
  list_exports env t = let r = env.list_exports t in (r, listed_exports r ∷ t)

  unfoldable pub connect_qmp : Exec (Unit {0})
  connect_qmp env t = let r = env.connect_qmp t in (r, connected_qmp r ∷ t)

  unfoldable pub run_qmp : QmpCommand → Exec QmpAnswer
  run_qmp command env t = let r = env.run_qmp t command in (ok r, ran_qmp command r ∷ t)

  unfoldable pub query_exports : Exec (List String)
  query_exports env t = let r = env.query_exports t in (r, queried_exports r ∷ t)

  unfoldable pub spawn : String → Work → Exec (Unit {0})
  spawn name work env t = (ok tt, spawned name work ∷ t)

  unfoldable pub cancel_context : String → Exec (Unit {0})
  cancel_context name env t = (ok tt, canceled name ∷ t)

  unfoldable pub poll_work : String → Exec (Option (Result (Unit {0})))
  poll_work name env t = let r = env.poll_work t name in (ok r, polled name r ∷ t)

-- The memory of the process: what was stored last.
abbrev pub process_of : Trace → Process
process_of [] = started
process_of (stored p ∷ t) = p
process_of (_ ∷ t) = process_of t

-- nothing is called yet, and the process has this memory
abbrev pub begun : Process → Trace
begun p = stored p ∷ []

unfoldable pub read_process : Exec Process
read_process env t = (ok (process_of t), t)

unfoldable pub store_process : Process → Exec (Unit {0})
store_process p env t = (ok tt, stored p ∷ t)
