-- ===== src/Lib.antt =====
-- KubeSAN, a CSI plugin for shared block storage with LVM thin pools, as functions and theorems.
--
-- The program has three kinds of processes. The CSI plugin (internal/csi) turns requests for volumes
-- and snapshots into custom resources of the API server (api/v1alpha1). The cluster controller
-- (internal/manager/cluster) and the node controllers (internal/manager/node) bring LVM and
-- device-mapper to what the resources ask for, and note in the resources' status what is there. They
-- meet only in the resources, so their order of steps is open.
--
-- Files, with paths from the repository's root:
--   Prelude, and below it: shared names and lemmas, and what is used of Go's strings and strconv.
--   Slices: internal/common/slices/slices.go, with its laws in Slices/Laws.
--   Api: api/v1alpha1, with ThinPoolLv in Api/Pool and the other resources in Api/Resources.
--   Exec: how a handler runs. It reads an environment and returns its result with the record of the
--     calls that it has made, the last first; Exec/Rules has the rules for chains of steps.
--   Commands: internal/common/commands/commands.go. Commands/Munge is `munge`, Commands/Counter the
--     counters in LVM tags, Commands/Nbd nbd-client, Commands/Traces what a command adds to the record of calls.
--   Dm: internal/common/dm/dm.go, the two layers of device-mapper devices.
--   ThinPool: internal/manager/common/thinpoollv/thinpoollv.go. Activation has `recalcActiveOnNode`,
--     Requests has `UpdateThinPoolLv` and `ActivateThinLv`, Nodes has `InterestedNodes`.
--   NodePool: internal/manager/node/thinpoollv_node_controller.go: the activation of the pool in
--     NodePool, its thin LVs and `Reconcile` in NodePool/ThinLvs; Exclusion and Removal are proofs.
--   ClusterPool: internal/manager/cluster/thinpoollv_controller.go; Creation and Deletion are proofs.
--   Blobs: internal/manager/common/blobs/blob_manager_thin.go: the entries of thin LVs and `RemoveBlob`
--     in Blobs, the other operations in Blobs/Create; Removal, Sizes and Waiting are proofs.
--     Blobs/Manager is the interface in blob_manager.go beside it and both managers, the linear one of
--     blob_manager_linear.go included; Blobs/Quiet says what any of them leaves alone.
--   VolumeController: internal/manager/cluster/volume_controller.go: the deletion of a volume in
--     VolumeController, the rest in VolumeController/Creation; Deletion, Resize,
--     Availability and Honesty are proofs.
--   SnapshotController: internal/manager/cluster/snapshot_controller.go; Source is a proof.
--   VolumeNode: internal/manager/node/volume_node_controller.go: attaching and detaching thin volumes in
--     VolumeNode/Thin, their exports in VolumeNode/Exports, linear volumes in VolumeNode/Linear, filling
--     and wiping in VolumeNode/Population, `Reconcile` in VolumeNode/Reconcile; Attached,
--     Retiring, Wiping and Zeroed are proofs.
--   Process: the memory of the manager process. Nbd is internal/common/nbd/server.go, Nbd/Client
--     client.go beside it, and NbdController internal/manager/node/nbdexport_node_controller.go; Workers
--     is internal/manager/common/workers/workers.go. Nbd/Names, Nbd/Reuse, Nbd/Shutdown,
--     NbdController/Deletion and Workers/Tracking are proofs; the files Traces and Commands/Tagging say
--     what their functions add to the record of calls.
--   Csi: internal/csi. Csi/Capacity, Csi/Parameters and Csi/Volumes are
--     internal/csi/controller/volume.go, with `CreateVolume` in Csi/Volumes/Create, the other handlers
--     in Csi/Volumes/Change, and `ListVolumes` in Csi/Listing; Csi/Snapshots is snapshot.go beside it;
--     Csi/Names is internal/csi/common/validate/validate.go; Csi/Client is
--     internal/csi/common/client/client.go. Csi/Node is internal/csi/node/stage.go, and Csi/Node/Publish
--     publish.go and stats.go beside it; Csi/Node/Attachment and Csi/Node/Order are proofs.
--   Examples: the theorems at concrete inputs.
--
-- The functions have the names of the Go functions in snake_case. A handler's Go receiver, context and
-- log are left out. A write to the API server answers with the object as it is stored, which takes the
-- place of the object that the Go code passes by pointer; where the code mutates an object in place,
-- the function returns the changed one. A panic is the error `panicked`.
--
-- The memory of a process (tables behind a mutex) is what the record of calls says was stored last, so
-- that each write to it is an event. A function that holds its mutex throughout is one step; other
-- goroutines show only in what the environment answers and in the record that a handler starts from.
-- The record `begun` holds some memory of the process and no call yet.
--
-- What is outside the repository is a parameter: the record Env of Exec has the API server, the
-- commands of the host and its files and mounts, qemu-storage-daemon, and the goroutines of the workers, whose
-- answers may depend on all earlier calls, and the functions of Kubernetes' libraries on conditions,
-- finalizers and labels. A theorem that relies on one of them says so: that the API server keeps a name,
-- that a condition of one type leaves the others alone, or that the daemon answers. Two more parameters
-- are freedoms that Go leaves its compilers: whether pointers to two empty structs are equal, and whether
-- a variable beside a call in `return` is read before it (`reads_before_call`).
--
-- Bounds and fuel: the index loop of `RemoveAll` has one round for each element and one more, since
-- each round brings the index and the length closer together. Polling ends when the code's context
-- does, so the number of polls that it leaves is an argument, and the theorems hold for each. A
-- conflict in `ControllerExpandVolume` is retried as often as client-go's DefaultRetry says. An int64
-- is a number below 2 ^ 64 in Csi/Capacity, where it may wrap, and a number or an integer elsewhere. The
-- counter of node names is followed below 2 ^ 63.
--
-- Not modelled: `LvmCreateProfile`, the fixed lists of capabilities, the JSON text of the commands for
-- qemu-storage-daemon, the goroutine of `StopServer` and the signal handler, the start-up code,
-- generated code, and the texts of errors beyond their fixed parts.
pub mod Prelude
pub mod Slices
pub mod Api
pub mod Process
pub mod Exec
pub mod Commands
pub mod Dm
pub mod ThinPool
pub mod NodePool
pub mod ClusterPool
pub mod Blobs
pub mod Nbd
pub mod NbdController
pub mod Workers
pub mod VolumeController
pub mod SnapshotController
pub mod VolumeNode
pub mod Csi
pub mod Examples
