-- ===== src/Examples/Volumes.antt =====
-- The theorems on volumes and snapshots at concrete inputs.
use kubesan.Prelude.{
  ℕ, ◌≤◌, String, List, [], ◌∷◌, Option, none, some, Bool, true, false, ◌≡◌, ◌≢◌, refl, sym, ap,
  ◌⊎◌, ◌==◌, string_eq,
}
use kubesan.Prelude.Int.{pos}
use kubesan.Slices.{contains}
use kubesan.Api.{Volume, ThinLvSpecStateName, ThinLvStatusStateName}
use kubesan.Exec.{Env, Trace, begun, ok, exited}
use kubesan.Exec.Rules.{ok-injective}
use kubesan.ClusterPool.{finalizer}
use kubesan.Process.{Process, worker, started}
use kubesan.Commands.{lvm_size}
use kubesan.Commands.Counter.{lvm_lv_get_counter}
use kubesan.Blobs.Manager.{linear_blob_manager}
use kubesan.VolumeController.{has_condition, status_update, reconcile_deleting}
use kubesan.VolumeController.Creation.{prepare_for_resize}
use kubesan.VolumeController.Resize.{SetsConditions, prepare_for_resize_lem}
use kubesan.VolumeController.Deletion.{
  IsOrdered, HasRemoved, KeepsName, linear_blob_manager-Removes, reconcile_deleting_volume_lem,
}
use kubesan.VolumeNode.{attached_status}
use kubesan.VolumeNode.Attached.{IsNoted, attached_status-IsNoted}
use kubesan.VolumeNode.Population.{
  change_activation, safe_offset_key, populate_linear, blkdiscard_work_name,
  reconcile_linear_populating,
}
use kubesan.VolumeNode.Wiping.{WipesBehind, reconcile_linear_populating-WipesBehind}
use kubesan.VolumeNode.Zeroed.{reconcile_linear_populating_lem}
use kubesan.Workers.Traces.{HasDone}
use kubesan.SnapshotController.{reconcile}
use kubesan.SnapshotController.Source.{IsSourced, reconcile-IsSourced}
use kubesan.Examples.World.{
  world, meta, completed, is_condition_true, linear_volume, lv_spec, lv_status, pool_of,
}

abbrev volume : Volume
volume = linear_volume ("node-2" ∷ [])

attached_status-IsNoted_example :
    IsNoted world volume true (attached_status world volume true (pool_of [] [] "" ""))
attached_status-IsNoted_example = attached_status-IsNoted world volume true (pool_of [] [] "" "")

-- a list of conditions whose first one of a type counts
abbrev setting : Env
setting = record world { set_status_condition = λ conditions c. (c ∷ conditions, true) }

sets : SetsConditions setting
unfolding is_condition_true
sets = record { others = λ conditions c type h. rw h refl; flips = λ conditions c h f. refl }

offline : (linear_blob_manager "vg").expansion_must_be_offline ≡ true
unfolding linear_blob_manager
offline = refl

populated : has_condition setting volume "DataSourceCompleted" ≡ true
unfolding is_condition_true
populated = refl

prepare_for_resize_lem_example :
    (noted : Volume) × (prepare_for_resize (linear_blob_manager "vg") volume false none setting []
      ≡ status_update noted setting [])
    × (has_condition setting noted "Available" ≡ has_condition setting volume "Available")
    × (has_condition setting noted "Abnormal" ≡ has_condition setting volume "Abnormal")
prepare_for_resize_lem_example =
    prepare_for_resize_lem setting sets volume (linear_blob_manager "vg") [] offline populated

-- a volume that is filled, and not available yet
abbrev filled_volume : Volume
filled_volume = record volume {
  status = record volume.status { conditions = completed ∷ []; size_bytes = 8388608 };
}

-- the API server answers with what it was sent
abbrev answering : Env
answering = record setting { write_volume = λ t verb v. ok v }

keeps : KeepsName world
keeps = record { same = λ t verb v v' h. sym (ap (λ x. x.metadata.name) (ok-injective h)) }

held : contains volume.metadata.finalizers (finalizer world.domain) ≡ true
unfolding contains finalizer
held = refl

reconcile_deleting_volume_lem_example :
    IsOrdered world
      (HasRemoved "vg" "pvc")
      (reconcile_deleting (linear_blob_manager "vg") volume world []).1
    × (volume.status.attached_to_nodes ≢ []
        → reconcile_deleting (linear_blob_manager "vg") volume world [] ≡ (ok tt, []))
reconcile_deleting_volume_lem_example =
    reconcile_deleting_volume_lem (linear_blob_manager "vg")
      (linear_blob_manager-Removes world "vg") keeps volume held

-- each command prints a size
abbrev printing : Env
printing = record world { run_command = λ t c. exited 0 "4194304" }

-- a process in which the volume's zeroing is under way
abbrev wiping : Process
wiping = record started { workers = (blkdiscard_work_name volume, worker) ∷ [] }

filled : (reconcile_linear_populating volume printing (begun wiping)).0 ≡ ok tt
unfolding reconcile_linear_populating kubesan.Commands.lvm_lv_get_tags kubesan.Prelude.Dict.lookup
    kubesan.Commands.lvm_lv_add_tag
filled = refl

counted :
    (lvm_lv_get_counter "vg" "pvc"
      (safe_offset_key printing)
      printing
      (change_activation volume "ey" printing (begun wiping)).1).0
    ≡ ok (pos 0)
unfolding lvm_lv_get_counter change_activation kubesan.Commands.lvm_lv_get_tags
counted = refl

-- the record of calls behind the look at the counter
abbrev looked : Trace
looked =
    (lvm_lv_get_counter "vg" "pvc" (safe_offset_key printing) printing
      (change_activation volume "ey" printing (begun wiping)).1).1

kept_offset : (populate_linear volume (pos 0) printing looked).0 ≡ ok (pos 0)
unfolding populate_linear
kept_offset = refl

measured :
    (lvm_size "vg" "pvc" printing (populate_linear volume (pos 0) printing looked).1).0 ≡ ok 4194304
unfolding lvm_size
measured = refl

reconcile_linear_populating_lem_example :
    HasDone
      (blkdiscard_work_name volume)
      (reconcile_linear_populating volume printing (begun wiping)).1
unfolding kubesan.VolumeNode.Population.is_unsafe_fast
reconcile_linear_populating_lem_example =
    reconcile_linear_populating_lem printing volume refl wiping tt tt (pos 0) (pos 0) 4194304 refl
      refl counted kept_offset measured refl filled

reconcile_linear_populating-WipesBehind_example :
    WipesBehind (pos 0) (reconcile_linear_populating volume printing (begun wiping)).1
reconcile_linear_populating-WipesBehind_example =
    reconcile_linear_populating-WipesBehind printing volume wiping (pos 0) counted

-- a cluster with a snapshot, its source, and the pool of both
abbrev snapshotting : Env
snapshotting = record world {
  get_volume = λ t name. ok volume;
  get_snapshot = λ t name. ok (record {
    metadata = meta "snap";
    spec = record { vg_name = "vg"; binding = "ns/snap"; source_volume = "pvc" };
    status = record { observed_generation = 0; conditions = []; size_bytes = 0 };
  });
  get_pool = λ t name. ok (
      pool_of
        (lv_spec "thin-pvc" ThinLvSpecStateName.inactive
          ∷ lv_spec "thin-snap" ThinLvSpecStateName.inactive
          ∷ [])
        (lv_status "thin-snap" ThinLvStatusStateName.inactive ∷ []) "" "");
}

reconcile-IsSourced_example : IsSourced snapshotting (reconcile "snap" snapshotting []).1
reconcile-IsSourced_example = reconcile-IsSourced "snap" snapshotting
