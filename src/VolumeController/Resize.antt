-- ===== src/VolumeController/Resize.antt =====
-- Preparing a volume for its expansion.
use kubesan.Prelude.{String, List, none, true, false, ◌≡◌, refl, ◌==◌, string_eq}
use kubesan.Api.{Volume, Condition, condition_false}
use kubesan.Exec.{Env, Trace, ask, ◌>>=◌}
use kubesan.Blobs.Manager.{BlobManager}
use kubesan.VolumeController.{condition, with_condition, has_condition, status_update}
use kubesan.VolumeController.Creation.{set_first, update_if, prepare_for_resize}

-- What k8s.io/apimachinery says of `SetStatusCondition`: conditions of other types stay, and a
-- condition that was true and is to be false is a change.
pub record SetsConditions (env : Env) : Type 0 where
  pub others :
      (conditions : List Condition) (c : Condition) (type : String)
      → (c.type == type) ≡ false
      → env.is_status_condition_true (env.set_status_condition conditions c).0 type
        ≡ env.is_status_condition_true conditions type
  pub flips :
      (conditions : List Condition) (c : Condition)
      → env.is_status_condition_true conditions c.type ≡ true
      → c.status ≡ condition_false
      → (env.set_status_condition conditions c).1 ≡ true

module _ (env : Env) (s : SetsConditions env) (volume : Volume) where
  -- When an offline volume that is no filesystem, of a manager that must expand offline, is expanded,
  -- and its data source was completed, the status that is written says "Available" exactly if it did
  -- before, and "Abnormal" too: the conditions that are to change them are not set. This is if
  -- `SetStatusCondition` leaves conditions of other types alone, and reports a change when a condition
  -- that was true is set to false.
  pub prepare_for_resize_lem :
      (manager : BlobManager) (t : Trace)
      → manager.expansion_must_be_offline ≡ true
      → has_condition env volume "DataSourceCompleted" ≡ true
      → (noted : Volume) × (prepare_for_resize manager volume false none env t
          ≡ status_update noted env t)
        × (has_condition env noted "Available" ≡ has_condition env volume "Available")
        × (has_condition env noted "Abnormal" ≡ has_condition env volume "Abnormal")
  unfolding prepare_for_resize set_first with_condition update_if ask ◌>>=◌
  prepare_for_resize_lem manager t offline done =
      let c =
        condition "DataSourceCompleted" condition_false "Resizing"
          "volume is unavailable while resizing" in
      (
        (with_condition env volume c).0,
        rw (offline, s.flips volume.status.conditions c done refl) refl,
        s.others volume.status.conditions c "Available" refl,
        s.others volume.status.conditions c "Abnormal" refl,
      )
