-- ===== src/VolumeController/Creation.antt =====
-- internal/manager/cluster/volume_controller.go: a volume that is not being deleted, and `Reconcile`.
use kubesan.Prelude.{
  ℕ, ◌+◌, String, List, [], ◌∷◌, Option, none, some, Bool, true, false, not, ◌&&◌, ◌||◌, string_eq,
  ltb, nat_beq, length, if◌then◌else◌,
}
use kubesan.Slices.{count_non_nil}
use kubesan.Api.{
  Volume, VolumeType, VolumeTypeFilesystem, VolumeContents, VolumeContentsType, Condition,
  condition_true, condition_false,
}
use kubesan.Exec.{
  Env, bad_request, watch_pending, Result, ok, err, Exec, pure, throw, lift, try, ask,
  ignore_not_found, get_volume, write_volume, update, ◌>>=◌, ◌>>◌,
}
use kubesan.ClusterPool.{finalizer}
use kubesan.Blobs.Manager.{BlobManager}
use kubesan.VolumeController.{
  status_update, condition, with_condition, has_condition, new_blob_manager, activate_data_source,
  deactivate_data_source, reconcile_deleting,
}

unfoldable pub ensure_finalizer : Volume → Exec Volume
unfolding ask pure write_volume ◌>>=◌
ensure_finalizer volume = do
  env ← ask
  let (metadata, changed) = env.add_finalizer volume.metadata (finalizer env.domain)
  if changed then write_volume update (record volume { metadata = metadata }) else pure volume

-- `||` of calls of `SetStatusCondition`: the ones behind a change are not made
unfoldable pub set_first : Env → Volume → List Condition → Volume × Bool
unfolding with_condition
set_first env volume [] = (volume, false)
set_first env volume (c ∷ cs) =
    let (noted, changed) = with_condition env volume c in
    let rest = set_first env noted cs in if changed then (noted, true) else rest

abbrev pub resizing_conditions : List Condition
resizing_conditions =
    condition "DataSourceCompleted" condition_false "Resizing"
      "volume is unavailable while resizing"
    ∷ condition "Available" condition_false "Resizing" "volume is unavailable while resizing"
    ∷ condition "Abnormal" condition_true "Resizing" "volume unavailable during expansion"
    ∷ []

abbrev pub resize_unsupported : Condition
resize_unsupported =
    condition "Abnormal" condition_true "ResizeUnsupported" "filesystem resize not implemented yet"

unfoldable pub update_if : Volume × Bool → Exec Volume
unfolding status_update pure
update_if (volume, changed) = if changed then status_update volume else pure volume

unfoldable pub prepare_for_resize :
    BlobManager → Volume → Bool → Option VolumeTypeFilesystem → Exec Volume
unfolding update_if set_first with_condition ask pure throw ◌>>=◌
prepare_for_resize manager volume online (some filesystem) = do
  env ← ask
  update_if (with_condition env volume resize_unsupported)
prepare_for_resize manager volume online none = do
  env ← ask
  if not manager.expansion_must_be_offline
      then pure volume
      else if online
      then throw (watch_pending "waiting for volume to be offline")
      else update_if (set_first env volume resizing_conditions)

unfoldable pub needs_resize : Volume → Bool
needs_resize volume =
    ltb 0 volume.status.size_bytes && ltb volume.status.size_bytes volume.spec.size_bytes

unfoldable pub is_online : Volume → Bool
is_online volume =
    ltb 0 (length volume.spec.attach_to_nodes + length volume.status.attached_to_nodes)

-- the size of the blob, if it has grown; the flag says whether it has
unfoldable pub with_size : Volume → ℕ → Volume × Bool
with_size volume size =
    if ltb volume.status.size_bytes size
    then (record volume { status = record volume.status { size_bytes = size } }, true)
    else (volume, false)

unfoldable pub check_size : BlobManager → Volume → Bool → Exec (Volume × Bool)
unfolding with_size pure ◌>>=◌
check_size manager volume online =
    if manager.size_needs_check online
    then (do size ← manager.get_size volume.metadata.name; pure (with_size volume size))
    else pure (volume, false)

abbrev pub lv_created : Condition
lv_created = condition "LvCreated" condition_true "Created" "lvm logical volume created"

unfoldable pub create_lv : BlobManager → Volume → Bool → Exec Volume
unfolding check_size with_condition update_if ask ◌>>=◌
create_lv manager volume online = do
  env ← ask
  manager.create_blob volume.metadata.name volume.spec.binding volume.spec.size_bytes
      volume.metadata.name
  let path = manager.get_path volume.metadata.name
  (sized, grown) ←
      check_size manager (record volume { status = record volume.status { path = path } }) online
  let (created, changed) = with_condition env sized lv_created
  update_if (created, grown || changed)

pub is_empty_contents : VolumeContentsType → Bool
is_empty_contents VolumeContentsType.empty = true
is_empty_contents _ = false

abbrev pub completed : Condition
completed =
    condition "DataSourceCompleted" condition_true "Completed"
      "population from data source completed"

-- the volume, and whether its status is to be written
unfoldable pub populate : BlobManager → Volume → Exec (Volume × Bool)
unfolding activate_data_source is_empty_contents with_condition ask pure ◌>>=◌
populate manager volume = do
  env ← ask
  if has_condition env volume "DataSourceCompleted" then pure (volume, false) else (do
    v ← activate_data_source manager volume
    if is_empty_contents v.spec.contents.contents_type && not manager.expansion_must_be_offline
        then pure (with_condition env v completed)
        else pure (v, false))

abbrev pub ready : Condition
ready = condition "Available" condition_true "Available" "volume ready for use"

abbrev pub not_abnormal : Condition
not_abnormal = condition "Abnormal" condition_false "Available" "volume ready for use"

unfoldable pub make_available : BlobManager → Volume → Bool → Exec (Volume × Bool)
unfolding deactivate_data_source with_condition ask pure ◌>>=◌
make_available manager volume needs_update = do
  env ← ask
  if not (has_condition env volume "Available") && has_condition env volume "DataSourceCompleted"
      then (do
        v ← deactivate_data_source manager volume
        let (noted, changed) = with_condition env v ready
        pure ((with_condition env noted not_abnormal).0, true))
      else pure (volume, needs_update)

-- `reconcileNotDeleting` behind the LV
unfoldable pub complete : BlobManager → Volume → Exec (Unit {0})
unfolding populate make_available update_if pure ◌>>=◌
complete manager volume = do
  (populated, changed) ← populate manager volume
  last ← make_available manager populated changed
  update_if last
  pure tt

unfoldable pub reconcile_not_deleting : BlobManager → Volume → Exec (Unit {0})
unfolding ensure_finalizer prepare_for_resize create_lv complete needs_resize is_online ask pure
    ◌>>=◌
reconcile_not_deleting manager volume = do
  env ← ask
  let resize = needs_resize volume
  let online = is_online volume
  stored ← ensure_finalizer volume
  prepared ←
      (if resize
        then prepare_for_resize manager stored online stored.spec.type.filesystem
        else pure stored)
  created ←
      (if not (has_condition env prepared "LvCreated") || resize
        then create_lv manager prepared online
        else pure prepared)
  complete manager created

present {ℓ} : {A : Type ℓ} → Option A → Option (Unit {0})
present none = none
present (some a) = some tt

unfoldable pub is_valid_type : VolumeType → Bool
unfolding count_non_nil present
is_valid_type type = nat_beq (count_non_nil (present type.block ∷ present type.filesystem ∷ [])) 1

is_there {ℓ} : {A : Type ℓ} → Option A → Bool
is_there none = false
is_there (some a) = true

contents_agree : VolumeContents → VolumeContentsType → Bool
unfolding count_non_nil present is_there
contents_agree c VolumeContentsType.empty =
    nat_beq (count_non_nil (present c.source_volume ∷ present c.source_snapshot ∷ [])) 0
contents_agree c VolumeContentsType.clone_volume =
    is_there c.source_volume && not (is_there c.source_snapshot)
contents_agree c VolumeContentsType.clone_snapshot =
    is_there c.source_snapshot && not (is_there c.source_volume)
contents_agree c VolumeContentsType.other = true

unfoldable pub is_valid_contents : VolumeContents → Bool
unfolding contents_agree
is_valid_contents c = contents_agree c c.contents_type

-- a wait is no error of `Reconcile`
abbrev pub swallow_wait : Result (Unit {0}) → Exec (Unit {0})
swallow_wait (err (watch_pending why)) = pure tt
swallow_wait r = lift r

reconcile_volume : BlobManager → Volume → Option ℕ → Exec (Unit {0})
unfolding reconcile_deleting reconcile_not_deleting is_valid_type is_valid_contents try throw ◌>>=◌
reconcile_volume manager volume (some when) = reconcile_deleting manager volume
reconcile_volume manager volume none =
    if not (is_valid_type volume.spec.type)
    then throw (bad_request "invalid volume type")
    else if not (is_valid_contents volume.spec.contents)
    then throw (bad_request "invalid volume contents")
    else (do r ← try (reconcile_not_deleting manager volume); swallow_wait r)

unfoldable pub reconcile : String → Exec (Unit {0})
unfolding reconcile_volume new_blob_manager get_volume ignore_not_found try lift ◌>>=◌
reconcile name = do
  got ← try (get_volume name)
  elim got [
    | err e ↦ lift (ignore_not_found e)
    | ok volume ↦ (do
      manager ← lift (new_blob_manager volume volume.spec.mode)
      reconcile_volume manager volume volume.metadata.deletion_timestamp)
  ]
