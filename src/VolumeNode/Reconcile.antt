-- ===== src/VolumeNode/Reconcile.antt =====
-- internal/manager/node/volume_node_controller.go: `Reconcile`.
use kubesan.Prelude.{
  ℕ, String, Option, none, some, Bool, true, false, not, ◌&&◌, ◌==◌, string_eq, if◌then◌else◌,
}
use kubesan.Prelude.Dict.{lookup}
use kubesan.Api.{Volume, VolumeMode}
use kubesan.Exec.{
  Env, bad_request, watch_pending, Result, ok, err, Exec, pure, throw, lift, try, ask,
  ignore_not_found, get_volume, ◌>>=◌,
}
use kubesan.VolumeController.{
  status_update, with_condition, has_condition, labels_of, population_node_label,
}
use kubesan.VolumeController.Creation.{completed, swallow_wait}
use kubesan.VolumeNode.Linear.{reconcile_linear}
use kubesan.VolumeNode.Thin.{reconcile_thin}
use kubesan.VolumeNode.Population.{reconcile_thin_populating, reconcile_linear_populating}

abbrev text_or_empty : Option String → String
text_or_empty none = ""
text_or_empty (some s) = s

-- this node is to fill the volume
unfoldable pub is_populator : Env → Volume → Bool
is_populator env volume =
    has_condition env volume "LvCreated"
    && (not (has_condition env volume "DataSourceCompleted")
        && (elim volume.metadata.labels [ none ↦ false | some labels ↦ true ]
            && text_or_empty (lookup (population_node_label env) (labels_of volume))
              == env.local_node_name))

populate_mode : Volume → VolumeMode → Exec (Unit {0})
unfolding reconcile_thin_populating reconcile_linear_populating throw
populate_mode volume VolumeMode.thin = reconcile_thin_populating volume
populate_mode volume VolumeMode.linear = reconcile_linear_populating volume
populate_mode volume VolumeMode.other =
    throw (bad_request "invalid volume mode for data population")

-- the cluster controller is told that the volume is filled
unfoldable pub note_completed : Volume → Exec Volume
unfolding with_condition status_update ask pure ◌>>=◌
note_completed volume = do
  env ← ask
  let (noted, changed) = with_condition env volume completed
  if changed then status_update noted else pure noted

-- how the population ended: `none` if `Reconcile` returns
populated : Volume → Option ℕ → Result (Unit {0}) → Exec (Option Volume)
unfolding note_completed pure throw ◌>>=◌
populated volume deletion (err (watch_pending why)) = pure none
populated volume deletion (err e) = throw e
populated volume (some when) (ok u) = pure none
populated volume none (ok u) = do v ← note_completed volume; pure (some v)

unfoldable pub populate : Volume → Exec (Option Volume)
unfolding is_populator populate_mode populated ask try pure ◌>>=◌
populate volume = do
  env ← ask
  if is_populator env volume
      then (do
        r ← try (populate_mode volume volume.spec.mode)
        populated volume volume.metadata.deletion_timestamp r)
      else pure (some volume)

attach_mode : Volume → VolumeMode → Exec (Unit {0})
unfolding reconcile_thin reconcile_linear throw
attach_mode volume VolumeMode.thin = reconcile_thin volume
attach_mode volume VolumeMode.linear = reconcile_linear volume
attach_mode volume VolumeMode.other = throw (bad_request "invalid volume mode")

-- `Reconcile` behind the population
unfoldable pub reconcile_available : Volume → Exec (Unit {0})
unfolding attach_mode ask try pure ◌>>=◌
reconcile_available volume = do
  env ← ask
  if not (has_condition env volume "Available")
      then pure tt
      else (do r ← try (attach_mode volume volume.spec.mode); swallow_wait r)

unfoldable pub reconcile : String → Exec (Unit {0})
unfolding populate reconcile_available get_volume ignore_not_found try lift pure ◌>>=◌
reconcile name = do
  got ← try (get_volume name)
  elim got [
    | err e ↦ lift (ignore_not_found e)
    | ok volume ↦ (do
      next ← populate volume
      elim next [ none ↦ pure tt | some v ↦ reconcile_available v ])
  ]
