-- ===== src/VolumeNode/Population.antt =====
-- internal/manager/node/volume_node_controller.go: filling a new volume from its source, and wiping
-- what a linear volume holds of the disk's earlier use.
use Prim.Native.String.{◌++◌ as ◌<>◌}
use kubesan.Prelude.{
  ℕ, zero, String, [], ◌∷◌, Option, none, some, Bool, true, false, not, ◌&&◌, string_eq,
  if◌then◌else◌,
}
use kubesan.Prelude.Int.{ℤ, pos, ltb_ℤ}
use kubesan.Api.{Volume, VolumeContentsType, VolumeWipePolicy}
use kubesan.Exec.{
  Env, bad_request, ok, err, Exec, Work, dd, blkdiscard, pure, throw, try, ask, ◌>>=◌, ◌>>◌,
}
use kubesan.Commands.{must, run_on_host, lvm, lvm_size, path_exists_on_host}
use kubesan.Commands.Counter.{decimal_int, lvm_lv_get_counter, lvm_lv_update_counter_if_lower}
use kubesan.ThinPool.{volume_to_thin_lv_name}
use kubesan.VolumeNode.{dev_name}
use kubesan.Workers

-- an error of the look-up counts as "not there"
unfoldable pub path_exists : String → Exec Bool
unfolding path_exists_on_host try pure ◌>>=◌
path_exists path = do
  found ← try (path_exists_on_host path)
  elim found [ ok b ↦ pure b | err e ↦ pure false ]

-- `Run` of `ddWork`
run_dd : String → String → Exec (Unit {0})
unfolding must run_on_host pure ◌>>=◌
run_dd target_path source_path = do
  must (
      run_on_host (
        "dd"
        ∷ ("if=" <> source_path)
        ∷ ("of=" <> target_path)
        ∷ "bs=1M"
        ∷ "conv=fsync,nocreat,sparse"
        ∷ []))
  pure tt

-- `Run` of `blkdiscardWork`
run_blkdiscard : String → String → Exec (Unit {0})
unfolding must run_on_host pure ◌>>=◌
run_blkdiscard device offset = do
  must (run_on_host ("blkdiscard" ∷ "--zeroout" ∷ "--offset" ∷ offset ∷ device ∷ []))
  pure tt

-- what the goroutine of a worker executes
unfoldable pub run_work : Work → Exec (Unit {0})
unfolding run_dd run_blkdiscard
run_work (dd target_path source_path) = run_dd target_path source_path
run_work (blkdiscard device offset) = run_blkdiscard device offset

abbrev pub source_lv : Volume → String
source_lv volume = volume_to_thin_lv_name ("clone-" <> volume.metadata.name)

abbrev pub source_path : Volume → String
source_path volume = "/dev/" <> (volume.spec.vg_name <> ("/" <> source_lv volume))

abbrev pub dd_name : Volume → String
dd_name volume = "dd-" <> volume.metadata.name

-- the copy, and the size of the source
unfoldable pub copy_source : Volume → String → Exec ℕ
unfolding path_exists lvm_size Workers.run throw ◌>>=◌
copy_source volume target_path = do
  source ← path_exists (source_path volume)
  if not source then throw (bad_request "unexpected missing source mount") else (do
    target ← path_exists target_path
    if not target then throw (bad_request "unexpected missing destination mount") else (do
      Workers.run (dd_name volume) (dd target_path (source_path volume))
      lvm_size volume.spec.vg_name (source_lv volume)))

-- a copy is canceled if the volume is being deleted
unfoldable pub copy_or_cancel : Volume → String → Option ℕ → Exec ℕ
unfolding copy_source Workers.cancel pure ◌>>=◌
copy_or_cancel volume target_path none = copy_source volume target_path
copy_or_cancel volume target_path (some when) = do Workers.cancel (dd_name volume); pure 0

unfoldable pub is_empty_contents : VolumeContentsType → Bool
is_empty_contents VolumeContentsType.empty = true
is_empty_contents _ = false

unfoldable pub reconcile_source_populating : Volume → String → Exec ℕ
unfolding copy_or_cancel is_empty_contents throw
reconcile_source_populating volume target_path =
    if is_empty_contents volume.spec.contents.contents_type
    then throw (bad_request "unexpected empty source")
    else copy_or_cancel volume target_path volume.metadata.deletion_timestamp

unfoldable pub reconcile_thin_populating : Volume → Exec (Unit {0})
unfolding reconcile_source_populating pure ◌>>=◌
reconcile_thin_populating volume = do reconcile_source_populating volume (dev_name volume); pure tt

abbrev pub linear_path : Volume → String
linear_path volume = "/dev/" <> (volume.spec.vg_name <> ("/" <> volume.metadata.name))

abbrev pub linear_lv : Volume → String
linear_lv volume = volume.spec.vg_name <> ("/" <> volume.metadata.name)

-- `lvchange --activate` with "ey", "sy" or "n"
unfoldable pub change_activation : Volume → String → Exec (Unit {0})
unfolding must lvm pure ◌>>=◌
change_activation volume mode = do
  must (
      lvm (
        "lvchange"
        ∷ "--devicesfile"
        ∷ volume.spec.vg_name
        ∷ "--activate"
        ∷ mode
        ∷ linear_lv volume
        ∷ []))
  pure tt

abbrev pub safe_offset_key : Env → String
safe_offset_key env = env.domain <> "/safe-offset"

-- the counter of what may be shown to the user
unfoldable pub note_safe : Volume → ℕ → Exec (Unit {0})
unfolding lvm_lv_update_counter_if_lower ask pure ◌>>=◌
note_safe volume size = do
  env ← ask
  lvm_lv_update_counter_if_lower volume.spec.vg_name volume.metadata.name (safe_offset_key env)
      (pos size)
  pure tt

unfoldable pub is_zero : ℤ → Bool
is_zero (pos zero) = true
is_zero _ = false

-- the data of the source, unless the volume has some
unfoldable pub populate_linear : Volume → ℤ → Exec ℤ
unfolding reconcile_source_populating note_safe is_empty_contents is_zero pure ◌>>=◌
populate_linear volume offset =
    if not (is_empty_contents volume.spec.contents.contents_type) && is_zero offset
    then (do
      size ← reconcile_source_populating volume (linear_path volume)
      note_safe volume size
      pure (pos size))
    else pure offset

abbrev pub blkdiscard_work_name : Volume → String
blkdiscard_work_name volume =
    "blkdiscard/" <> (volume.spec.vg_name <> ("/" <> volume.metadata.name))

unfoldable pub is_unsafe_fast : VolumeWipePolicy → Bool
is_unsafe_fast VolumeWipePolicy.unsafe_fast = true
is_unsafe_fast VolumeWipePolicy.full = false

-- what lies behind the offset is zeroed, unless the policy says otherwise
unfoldable pub wipe_rest : Volume → ℤ → ℕ → Exec (Unit {0})
unfolding is_unsafe_fast Workers.run pure
wipe_rest volume offset size =
    if ltb_ℤ offset (pos size) && not (is_unsafe_fast volume.spec.wipe_policy)
    then Workers.run (blkdiscard_work_name volume)
        (blkdiscard (linear_path volume) (decimal_int offset))
    else pure tt

unfoldable pub wipe_block : Volume → ℤ → Option (Unit {0}) → Exec (Unit {0})
unfolding wipe_rest note_safe lvm_size pure ◌>>=◌
wipe_block volume offset none = pure tt
wipe_block volume offset (some block) = do
  size ← lvm_size volume.spec.vg_name volume.metadata.name
  wipe_rest volume offset size
  note_safe volume size

unfoldable pub wipe_or_cancel : Volume → ℤ → Option ℕ → Exec (Unit {0})
unfolding wipe_block Workers.cancel
wipe_or_cancel volume offset none = wipe_block volume offset volume.spec.type.block
wipe_or_cancel volume offset (some when) = Workers.cancel (blkdiscard_work_name volume)

unfoldable pub reconcile_linear_populating : Volume → Exec (Unit {0})
unfolding change_activation populate_linear wipe_or_cancel lvm_lv_get_counter ask ◌>>=◌
reconcile_linear_populating volume = do
  env ← ask
  change_activation volume "ey"
  offset ← lvm_lv_get_counter volume.spec.vg_name volume.metadata.name (safe_offset_key env)
  offset' ← populate_linear volume offset
  wipe_or_cancel volume offset' volume.metadata.deletion_timestamp
  change_activation volume "n"
