-- ===== src/NodePool/ThinLvs.antt =====
-- internal/manager/node/thinpoollv_node_controller.go: the thin LVs of an active pool, and the
-- reconciler that ties the steps together. The loops read the pool that their own status updates
-- store, as the Go loops read it through the pointer.
use Prim.Native.String.{◌++◌ as ◌<>◌}
use kubesan.Prelude.{
  ℕ, zero, suc, String, List, [], ◌∷◌, ◌++◌, Option, none, some, Bool, true, false, not, ◌&&◌, ◌==◌,
  string_eq, ltb, length, if◌then◌else◌,
}
use kubesan.Prelude.Text.{decimal}
use kubesan.Slices.{get_elem?}
use kubesan.Api.{
  ThinPoolLv, ThinLvSpec, ThinLvStatus, ThinLvStatusStateName, ThinLvContentsType, find_spec,
  find_thin_lv_spec, find_thin_lv_status, with_thin_lv_status,
}
use kubesan.Exec.{
  bad_request, panicked, Result, ok, err, Exec, pure, throw, lift, ask, try, get_pool,
  ignore_not_found, ◌>>=◌, ◌>>◌,
}
use kubesan.Commands.{
  Output, must, lvm, lvm_lv_create_idempotent, lvm_lv_extend_idempotent, lvm_lv_remove_idempotent,
  lvm_size, path_exists_on_host,
}
use kubesan.ThinPool.{is_active_spec, is_removed_spec, is_active_status}
use kubesan.NodePool.{
  status_update, lv_path, activate_args, deactivate_args, set_inactive,
  reconcile_thin_pool_lv_activation,
}

-- the new entry of Status.ThinLvs[]
unfoldable pub created_entry : ThinLvSpec → ℕ → ThinLvStatus
created_entry lv size = record {
  name = lv.name;
  state = record { name = ThinLvStatusStateName.inactive; path = none };
  size_bytes = size;
}

create_empty : ThinPoolLv → ThinLvSpec → Exec (Unit {0})
unfolding lvm_lv_create_idempotent must lvm deactivate_args ◌>>=◌
create_empty pool lv = do
  must (
      lvm_lv_create_idempotent lv.binding (
        "--devicesfile"
        ∷ pool.spec.vg_name
        ∷ "--type"
        ∷ "thin"
        ∷ "--name"
        ∷ lv.name
        ∷ "--thinpool"
        ∷ pool.metadata.name
        ∷ "--virtualsize"
        ∷ (decimal lv.size_bytes <> "b")
        ∷ pool.spec.vg_name
        ∷ []))
  must (lvm (deactivate_args pool lv.name))
  pure tt

create_snapshot : ThinPoolLv → ThinLvSpec → String → Exec (Unit {0})
unfolding lvm_lv_create_idempotent must lv_path ◌>>=◌
create_snapshot pool lv source = do
  must (
      lvm_lv_create_idempotent lv.binding (
        "--devicesfile"
        ∷ pool.spec.vg_name
        ∷ "--name"
        ∷ lv.name
        ∷ "--snapshot"
        ∷ "--setactivationskip"
        ∷ "n"
        ∷ "--permission"
        ∷ "r"
        ∷ lv_path pool source
        ∷ []))
  pure tt

-- What is behind the switch of `createThinLv`: the status with the new entry.
note_created : ThinPoolLv → ThinLvSpec → Exec ThinPoolLv
unfolding lvm_size created_entry status_update ◌>>=◌
note_created pool lv = do
  size ← lvm_size pool.spec.vg_name lv.name
  status_update (record pool {
    status = record pool.status { thin_lvs = pool.status.thin_lvs ++ created_entry lv size ∷ [] };
  })

-- a snapshot waits until its source exists
create_from : ThinPoolLv → ThinLvSpec → Option String → Exec ThinPoolLv
unfolding create_snapshot note_created ◌>>=◌
create_from pool lv none = pure pool
create_from pool lv (some source) = elim (find_thin_lv_status pool source) [
  | none ↦ pure pool
  | some status ↦ (do create_snapshot pool lv source; note_created pool lv)
]

unfoldable pub create_thin_lv : ThinPoolLv → ThinLvSpec → Exec ThinPoolLv
unfolding create_empty create_from note_created ◌>>=◌
create_thin_lv pool lv = elim lv.contents.contents_type [
  | ThinLvContentsType.empty ↦ (do create_empty pool lv; note_created pool lv)
  | ThinLvContentsType.snapshot ↦ create_from pool lv lv.contents.source_thin_lv_name
  | ThinLvContentsType.other ↦ pure pool
]

unfoldable pub expand_thin_lv : ThinPoolLv → ThinLvSpec → Exec ThinPoolLv
unfolding lvm_lv_extend_idempotent must lv_path lvm_size status_update ◌>>=◌
expand_thin_lv pool lv = do
  must (
      lvm_lv_extend_idempotent (
        "--devicesfile"
        ∷ pool.spec.vg_name
        ∷ "--size"
        ∷ (decimal lv.size_bytes <> "b")
        ∷ lv_path pool lv.name
        ∷ []))
  size ← lvm_size pool.spec.vg_name lv.name
  status_update (with_thin_lv_status pool lv.name (λ s. record s { size_bytes = size }))

-- one round of `reconcileThinLvCreation`
unfoldable pub create_or_expand : ThinPoolLv → ThinLvSpec → Option ThinLvStatus → Exec ThinPoolLv
unfolding create_thin_lv expand_thin_lv is_removed_spec
create_or_expand pool lv none =
    if is_removed_spec lv.state then pure pool else create_thin_lv pool lv
create_or_expand pool lv (some status) =
    if is_removed_spec lv.state
    then pure pool
    else if ltb status.size_bytes lv.size_bytes && not lv.read_only
    then expand_thin_lv pool lv
    else pure pool

-- `range` evaluates the length of Spec.ThinLvs[] once, but the entries are read from the pool as it
-- then is: if an update has brought a shorter list, the index is out of range.
reconcile_creation_loop : ℕ → ℕ → ThinPoolLv → Exec ThinPoolLv
unfolding create_or_expand throw ◌>>=◌
reconcile_creation_loop zero i pool = pure pool
reconcile_creation_loop (suc rounds) i pool = elim (get_elem? pool.spec.thin_lvs i) [
  | none ↦ throw panicked
  | some lv ↦ (do
    pool' ← create_or_expand pool lv (find_thin_lv_status pool lv.name)
    reconcile_creation_loop rounds (suc i) pool')
]

unfoldable pub reconcile_thin_lv_creation : ThinPoolLv → Exec ThinPoolLv
unfolding reconcile_creation_loop
reconcile_thin_lv_creation pool = reconcile_creation_loop (length pool.spec.thin_lvs) 0 pool

is_wanted : Option ThinLvSpec → Bool
unfolding is_active_spec
is_wanted none = false
is_wanted (some lv) = is_active_spec lv.state

set_active : String → ThinLvStatus → ThinLvStatus
set_active path lv = record lv {
  state = record { name = ThinLvStatusStateName.active; path = some path };
}

-- one round of `reconcileThinLvActivations`
unfoldable pub reconcile_thin_lv_activation : ThinPoolLv → ThinLvStatus → Exec ThinPoolLv
unfolding is_wanted set_active set_inactive is_active_status path_exists_on_host activate_args
    deactivate_args must lvm status_update ◌>>=◌
reconcile_thin_lv_activation pool status = do
  let wanted = is_wanted (find_thin_lv_spec pool status.name)
  let noted = is_active_status status.state.name
  let path = "/dev/" <> (pool.spec.vg_name <> ("/" <> status.name))
  found ← path_exists_on_host path
  if wanted
      then (do
        if found then pure tt else (do must (lvm (activate_args pool status.name)); pure tt)
        if noted
            then pure pool
            else status_update (with_thin_lv_status pool status.name (set_active path)))
      else (do
        if found then (do must (lvm (deactivate_args pool status.name)); pure tt) else pure tt
        if noted
            then status_update (with_thin_lv_status pool status.name set_inactive)
            else pure pool)

-- the same over Status.ThinLvs[]
reconcile_activations_loop : ℕ → ℕ → ThinPoolLv → Exec ThinPoolLv
unfolding reconcile_thin_lv_activation throw ◌>>=◌
reconcile_activations_loop zero i pool = pure pool
reconcile_activations_loop (suc rounds) i pool = elim (get_elem? pool.status.thin_lvs i) [
  | none ↦ throw panicked
  | some status ↦ (do
    pool' ← reconcile_thin_lv_activation pool status
    reconcile_activations_loop rounds (suc i) pool')
]

unfoldable pub reconcile_thin_lv_activations : ThinPoolLv → Exec ThinPoolLv
unfolding reconcile_activations_loop
reconcile_thin_lv_activations pool = reconcile_activations_loop (length pool.status.thin_lvs) 0 pool

unfoldable pub remove_thin_lv : ThinPoolLv → String → Exec Output
unfolding lvm_lv_remove_idempotent must lv_path
remove_thin_lv pool name =
    must (lvm_lv_remove_idempotent ("--devicesfile" ∷ pool.spec.vg_name ∷ lv_path pool name ∷ []))

-- the first loop of `reconcileThinLvDeletion`: whether there was anything to remove
unfoldable pub remove_loop : ThinPoolLv → List ThinLvSpec → Bool → Exec Bool
unfolding pure ◌>>=◌
remove_loop pool [] need_update = pure need_update
remove_loop pool (lv ∷ lvs) need_update =
    if not (is_removed_spec lv.state)
    then remove_loop pool lvs need_update
    else (do remove_thin_lv pool lv.name; remove_loop pool lvs true)

missing_message : String → String
missing_message name =
    "spec for volume \"" <> (name <> "\" went missing without requesting state Removed")

-- the second loop: the entries of Status.ThinLvs[] that stay
unfoldable pub kept_entries :
    List ThinLvSpec → List ThinLvStatus → List ThinLvStatus → Result (List ThinLvStatus)
unfolding missing_message
kept_entries specs [] new = ok new
kept_entries specs (status ∷ statuses) new =
    let skipped = kept_entries specs statuses new in
    let added = kept_entries specs statuses (new ++ status ∷ []) in
    elim (find_spec specs status.name) [
      | none ↦ err (bad_request (missing_message status.name))
      | some lv ↦ if not (is_removed_spec lv.state) then added else skipped
    ]

unfoldable pub reconcile_thin_lv_deletion : ThinPoolLv → Exec ThinPoolLv
unfolding lift pure ◌>>=◌
reconcile_thin_lv_deletion pool = do
  need_update ← remove_loop pool pool.spec.thin_lvs false
  if not need_update then pure pool else do
    thin_lvs ← lift (kept_entries pool.spec.thin_lvs pool.status.thin_lvs [])
    status_update (record pool { status = record pool.status { thin_lvs = thin_lvs } })

creation_unless_deleting : ThinPoolLv → Option ℕ → Exec ThinPoolLv
unfolding reconcile_thin_lv_creation pure
creation_unless_deleting pool none = reconcile_thin_lv_creation pool
creation_unless_deleting pool (some when) = pure pool

-- what `Reconcile` does with the pool that it has read
unfoldable pub reconcile_pool : ThinPoolLv → Exec (Unit {0})
unfolding creation_unless_deleting ask pure ◌>>=◌
reconcile_pool pool = do
  env ← ask
  if not (env.is_status_condition_true pool.status.conditions "Available") then pure tt else do
    (pool₁, in_charge) ← reconcile_thin_pool_lv_activation pool
    if not in_charge then pure tt else do
      pool₂ ← creation_unless_deleting pool₁ pool₁.metadata.deletion_timestamp
      pool₃ ← reconcile_thin_lv_activations pool₂
      pool₄ ← reconcile_thin_lv_deletion pool₃
      if pool₄.status.active_on_node == ""
          then (do must (lvm (deactivate_args pool₄ pool₄.metadata.name)); pure tt)
          else pure tt

unfoldable pub reconcile : String → Exec (Unit {0})
unfolding reconcile_pool ignore_not_found try get_pool lift ◌>>=◌
reconcile name = do
  read ← try (get_pool name)
  elim read [ ok pool ↦ reconcile_pool pool | err e ↦ lift (ignore_not_found e) ]
