-- ===== src/NodePool.antt =====
-- internal/manager/node/thinpoollv_node_controller.go: what a node does for the thin pools.
pub mod ThinLvs
pub mod Exclusion
pub mod Removal
use Prim.Native.String.{◌++◌ as ◌<>◌}
use kubesan.Prelude.{
  ℕ, String, List, [], ◌∷◌, ◌++◌, Option, none, some, Bool, true, false, not, ◌&&◌, ◌||◌, ◌==◌,
  string_eq, ltb, length, nat_beq, if◌then◌else◌,
}
use kubesan.Prelude.Text.{contains_text, decimal}
use kubesan.Slices.{any}
use kubesan.Api.{
  ThinPoolLv, ThinLvSpec, ThinLvStatus, ThinLvSpecStateName, ThinLvStatusStateName,
  ThinLvContentsType, Condition, ConditionStatus, condition_true, condition_false, find_status,
  find_spec, find_thin_lv_spec, find_thin_lv_status, with_thin_lv_status, modify_status,
}
use kubesan.Exec.{
  Err, bad_request, Result, ok, err, Env, Exec, pure, throw, lift, ask, get_pool, write_pool,
  update_status, ◌>>=◌, ◌>>◌,
}
use kubesan.Commands.{
  Output, Outcome, must, lvm, lvm_lv_create_idempotent, lvm_lv_extend_idempotent,
  lvm_lv_remove_idempotent, lvm_size, path_exists_on_host,
}
use kubesan.Dm.{is_lvm_active}
use kubesan.ThinPool.{is_active_spec, is_removed_spec, is_active_status}

-- r.Status().Update with the generation noted; the answer overwrites the object
unfoldable pub status_update : ThinPoolLv → Exec ThinPoolLv
unfolding write_pool
status_update pool =
    write_pool update_status (record pool {
      status = record pool.status { observed_generation = pool.metadata.generation };
    })

unfoldable pub lv_path : ThinPoolLv → String → String
lv_path pool lv_name = pool.spec.vg_name <> ("/" <> lv_name)

unfoldable pub activate_args : ThinPoolLv → String → List String
unfolding lv_path
activate_args pool lv_name =
    "lvchange"
    ∷ "--devicesfile"
    ∷ pool.spec.vg_name
    ∷ "--activate"
    ∷ "ey"
    ∷ lv_path pool lv_name
    ∷ []

unfoldable pub deactivate_args : ThinPoolLv → String → List String
unfolding lv_path
deactivate_args pool lv_name =
    "lvchange"
    ∷ "--devicesfile"
    ∷ pool.spec.vg_name
    ∷ "--activate"
    ∷ "n"
    ∷ lv_path pool lv_name
    ∷ []

-- the pool itself is activated with monitoring
unfoldable pub activate_pool_args : ThinPoolLv → List String
unfolding lv_path
activate_pool_args pool =
    "lvchange"
    ∷ "--devicesfile"
    ∷ pool.spec.vg_name
    ∷ "--activate"
    ∷ "ey"
    ∷ "--monitor"
    ∷ "y"
    ∷ lv_path pool pool.metadata.name
    ∷ []

unfoldable pub active_condition : ConditionStatus → String → String → Condition
active_condition status reason message = record {
  type = "Active";
  status = status;
  reason = reason;
  message = message;
  last_transition_time = 0;
}

-- The status with the condition and the node set, if either is a change.
unfoldable pub note_active_on : ThinPoolLv → Condition → String → Exec ThinPoolLv
unfolding status_update ask ◌>>=◌
note_active_on pool condition node = do
  env ← ask
  let (conditions, changed) = env.set_status_condition pool.status.conditions condition
  let noted = record pool { status = record pool.status { conditions = conditions } }
  if changed || not (pool.status.active_on_node == node)
      then status_update (record noted { status = record noted.status { active_on_node = node } })
      else pure noted

unfoldable pub set_inactive : ThinLvStatus → ThinLvStatus
set_inactive lv = record lv {
  state = record { name = ThinLvStatusStateName.inactive; path = none };
}

-- an error is ignored if the LV is already gone
unfoldable pub check_unless_gone : Outcome → Exec (Unit {0})
unfolding throw pure
check_unless_gone (output, none) = pure tt
check_unless_gone (output, some e) =
    if contains_text output.combined "ailed to find" then pure tt else throw e

-- the loop over Status.ThinLvs[] that deactivates each: the entries with their new states
unfoldable pub deactivate_thin_lvs : ThinPoolLv → List ThinLvStatus → Exec (List ThinLvStatus)
unfolding pure ◌>>=◌
deactivate_thin_lvs pool [] = pure []
deactivate_thin_lvs pool (lv ∷ lvs) = do
  outcome ← lvm (deactivate_args pool lv.name)
  check_unless_gone outcome
  rest ← deactivate_thin_lvs pool lvs
  pure (set_inactive lv ∷ rest)

unfoldable pub should_be_active : String → ThinPoolLv → Bool
unfolding any is_active_spec
should_be_active local_node_name pool =
    pool.spec.active_on_node == local_node_name
    && any pool.spec.thin_lvs (λ spec. is_active_spec spec.state)

unfoldable pub in_charge : String → ThinPoolLv → Bool
in_charge local_node_name pool =
    pool.spec.active_on_node == local_node_name
    && (pool.status.active_on_node == "" || pool.status.active_on_node == local_node_name)
    && (no_deletion pool.metadata.deletion_timestamp || ltb 0 (length pool.spec.thin_lvs))
  where
    no_deletion : Option ℕ → Bool
    no_deletion none = true
    no_deletion (some when) = false

-- the branch that activates the pool
unfoldable pub activate_pool : ThinPoolLv → Bool → Exec ThinPoolLv
unfolding activate_pool_args active_condition note_active_on must lvm ask ◌>>=◌
activate_pool pool is_active = do
  env ← ask
  activated ← if is_active then pure tt else do must (lvm (activate_pool_args pool)); pure tt
  note_active_on pool (active_condition condition_true "Activated" "thin pool activated")
      env.local_node_name

-- the branch that deactivates the thin LVs and then the pool
unfoldable pub deactivate_pool : ThinPoolLv → Exec ThinPoolLv
unfolding deactivate_thin_lvs deactivate_args active_condition note_active_on must lvm ◌>>=◌
deactivate_pool pool = do
  thin_lvs ← deactivate_thin_lvs pool pool.status.thin_lvs
  must (lvm (deactivate_args pool pool.metadata.name))
  note_active_on (record pool { status = record pool.status { thin_lvs = thin_lvs } })
      (active_condition condition_false "Deactivated" "thin pool deactivated") ""

-- The pool, and whether this node goes on with the thin LVs.
unfoldable pub reconcile_thin_pool_lv_activation : ThinPoolLv → Exec (ThinPoolLv × Bool)
unfolding ask pure ◌>>=◌
reconcile_thin_pool_lv_activation pool = do
  env ← ask
  is_active ← is_lvm_active pool.spec.vg_name pool.metadata.name
  let local = env.local_node_name
  if should_be_active local pool
      then (if not (pool.status.active_on_node == "") && not (pool.status.active_on_node == local)
          then pure (pool, false)
          else (do pool' ← activate_pool pool is_active; pure (pool', in_charge local pool')))
      else (if is_active || pool.status.active_on_node == local
          then (do pool' ← deactivate_pool pool; pure (pool', in_charge local pool'))
          else pure (pool, in_charge local pool))
