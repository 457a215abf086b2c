-- ===== src/ThinPool.antt =====
-- internal/manager/common/thinpoollv/thinpoollv.go: which node a thin pool should be active on, and
-- the requests to activate a thin LV.
pub mod Activation
pub mod Nodes
pub mod Requests
pub mod Entries
use Prim.Native.String.{◌++◌ as ◌<>◌}
use kubesan.Prelude.{
  ℕ, String, List, [], ◌∷◌, ◌++◌, Option, none, some, Bool, true, false, not, ◌&&◌, ◌||◌, ◌==◌,
  string_eq, ltb, if◌then◌else◌, map,
}
use kubesan.Prelude.Text.{contains_text}
use kubesan.Api
use kubesan.Api.{
  ThinPoolLv, ThinLvSpec, ThinLvStatus, ThinLvSpecStateName, ThinLvStatusStateName, find_status,
  find_thin_lv_spec, find_thin_lv_status, with_thin_lv_spec, ThinPoolLv-discrete,
}
use kubesan.Exec.{
  Err, bad_request, watch_pending, Result, ok, err, Exec, pure, throw, lift, ask, write_pool,
  update, ◌>>=◌, ◌>>◌,
}

abbrev pub volume_to_thin_lv_name : String → String
volume_to_thin_lv_name volume_name = "thin-" <> volume_name

-- `none` is the empty string, the state of no thin LV
unfoldable pub spec_state_to_status_state : ThinLvSpecStateName → Option ThinLvStatusStateName
spec_state_to_status_state ThinLvSpecStateName.inactive = some ThinLvStatusStateName.inactive
spec_state_to_status_state ThinLvSpecStateName.active = some ThinLvStatusStateName.active
spec_state_to_status_state ThinLvSpecStateName.removed = none

unfoldable pub is_active_spec : ThinLvSpecStateName → Bool
is_active_spec ThinLvSpecStateName.active = true
is_active_spec _ = false

unfoldable pub is_removed_spec : ThinLvSpecStateName → Bool
is_removed_spec ThinLvSpecStateName.removed = true
is_removed_spec _ = false

unfoldable pub is_active_status : ThinLvStatusStateName → Bool
is_active_status ThinLvStatusStateName.active = true
is_active_status _ = false

-- specStateToStatusState(spec) != status
unfoldable pub in_transition : ThinLvSpecStateName → ThinLvStatusStateName → Bool
in_transition ThinLvSpecStateName.inactive ThinLvStatusStateName.inactive = false
in_transition ThinLvSpecStateName.active ThinLvStatusStateName.active = false
in_transition _ _ = true

-- one round of the loop of `thinPoolLvNeedsActivation`: `none` is `continue`
unfoldable pub needs_activation_round :
    Option ℕ → ThinLvSpec → Option ThinLvStatus → Option (Result Bool)
unfolding is_removed_spec is_active_spec in_transition
needs_activation_round deletion lv none = if is_removed_spec lv.state then none else elim deletion [
  | some when ↦ some (err (bad_request "cannot create a new ThinLV in a pool marked for deletion"))
  | none ↦ some (ok true)
]
needs_activation_round deletion lv (some status) =
    if in_transition lv.state status.state.name
    then some (ok true)
    else if is_active_spec lv.state
    then some (ok true)
    else if ltb status.size_bytes lv.size_bytes && not lv.read_only
    then some (ok true)
    else none

unfoldable pub needs_activation_loop : Option ℕ → List ThinLvSpec → List ThinLvStatus → Result Bool
unfolding needs_activation_round
needs_activation_loop deletion [] statuses = ok false
needs_activation_loop deletion (lv ∷ lvs) statuses =
    let rest = needs_activation_loop deletion lvs statuses in
    elim (needs_activation_round deletion lv (find_status statuses lv.name)) [
      | none ↦ rest
      | some r ↦ r
    ]

unfoldable pub thin_pool_lv_needs_activation : ThinPoolLv → Result Bool
unfolding needs_activation_loop
thin_pool_lv_needs_activation pool =
    needs_activation_loop pool.metadata.deletion_timestamp pool.spec.thin_lvs pool.status.thin_lvs

abbrev pub with_active_on_node : ThinPoolLv → String → ThinPoolLv
with_active_on_node pool node = record pool { spec = record pool.spec { active_on_node = node } }

-- the two assignments of `recalcActiveOnNode`
unfoldable pub assign_active_on_node : String → Bool → ThinPoolLv → ThinPoolLv
assign_active_on_node local_node_name true pool =
    if pool.spec.active_on_node == "" then with_active_on_node pool local_node_name else pool
assign_active_on_node local_node_name false pool =
    if not (pool.spec.active_on_node == "") then with_active_on_node pool "" else pool

unfoldable pub recalc_active_on_node : String → ThinPoolLv → Result ThinPoolLv
unfolding assign_active_on_node
recalc_active_on_node local_node_name pool = elim (thin_pool_lv_needs_activation pool) [
  | ok needs ↦ ok (assign_active_on_node local_node_name needs pool)
  | err e ↦ err e
]

-- reflect.DeepEqual(oldThinPoolLv, thinPoolLv)
unfoldable pub deep_equal : Option ThinPoolLv → ThinPoolLv → Bool
deep_equal none pool = false
deep_equal (some old) pool = elim (ThinPoolLv-discrete old pool) [ yes p ↦ true | no p ↦ false ]

-- `UpdateThinPoolLv` changes both of its objects: it returns the old one, if there is one, and the new
-- one. The API server's answer overwrites the new object, and the old one becomes a copy of it.
unfoldable pub update_thin_pool_lv :
    Option ThinPoolLv → ThinPoolLv → Exec (Option ThinPoolLv × ThinPoolLv)
unfolding recalc_active_on_node deep_equal ask lift pure write_pool ◌>>=◌
update_thin_pool_lv old pool = do
  env ← ask
  recalculated ← lift (recalc_active_on_node env.local_node_name pool)
  if deep_equal old recalculated then pure (old, recalculated) else do
    stored ← write_pool update recalculated
    pure (elim old [ none ↦ none | some o ↦ some stored ], stored)

not_found_message : String → String
not_found_message thin_lv_name = "thinLv \"" <> (thin_lv_name <> "\" not found")

unexpected_state_message : String → String
unexpected_state_message thin_lv_name = "unexpected state for thinLv \"" <> (thin_lv_name <> "\"")

-- the switch of `ActivateThinLv`: the pool with the thin LV requested
pub request_active : ThinPoolLv → String → Option ThinLvSpec → Result ThinPoolLv
unfolding not_found_message unexpected_state_message
request_active pool name none = err (bad_request (not_found_message name))
request_active pool name (some lv) = elim lv.state [
  | ThinLvSpecStateName.inactive ↦
      ok (with_thin_lv_spec pool name (λ l. record l { state = ThinLvSpecStateName.active }))
  | ThinLvSpecStateName.active ↦ ok pool
  | ThinLvSpecStateName.removed ↦ err (bad_request (unexpected_state_message name))
]

unfoldable pub status_is_active : Option ThinLvStatus → Bool
unfolding is_active_status
status_is_active none = false
status_is_active (some status) = is_active_status status.state.name

unfoldable pub activate_thin_lv :
    Option ThinPoolLv → ThinPoolLv → String → Exec (Option ThinPoolLv × ThinPoolLv)
unfolding request_active status_is_active lift pure throw ◌>>=◌
activate_thin_lv old pool name = do
  let thin_lv_name = volume_to_thin_lv_name name
  requested ← lift (request_active pool thin_lv_name (find_thin_lv_spec pool thin_lv_name))
  updated ← update_thin_pool_lv old requested
  if status_is_active (find_thin_lv_status updated.1 thin_lv_name)
      then pure updated
      else throw (watch_pending "waiting for ThinLv activation")

-- the switch of `DeactivateThinLv`
pub request_inactive : ThinPoolLv → String → Option ThinLvSpec → Result ThinPoolLv
unfolding not_found_message
request_inactive pool name none = err (bad_request (not_found_message name))
request_inactive pool name (some lv) = elim lv.state [
  | ThinLvSpecStateName.inactive ↦ ok pool
  | ThinLvSpecStateName.active ↦
      ok (with_thin_lv_spec pool name (λ l. record l { state = ThinLvSpecStateName.inactive }))
  | ThinLvSpecStateName.removed ↦ ok pool
]

unfoldable pub deactivate_thin_lv :
    Option ThinPoolLv → ThinPoolLv → String → Exec (Option ThinPoolLv × ThinPoolLv)
unfolding request_inactive status_is_active lift pure throw ◌>>=◌
deactivate_thin_lv old pool name = do
  let thin_lv_name = volume_to_thin_lv_name name
  requested ← lift (request_inactive pool thin_lv_name (find_thin_lv_spec pool thin_lv_name))
  updated ← update_thin_pool_lv old requested
  if status_is_active (find_thin_lv_status updated.1 thin_lv_name)
      then throw (watch_pending "waiting for ThinLv deactivation")
      else pure updated

-- slices.DeleteFunc: the kept members move to the front of the array, and what is left behind them is
-- cleared. The result is the front; the list of the caller is the whole array.
unfoldable pub kept : (String → Bool) → List String → List String
kept delete [] = []
kept delete (x ∷ xs) = if delete x then kept delete xs else x ∷ kept delete xs

unfoldable pub cleared : (String → Bool) → List String → List String
cleared delete [] = []
cleared delete (x ∷ xs) = if delete x then "" ∷ cleared delete xs else cleared delete xs

unfoldable pub is_active_clone : ThinLvSpec → Bool
unfolding is_active_spec
is_active_clone lv = contains_text lv.name "clone-" && is_active_spec lv.state

unfoldable pub has_active_clone : List ThinLvSpec → Bool
unfolding is_active_clone
has_active_clone [] = false
has_active_clone (lv ∷ lvs) = is_active_clone lv || has_active_clone lvs

-- `InterestedNodes`: its result, and `attachList` as the caller finds it afterwards.
unfoldable pub interested_nodes : ThinPoolLv → List String → List String × List String
unfolding kept cleared has_active_clone
interested_nodes pool attach_list =
    let node = pool.spec.active_on_node in
    let delete = λ (n : String). n == node in
    if not (node == "") && has_active_clone pool.spec.thin_lvs
    then (node ∷ kept delete attach_list, kept delete attach_list ++ cleared delete attach_list)
    else (attach_list, attach_list)
