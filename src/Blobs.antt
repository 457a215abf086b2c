-- ===== src/Blobs.antt =====
-- internal/manager/common/blobs/blob_manager_thin.go: volumes and snapshots as thin LVs of a pool.
pub mod Create
pub mod Manager
pub mod Quiet
pub mod Removal
pub mod Sizes
pub mod Waiting
use kubesan.Prelude.{
  ℕ, String, List, [], ◌∷◌, ◌++◌, Option, none, some, Bool, true, false, not, ◌&&◌, ◌||◌, ◌==◌,
  string_eq, ltb, leb, min, length, nat_beq, if◌then◌else◌,
}
use kubesan.Api.{
  ObjectMeta, ThinPoolLv, ThinLvSpec, ThinLvStatus, ThinLvContents, ThinLvContentsType,
  ThinLvSpecStateName, ThinLvStatusStateName, find_thin_lv_spec, find_thin_lv_status,
  with_thin_lv_spec,
}
use kubesan.Exec.{
  Env, Err, not_found, already_exists, bad_request, watch_pending, Result, ok, err, Exec, pure,
  throw, lift, try, ask, ignore_not_found, get_pool, write_pool, delete_pool, create, ◌>>=◌, ◌>>◌,
}
use kubesan.ThinPool.{
  update_thin_pool_lv, volume_to_thin_lv_name, is_removed_spec, activate_thin_lv,
  deactivate_thin_lv,
}

-- `old` of the handlers, the copy with which `UpdateThinPoolLv` compares, and the pool itself
abbrev pub Copies : Type 0
Copies = Option ThinPoolLv × ThinPoolLv

abbrev pub with_thin_lvs : ThinPoolLv → List ThinLvSpec → ThinPoolLv
with_thin_lvs pool lvs = record pool { spec = record pool.spec { thin_lvs = lvs } }

abbrev pub new_thin_lv : String → String → ℕ → ThinLvContents → Bool → ThinLvSpec
new_thin_lv name binding size contents read_only = record {
  name = name;
  binding = binding;
  contents = contents;
  read_only = read_only;
  size_bytes = size;
  state = ThinLvSpecStateName.inactive;
}

unfoldable pub is_snapshot : ThinLvContentsType → Bool
is_snapshot ThinLvContentsType.snapshot = true
is_snapshot _ = false

-- thinLvStatus == nil || sizeBytes > thinLvStatus.SizeBytes
unfoldable pub is_larger : ℕ → Option ThinLvStatus → Bool
is_larger size none = true
is_larger size (some status) = ltb status.size_bytes size

-- what `createThinLv` changes in the pool, in which it has found `thinLvSpec`
unfoldable pub request_entry :
    ThinPoolLv → String → String → ℕ → ThinLvContents → Option ThinLvSpec → ThinPoolLv
unfolding is_snapshot is_larger
request_entry pool name binding size contents none = with_thin_lvs pool (
    pool.spec.thin_lvs
    ++ new_thin_lv name binding size contents (is_snapshot contents.contents_type) ∷ [])
request_entry pool name binding size contents (some lv) =
    if is_larger size (find_thin_lv_status pool name)
    then with_thin_lv_spec pool name (λ l. record l { size_bytes = size })
    else pool

unfoldable pub request_thin_lv : ThinPoolLv → String → String → ℕ → ThinLvContents → ThinPoolLv
unfolding request_entry
request_thin_lv pool name binding size contents =
    request_entry pool name binding size contents (find_thin_lv_spec pool name)

unfoldable pub create_thin_lv :
    Option ThinPoolLv → ThinPoolLv → String → String → ℕ → ThinLvContents → Exec Copies
unfolding request_thin_lv
create_thin_lv old pool name binding size contents =
    update_thin_pool_lv old (request_thin_lv pool name binding size contents)

unfoldable pub exists_with_size : Option ThinLvStatus → ℕ → Bool
exists_with_size none size = false
exists_with_size (some status) size = leb size status.size_bytes

unfoldable pub check_thin_lv_exists : ThinPoolLv → String → ℕ → Bool
unfolding exists_with_size
check_thin_lv_exists pool name size = exists_with_size (find_thin_lv_status pool name) size

unfoldable pub is_removed_status : ThinLvStatusStateName → Bool
is_removed_status ThinLvStatusStateName.removed = true
is_removed_status _ = false

unfoldable pub status_is_removed : Option ThinLvStatus → Bool
unfolding is_removed_status
status_is_removed none = true
status_is_removed (some status) = is_removed_status status.state.name

unfoldable pub check_thin_lv_removed : ThinPoolLv → String → Bool
unfolding status_is_removed
check_thin_lv_removed pool name = status_is_removed (find_thin_lv_status pool name)

unfoldable pub request_thin_lv_removal : Option ThinPoolLv → ThinPoolLv → String → Exec Copies
unfolding is_removed_spec pure
request_thin_lv_removal old pool name = elim (find_thin_lv_spec pool name) [
  | none ↦ pure (old, pool)
  | some lv ↦ update_thin_pool_lv old (
      if not (is_removed_spec lv.state)
      then with_thin_lv_spec pool name (λ l. record l { state = ThinLvSpecStateName.removed })
      else pool)
]

-- the loop of `forgetRemovedThinLv`: `none` is a name that is not found
unfoldable pub without_first : List ThinLvSpec → String → Option (List ThinLvSpec)
without_first [] name = none
without_first (lv ∷ lvs) name =
    let rest = without_first lvs name in
    if lv.name == name then some lvs else elim rest [ none ↦ none | some r ↦ some (lv ∷ r) ]

unfoldable pub forget_removed_thin_lv : ThinPoolLv → String → Exec ThinPoolLv
unfolding without_first pure ◌>>=◌
forget_removed_thin_lv pool name = elim (without_first pool.spec.thin_lvs name) [
  | none ↦ pure pool
  | some lvs ↦ (do updated ← update_thin_pool_lv none (with_thin_lvs pool lvs); pure updated.1)
]

-- len(thinPoolLv.Spec.ThinLvs) == 0 && thinPoolLv.DeletionTimestamp == nil
unfoldable pub is_deletable : ThinPoolLv → Bool
is_deletable pool =
    nat_beq (length pool.spec.thin_lvs) 0
    && elim pool.metadata.deletion_timestamp [ none ↦ true | some when ↦ false ]

-- the deletion of a pool without thin LVs; `false` is the early return behind `Delete`
unfoldable pub delete_if_empty : ThinPoolLv → Exec Bool
unfolding is_deletable pure lift try delete_pool ignore_not_found ◌>>=◌
delete_if_empty pool =
    if is_deletable pool
    then (do
      deleted ← try (delete_pool pool)
      elim deleted [ ok u ↦ pure true | err e ↦ lift (ignore_not_found e) >>= λ u. pure false ])
    else pure true

-- RemoveBlob, once the thin LV is gone from the status
unfoldable pub finish_removal : Option ThinPoolLv → ThinPoolLv → String → Exec (Unit {0})
unfolding delete_if_empty pure ask ◌>>=◌
finish_removal old pool owner = do
  env ← ask
  let disowned = record pool { metadata = env.remove_owner_reference owner pool.metadata }
  goes_on ← delete_if_empty disowned
  if goes_on then (update_thin_pool_lv old disowned >>= λ u. pure tt) else pure tt

-- RemoveBlob, on the pool that it has read
unfoldable pub remove_from_pool : ThinPoolLv → String → String → Exec (Unit {0})
unfolding request_thin_lv_removal check_thin_lv_removed forget_removed_thin_lv finish_removal throw
    ◌>>=◌
remove_from_pool pool name owner = do
  requested ← request_thin_lv_removal (some pool) pool name
  if not (check_thin_lv_removed requested.1 name)
      then throw (watch_pending "waiting for blob removal")
      else (do
        forgotten ← forget_removed_thin_lv requested.1 name
        elim (find_thin_lv_status forgotten name) [
          | some status ↦ throw (watch_pending "waiting for thinlv cleanup")
          | none ↦ finish_removal requested.0 forgotten owner
        ])

unfoldable pub remove_blob : String → String → String → Exec (Unit {0})
unfolding remove_from_pool lift try get_pool ignore_not_found ◌>>=◌
remove_blob pool_name name owner = do
  got ← try (get_pool pool_name)
  elim got [
    | err e ↦ lift (ignore_not_found e)
    | ok pool ↦ remove_from_pool pool (volume_to_thin_lv_name name) owner
  ]
