-- ===== src/Blobs/Removal.antt =====
-- Removing a blob: what the pool still says of the thin LV when a call is made.
use kubesan.Prelude.{
  ℕ, String, List, [], ◌∷◌, Option, none, some, Bool, true, false, not, ◌&&◌, ◌≡◌, refl, ◌≢◌, ◌⊎◌,
  ◌∙◌, inl, inr, sym, string_eq, arith, nat_beq, length, Bool-cases, if◌then◌else◌,
}
use kubesan.Api.{
  ThinPoolLv, ThinLvSpec, ThinLvStatus, ThinLvSpecStateName, ThinLvStatusStateName,
  find_thin_lv_spec, find_thin_lv_status, with_thin_lv_spec,
}
use kubesan.Exec.{
  Env, Result, ok, Trace, wrote_pool, deleted_pool, update, pure, get_pool, delete_pool,
  ignore_not_found, ◌>>=◌,
}
use kubesan.Exec.Rules.{
  Keeps, Keeps-bind, Keeps-pure, Keeps-throw, Keeps-lift, Keeps-try, Keeps-if, Keeps-elim_option,
  Keeps-elim_result,
}
use kubesan.ThinPool.{
  volume_to_thin_lv_name, update_thin_pool_lv, deep_equal, recalc_active_on_node,
}
use kubesan.ThinPool.Activation.{recalc-thin_lvs, recalc-status}
use kubesan.ThinPool.Entries.{find_spec-modify}
use kubesan.ThinPool.Requests.{update_thin_pool_lv_lem}
use kubesan.Blobs.{
  status_is_removed, is_removed_status, is_deletable, check_thin_lv_removed,
  request_thin_lv_removal, without_first, with_thin_lvs, forget_removed_thin_lv, delete_if_empty,
  finish_removal, remove_from_pool, remove_blob,
}

-- the status has no entry of the thin LV, or one that says that it is removed
abbrev pub IsGone : String → ThinPoolLv → Type 0
IsGone name pool =
    (status : ThinLvStatus)
    → find_thin_lv_status pool name ≡ some status
    → status.state.name ≡ ThinLvStatusStateName.removed

-- the spec still lists the thin LV, unless it is gone
abbrev pub IsRemembered : String → ThinPoolLv → Type 0
IsRemembered name pool = (find_thin_lv_spec pool name ≢ none) ⊎ IsGone name pool

abbrev IsEmpty : ThinPoolLv → Type 0
IsEmpty pool = (pool.spec.thin_lvs ≡ []) × (pool.metadata.deletion_timestamp ≡ none)

-- Each pool that is written remembers the thin LV, and each pool that is deleted has no thin LV in its
-- spec and is not being deleted already.
abbrev pub IsCareful : String → Trace → Type 0
IsCareful name [] = Unit
IsCareful name (wrote_pool verb pool r ∷ t) = IsRemembered name pool × IsCareful name t
IsCareful name (deleted_pool pool r ∷ t) = IsEmpty pool × IsCareful name t
IsCareful name (_ ∷ t) = IsCareful name t

recalc-IsRemembered :
    (node name : String) (pool pool' : ThinPoolLv)
    → recalc_active_on_node node pool ≡ ok pool'
    → IsRemembered name pool
    → IsRemembered name pool'
recalc-IsRemembered node name pool pool' e (inl listed) =
    inl (rw (recalc-thin_lvs node pool pool' e) listed)
recalc-IsRemembered node name pool pool' e (inr gone) =
    inr (rw (recalc-status node pool pool' e) gone)

written-IsCareful :
    (name : String) (old : Option ThinPoolLv) (pool : ThinPoolLv) (r : Result ThinPoolLv)
    (t : Trace)
    → IsRemembered name pool
    → IsCareful name t
    → IsCareful name (if deep_equal old pool then t else wrote_pool update pool r ∷ t)
written-IsCareful name old pool r t remembered h = elim (Bool-cases (deep_equal old pool)) [
  | inl same ↦ rw same h
  | inr changed ↦ rw changed (remembered, h)
]

abbrev mark_removed : ThinLvSpec → ThinLvSpec
mark_removed l = record l { state = ThinLvSpecStateName.removed }

some≢none : (lv : ThinLvSpec) → ◌≢◌ {A = Option ThinLvSpec} (some lv) none
some≢none lv h = cc

listed-IsRemembered :
    (name : String) (pool : ThinPoolLv) (lv : ThinLvSpec)
    → find_thin_lv_spec pool name ≡ some lv
    → IsRemembered name pool
listed-IsRemembered name pool lv found = inl (λ h. some≢none lv (sym found ∙ h))

requested-IsRemembered :
    (name : String) (pool : ThinPoolLv) (lv : ThinLvSpec) (listed : Bool)
    → find_thin_lv_spec pool name ≡ some lv
    → IsRemembered name (if listed then with_thin_lv_spec pool name mark_removed else pool)
requested-IsRemembered name pool lv false found = listed-IsRemembered name pool lv found
requested-IsRemembered name pool lv true found =
    listed-IsRemembered name (with_thin_lv_spec pool name mark_removed) (mark_removed lv)
      (find_spec-modify pool.spec.thin_lvs name mark_removed lv (λ l. refl) found)

status_is_removed_iff :
    (status : ThinLvStatus)
    → status_is_removed (some status) ≡ true
    → status.state.name ≡ ThinLvStatusStateName.removed
unfolding status_is_removed is_removed_status
status_is_removed_iff status h = ground arith

check-IsGone :
    (name : String) (pool : ThinPoolLv) → check_thin_lv_removed pool name ≡ true → IsGone name pool
unfolding check_thin_lv_removed
check-IsGone name pool h status found = status_is_removed_iff status (rw found at h)

absent-IsGone :
    (name : String) (pool : ThinPoolLv) → find_thin_lv_status pool name ≡ none → IsGone name pool
absent-IsGone name pool absent status found = cc

is_deletable-IsEmpty : (pool : ThinPoolLv) → is_deletable pool ≡ true → IsEmpty pool
unfolding is_deletable
is_deletable-IsEmpty pool h = empty pool.spec.thin_lvs pool.metadata.deletion_timestamp h
  where
    empty :
        (lvs : List ThinLvSpec) (deletion : Option ℕ)
        → (nat_beq (length lvs) 0 && elim deletion [ none ↦ true | some when ↦ false ]) ≡ true
        → (lvs ≡ []) × (deletion ≡ none)
    empty [] none h = (refl, refl)
    empty [] (some when) h = ground arith
    empty (lv ∷ lvs) deletion h = ground arith

true_of_not : (b : Bool) → not b ≡ false → b ≡ true
true_of_not true h = refl
true_of_not false h = sym h

module _ {env : Env} (name : String) where
  update-IsCareful :
      (old : Option ThinPoolLv) (pool : ThinPoolLv)
      → IsRemembered name pool
      → Keeps env (IsCareful name) (update_thin_pool_lv old pool)
  update-IsCareful old pool remembered = record {
    at = λ t h. elim (update_thin_pool_lv_lem old pool env t) [
      | inl (e, failed, same) ↦ rw same h
      | inr (pool', assigned, traced) ↦ rw traced (
          written-IsCareful name old pool' _ t
            (recalc-IsRemembered env.local_node_name name pool pool' assigned remembered) h)
    ];
  }

  request-IsCareful :
      (old : Option ThinPoolLv) (pool : ThinPoolLv)
      → Keeps env (IsCareful name) (request_thin_lv_removal old pool name)
  unfolding request_thin_lv_removal
  request-IsCareful old pool =
      Keeps-elim_option (find_thin_lv_spec pool name) _ _ (λ e. Keeps-pure (old, pool))
        (λ lv found. update-IsCareful old _ (requested-IsRemembered name pool lv _ found))

  forget-IsCareful :
      (pool : ThinPoolLv)
      → IsGone name pool
      → Keeps env (IsCareful name) (forget_removed_thin_lv pool name)
  unfolding forget_removed_thin_lv
  forget-IsCareful pool gone =
      Keeps-elim_option (without_first pool.spec.thin_lvs name) _ _ (λ e. Keeps-pure pool)
        (λ lvs found.
          Keeps-bind _ _ (update-IsCareful none (with_thin_lvs pool lvs) (inr gone))
            (λ u. Keeps-pure u.1))

  delete-IsCareful :
      (pool : ThinPoolLv) → IsEmpty pool → Keeps env (IsCareful name) (delete_pool pool)
  unfolding delete_pool
  delete-IsCareful pool empty = record { at = λ t h. (empty, h) }

  delete_if_empty-IsCareful :
      (pool : ThinPoolLv) → Keeps env (IsCareful name) (delete_if_empty pool)
  unfolding delete_if_empty
  delete_if_empty-IsCareful pool =
      Keeps-if (is_deletable pool) _ _
        (λ e.
          Keeps-bind _ _ (Keeps-try _ (delete-IsCareful pool (is_deletable-IsEmpty pool e))) (λ r.
            Keeps-elim_result r _ _ (λ u same. Keeps-pure true)
              (λ x same. Keeps-bind _ _ (Keeps-lift (ignore_not_found x)) (λ u. Keeps-pure false))))
        (λ e. Keeps-pure true)

  -- an early return behind the deletion, and the last write otherwise
  finish_rest-IsCareful :
      (old : Option ThinPoolLv) (pool : ThinPoolLv)
      → find_thin_lv_status pool name ≡ none
      → Keeps env (IsCareful name) (
          delete_if_empty pool >>= λ goes_on.
          if goes_on then (update_thin_pool_lv old pool >>= λ u. pure tt) else pure tt)
  finish_rest-IsCareful old pool absent =
      Keeps-bind _ _ (delete_if_empty-IsCareful pool) (λ goes_on.
        Keeps-if goes_on _ _
          (λ e.
            Keeps-bind _ _ (update-IsCareful old pool (inr (absent-IsGone name pool absent)))
              (λ u. Keeps-pure tt))
          (λ e. Keeps-pure tt))

  finish-IsCareful :
      (old : Option ThinPoolLv) (pool : ThinPoolLv) (owner : String)
      → find_thin_lv_status pool name ≡ none
      → Keeps env (IsCareful name) (finish_removal old pool owner)
  unfolding finish_removal
  finish-IsCareful old pool owner absent = record {
    at = λ t h.
        (finish_rest-IsCareful old
            (record pool { metadata = env.remove_owner_reference owner pool.metadata }) absent).at
          t h;
  }

  remove_from_pool-IsCareful :
      (pool : ThinPoolLv) (owner : String)
      → Keeps env (IsCareful name) (remove_from_pool pool name owner)
  unfolding remove_from_pool
  remove_from_pool-IsCareful pool owner =
      Keeps-bind _ _ (request-IsCareful (some pool) pool) (λ requested.
        Keeps-if (not (check_thin_lv_removed requested.1 name)) _ _ (λ e. Keeps-throw _)
          (λ e.
            Keeps-bind _ _
              (forget-IsCareful requested.1 (check-IsGone name requested.1 (true_of_not _ e)))
              (λ forgotten.
                Keeps-elim_option (find_thin_lv_status forgotten name) _ _
                  (λ absent. finish-IsCareful requested.0 forgotten owner absent)
                  (λ status found. Keeps-throw _))))

remove_blob-Keeps :
    {env : Env} (pool_name name owner : String)
    → Keeps env (IsCareful (volume_to_thin_lv_name name)) (remove_blob pool_name name owner)
unfolding remove_blob get_pool
remove_blob-Keeps pool_name name owner =
    Keeps-bind _ _ (Keeps-try _ (record { at = λ t h. h })) (λ got.
      Keeps-elim_result got _ _
        (λ pool e. remove_from_pool-IsCareful (volume_to_thin_lv_name name) pool owner)
        (λ e same. Keeps-lift (ignore_not_found e)))

-- A run of `RemoveBlob`, whether it succeeds or fails and whatever the API server answers, drops the
-- thin LV of the blob from the pool's spec only when the status of the pool that it writes has no
-- entry of the thin LV or says that it is removed, and deletes the pool only when its spec has no
-- thin LV and it is not being deleted already.
pub remove_blob-IsCareful :
    (pool_name name owner : String) (env : Env)
    → IsCareful (volume_to_thin_lv_name name) (remove_blob pool_name name owner env []).1
remove_blob-IsCareful pool_name name owner env = (remove_blob-Keeps pool_name name owner).at [] tt
