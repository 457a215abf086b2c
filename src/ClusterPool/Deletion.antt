-- ===== src/ClusterPool/Deletion.antt =====
-- The LVM thin pool and the finalizer, when a pool is deleted.
use kubesan.Prelude.{
  [], ◌∷◌, Bool, true, false, ◌||◌, ◌≢◌, ◌≡◌, refl, inl, inr, ltb, length, Bool-cases,
  if◌then◌else◌, sym,
}
use mathlib.Core.Path.{subst}
use kubesan.Api.{ThinPoolLv}
use kubesan.Exec.{ok, Env, Trace, wrote_pool, update, Verb, pure, ask, write_pool, ◌>>=◌}
use kubesan.Exec.Rules.{>>=-runs, Keeps, Keeps-bind, Keeps-bind_known, Keeps-pure, Keeps-if}
use kubesan.Commands.{Output}
use kubesan.Commands.Traces.{lvremove-IsGone, must-Keeps, lvm_lv_remove_idempotent-Keeps}
use kubesan.NodePool.{lv_path}
use kubesan.NodePool.Removal.{HasRemoved}
use kubesan.ClusterPool.{
  finalizer, remove_pool_lv, drop_finalizer, remove_thin_pool_lv, reconcile_deleting,
}

true≢false : true ≢ false
true≢false h = cc

-- each write of a pool has an earlier removal of the LV of `pool`
abbrev pub IsGuarded : ThinPoolLv → Trace → Type 0
IsGuarded pool [] = Unit
IsGuarded pool (wrote_pool verb written r ∷ t) =
    HasRemoved pool pool.metadata.name t × IsGuarded pool t
IsGuarded pool (_ ∷ t) = IsGuarded pool t

remove_pool_lv-Keeps :
    {env : Env} (pool : ThinPoolLv) → Keeps env (IsGuarded pool) (remove_pool_lv pool)
unfolding remove_pool_lv
remove_pool_lv-Keeps pool = must-Keeps _ (lvm_lv_remove_idempotent-Keeps (λ c t h. h) _)

remove_pool_lv-HasRemoved :
    (pool : ThinPoolLv) (env : Env) (t : Trace) (output : Output)
    → (remove_pool_lv pool env t).0 ≡ ok output
    → HasRemoved pool pool.metadata.name (remove_pool_lv pool env t).1
unfolding remove_pool_lv lv_path
remove_pool_lv-HasRemoved pool env t output h =
    let (exit, traced, gone) = lvremove-IsGone _ env t output h in rw traced (inl (refl, gone))

-- the LV is removed, and each write came after it
abbrev IsRemovedAndGuarded : ThinPoolLv → Trace → Type 0
IsRemovedAndGuarded pool t = HasRemoved pool pool.metadata.name t × IsGuarded pool t

write_pool-Keeps :
    {env : Env} (pool written : ThinPoolLv) (verb : Verb)
    → Keeps env (IsRemovedAndGuarded pool) (write_pool verb written)
unfolding write_pool
write_pool-Keeps pool written verb = record { at = λ t h. (inr h.0, h) }

write_if-Keeps :
    {env : Env} (pool written : ThinPoolLv) (changed : Bool)
    → Keeps env
        (IsRemovedAndGuarded pool)
        (if changed then (write_pool update written >>= λ a. pure tt) else pure tt)
write_if-Keeps pool written changed =
    Keeps-if changed _ _
      (λ c. Keeps-bind _ _ (write_pool-Keeps pool written update) (λ a. Keeps-pure tt))
      (λ c. Keeps-pure tt)

drop_finalizer-Keeps :
    {env : Env} (pool : ThinPoolLv) → Keeps env (IsRemovedAndGuarded pool) (drop_finalizer pool)
unfolding drop_finalizer
drop_finalizer-Keeps {env} pool =
    let changed = env.remove_finalizer pool.metadata (finalizer env.domain) in
    record {
      at = λ t h.
          (write_if-Keeps {env = env} pool (record pool { metadata = changed.0 }) changed.1).at t h;
    }

remove_thin_pool_lv-IsGuarded :
    (pool : ThinPoolLv) (env : Env) (t : Trace)
    → IsGuarded pool t
    → IsGuarded pool (remove_thin_pool_lv pool env t).1
unfolding remove_thin_pool_lv
remove_thin_pool_lv-IsGuarded pool env t =
    (Keeps-bind_known {P = IsGuarded pool} (remove_pool_lv pool) _ (remove_pool_lv-Keeps pool)
        (λ t output e h.
          ((drop_finalizer-Keeps pool).at (remove_pool_lv pool env t).1
            (remove_pool_lv-HasRemoved pool env t output e, h)).1)).at
      t

remove_thin_pool_lv-HasRemoved :
    (pool : ThinPoolLv) (env : Env) (t : Trace) (u : Unit {0})
    → IsGuarded pool t
    → (remove_thin_pool_lv pool env t).0 ≡ ok u
    → HasRemoved pool pool.metadata.name (remove_thin_pool_lv pool env t).1
unfolding remove_thin_pool_lv
remove_thin_pool_lv-HasRemoved pool env t u h success =
    let (output, e, rest, run) = >>=-runs (remove_pool_lv pool) _ env t u success in
    let t' : Trace = (remove_pool_lv pool env t).1 in
    subst (λ r. HasRemoved pool pool.metadata.name r.1) (sym run)
      ((drop_finalizer-Keeps pool).at t'
        (remove_pool_lv-HasRemoved pool env t output e, (remove_pool_lv-Keeps pool).at t h)).0

-- whether the cluster controller must leave a pool that is being deleted alone
abbrev pub is_in_use : Env → ThinPoolLv → Bool
is_in_use env pool =
    env.is_status_condition_true pool.status.conditions "Active"
    || ltb 0 (length pool.status.thin_lvs)

-- While a pool is being deleted: if it is active on a node or has thin LVs, the controller calls
-- nothing and reports no error. In all cases it writes the pool, which is how the finalizer goes,
-- only behind an lvremove of its LV that ended well or found it gone, whatever fails in between;
-- and if it reports no error on a pool that is not in use, the LV has been removed.
pub reconcile_deleting_lem :
    (pool : ThinPoolLv) (env : Env) (t : Trace)
    → IsGuarded pool t
    → (is_in_use env pool ≡ true → reconcile_deleting pool env t ≡ (ok tt, t))
      × IsGuarded pool (reconcile_deleting pool env t).1
      × (is_in_use env pool ≡ false
          → (reconcile_deleting pool env t).0 ≡ ok tt
          → HasRemoved pool pool.metadata.name (reconcile_deleting pool env t).1)
unfolding reconcile_deleting ask pure
reconcile_deleting_lem pool env t h =
    elim (Bool-cases (env.is_status_condition_true pool.status.conditions "Active")) [
      | inl active ↦ rw active ((λ u. refl), h, λ u. absurd (true≢false u))
      | inr idle ↦ elim (Bool-cases (ltb 0 (length pool.status.thin_lvs))) [
        | inl some_left ↦ rw (idle, some_left) ((λ u. refl), h, λ u. absurd (true≢false u))
        | inr none_left ↦
            rw (idle, none_left)
              (
                (λ u. absurd (true≢false (sym u))),
                remove_thin_pool_lv-IsGuarded pool env t h,
                λ u success. remove_thin_pool_lv-HasRemoved pool env t tt h success,
              )
      ]
    ]
