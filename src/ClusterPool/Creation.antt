-- ===== src/ClusterPool/Creation.antt =====
-- The LVM thin pool and the finalizer, when a pool is created.
use kubesan.Prelude.{
  [], ◌∷◌, Bool, false, not, ◌≢◌, ◌≡◌, refl, ◌⊎◌, inl, inr, Some, if◌then◌else◌, Bool-cases,
}
use kubesan.Api.{ThinPoolLv}
use kubesan.Exec.{
  Err, ok, err, Env, Event, Trace, ran, wrote_pool, update, update_status, Verb, pure, write_pool,
}
use kubesan.Exec.Rules.{Result-cases, Keeps, Keeps-bind, Keeps-bind_known, Keeps-pure, Keeps-if}
use kubesan.Commands.Traces.{must-Keeps, lvm_lv_create_idempotent-Keeps}
use kubesan.NodePool.{status_update}
use kubesan.ClusterPool.{finalizer, ensure_finalizer, create_thin_pool_lv, reconcile_not_deleting}

err≢ok : {A : Type 0} {e : Err} {a : A} → err e ≢ ok a
err≢ok h = cc

-- the write that stores the finalizer, and that the API server took
abbrev pub IsFinalizing : Env → ThinPoolLv → Event → Type 0
IsFinalizing env pool (wrote_pool update written (ok stored)) =
    written.metadata ≡ (env.add_finalizer pool.metadata (finalizer env.domain)).0
IsFinalizing env pool _ = ⊥

-- the pool had its finalizer already, or it has been stored
abbrev pub HasFinalizer : Env → ThinPoolLv → Trace → Type 0
HasFinalizer env pool t =
    ((env.add_finalizer pool.metadata (finalizer env.domain)).1 ≡ false)
    ⊎ Some (IsFinalizing env pool) t

-- each command stands behind the finalizer
abbrev pub IsSecured : Env → ThinPoolLv → Trace → Type 0
IsSecured env pool [] = Unit
IsSecured env pool (ran command exit ∷ t) = HasFinalizer env pool t × IsSecured env pool t
IsSecured env pool (_ ∷ t) = IsSecured env pool t

abbrev AreSecured : Env → ThinPoolLv → Trace → Type 0
AreSecured env pool t = HasFinalizer env pool t × IsSecured env pool t

later :
    (env : Env) (pool : ThinPoolLv) (t : Trace) (e : Event)
    → HasFinalizer env pool t
    → HasFinalizer env pool (e ∷ t)
later env pool t e (inl had) = inl had
later env pool t e (inr stored) = inr (inr stored)

with_finalizer : Env → ThinPoolLv → ThinPoolLv
with_finalizer env pool = record pool {
  metadata = (env.add_finalizer pool.metadata (finalizer env.domain)).0;
}

-- the first step runs no command, and when it passes, the finalizer is there
ensure_finalizer-HasFinalizer :
    (env : Env) (pool stored : ThinPoolLv) (t : Trace)
    → (ensure_finalizer pool env t).0 ≡ ok stored
    → HasFinalizer env pool (ensure_finalizer pool env t).1
unfolding ensure_finalizer with_finalizer write_pool
ensure_finalizer-HasFinalizer env pool stored t h =
    elim (Bool-cases (env.add_finalizer pool.metadata (finalizer env.domain)).1) [
      | inr had ↦ inl had
      | inl changed ↦ elim (Result-cases (env.write_pool t update (with_finalizer env pool))) [
        | inl (written, e) ↦ rw (changed, e) (inr (inl refl))
        | inr (error, e) ↦ absurd (err≢ok (rw (changed, e) at h))
      ]
    ]

ensure_finalizer-IsSecured :
    (env : Env) (pool : ThinPoolLv) (t : Trace)
    → IsSecured env pool t
    → IsSecured env pool (ensure_finalizer pool env t).1
unfolding ensure_finalizer write_pool
ensure_finalizer-IsSecured env pool t h =
    elim (Bool-cases (env.add_finalizer pool.metadata (finalizer env.domain)).1) [
      | inr had ↦ rw had h
      | inl changed ↦ rw changed h
    ]

write_pool-Keeps :
    (env : Env) (pool written : ThinPoolLv) (verb : Verb)
    → Keeps env (AreSecured env pool) (write_pool verb written)
unfolding write_pool
write_pool-Keeps env pool written verb = record {
  at = λ t h. (later env pool t (wrote_pool verb written (env.write_pool t verb written)) h.0, h.1);
}

create_thin_pool_lv-Keeps :
    (env : Env) (pool stored : ThinPoolLv)
    → Keeps env (AreSecured env pool) (create_thin_pool_lv stored)
unfolding create_thin_pool_lv status_update
create_thin_pool_lv-Keeps env pool stored =
    Keeps-bind {P = AreSecured env pool} _ _
      (must-Keeps _ (
        lvm_lv_create_idempotent-Keeps
          (λ c t h. (later env pool t (ran c (env.run_command t c)) h.0, h)) _ _))
      (λ o. record {
        at = λ t h.
            (Keeps-bind {P = AreSecured env pool} _ _ (write_pool-Keeps env pool _ update_status)
                (λ a. Keeps-pure tt)).at
              t h;
      })

create_unless_available-Keeps :
    (env : Env) (pool stored : ThinPoolLv) (available : Bool)
    → Keeps env
        (AreSecured env pool)
        (if not available then create_thin_pool_lv stored else pure tt)
create_unless_available-Keeps env pool stored available =
    Keeps-if (not available) _ _ (λ c. create_thin_pool_lv-Keeps env pool stored)
      (λ c. Keeps-pure tt)

-- While a pool is not being deleted, whatever fails in between: the controller runs a command, which
-- is the lvcreate of the LVM thin pool, only when the pool had its finalizer or behind an update that
-- stored it and that the API server took.
pub reconcile_not_deleting_lem :
    (env : Env) (pool : ThinPoolLv) (t : Trace)
    → IsSecured env pool t
    → IsSecured env pool (reconcile_not_deleting pool env t).1
unfolding reconcile_not_deleting
reconcile_not_deleting_lem env pool =
    (Keeps-bind_known {P = IsSecured env pool} (ensure_finalizer pool) _
      (record { at = ensure_finalizer-IsSecured env pool })
      (λ t stored e h.
        ((create_unless_available-Keeps env pool stored
            (env.is_status_condition_true stored.status.conditions "Available")).at
          (ensure_finalizer pool env t).1
          (ensure_finalizer-HasFinalizer env pool stored t e, h)).1)).at
