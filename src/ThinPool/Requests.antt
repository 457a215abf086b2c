-- ===== src/ThinPool/Requests.antt =====
-- What the requests to a pool write (`UpdateThinPoolLv`, `ActivateThinLv`, `DeactivateThinLv`).
use mathlib.Core.Path.{subst}
use kubesan.Prelude.{
  String, ◌∷◌, Option, none, some, Bool, true, false, ◌≡◌, refl, ◌≢◌, ◌⊎◌, inl, inr, string_eq,
  arith, Bool-cases, if◌then◌else◌,
}
use kubesan.Api.{ThinPoolLv, ThinLvSpec, ThinLvStatus, ThinLvSpecStateName, find_thin_lv_spec}
use kubesan.Exec.{Err, Result, ok, err, Env, Trace, wrote_pool, update, pure, throw}
use kubesan.Exec.Rules.{Result-cases, ok-injective, >>=-trace}
use kubesan.ThinPool.Activation.{IsSettled, recalc_active_on_node_lem, recalc-thin_lvs}
use kubesan.ThinPool.Entries.{AllSettled-find_spec, find_spec-modify}
use kubesan.ThinPool.{
  recalc_active_on_node, update_thin_pool_lv, deep_equal, activate_thin_lv, volume_to_thin_lv_name,
  request_active,
}

trace_of_recalc :
    (old : Option ThinPoolLv) (pool pool' : ThinPoolLv) (env : Env) (t : Trace)
    → recalc_active_on_node env.local_node_name pool ≡ ok pool'
    → (update_thin_pool_lv old pool env t).1 ≡ (
        if deep_equal old pool'
        then t
        else wrote_pool update pool' (env.write_pool t update pool') ∷ t)
unfolding update_thin_pool_lv
trace_of_recalc old pool pool' env t h = rw h (elim (Bool-cases (deep_equal old pool')) [
  | inl same ↦ rw same
  | inr changed ↦ rw changed (elim (Result-cases (env.write_pool t update pool')) [
    | inl (stored, e) ↦ rw e
    | inr (x, e) ↦ rw e
  ])
])

error_of_recalc :
    (old : Option ThinPoolLv) (pool : ThinPoolLv) (e : Err) (env : Env) (t : Trace)
    → recalc_active_on_node env.local_node_name pool ≡ err e
    → update_thin_pool_lv old pool env t ≡ (err e, t)
unfolding update_thin_pool_lv
error_of_recalc old pool e env t h = rw h

-- `UpdateThinPoolLv` writes nothing if the assignment of a node fails or leaves the pool equal to the
-- old one; otherwise it makes one call, which writes the pool with the node assigned.
pub update_thin_pool_lv_lem :
    (old : Option ThinPoolLv) (pool : ThinPoolLv) (env : Env) (t : Trace)
    → ((e : Err) × (recalc_active_on_node env.local_node_name pool ≡ err e)
        × (update_thin_pool_lv old pool env t ≡ (err e, t)))
      ⊎ ((pool' : ThinPoolLv) × (recalc_active_on_node env.local_node_name pool ≡ ok pool')
          × ((update_thin_pool_lv old pool env t).1 ≡ (
              if deep_equal old pool'
              then t
              else wrote_pool update pool' (env.write_pool t update pool') ∷ t)))
update_thin_pool_lv_lem old pool env t =
    elim (Result-cases (recalc_active_on_node env.local_node_name pool)) [
      | inl (pool', e) ↦ inr (pool', e, trace_of_recalc old pool pool' env t e)
      | inr (x, e) ↦ inl (x, e, error_of_recalc old pool x env t e)
    ]

-- What a request may add to the record of calls: nothing, or one write of a pool in which the thin LV
-- is requested as active and which has a node.
abbrev pub RequestsActive : String → Trace → Trace → Type 0
RequestsActive name t t' =
    (t' ≡ t)
    ⊎ ((pool : ThinPoolLv) × (r : Result ThinPoolLv) × (t' ≡ wrote_pool update pool r ∷ t)
        × (pool.spec.active_on_node ≢ "")
        × (lv : ThinLvSpec) × (find_thin_lv_spec pool name ≡ some lv)
        × (lv.state ≡ ThinLvSpecStateName.active))

abbrev set_active : ThinLvSpec → ThinLvSpec
set_active l = record l { state = ThinLvSpecStateName.active }

-- a request that is accepted names a thin LV of the pool, which is active in the pool as requested
request_active_lem :
    (pool pool' : ThinPoolLv) (name : String) (lv : ThinLvSpec) (state : ThinLvSpecStateName)
    → find_thin_lv_spec pool name ≡ some lv
    → lv.state ≡ state
    → request_active pool name (some lv) ≡ ok pool'
    → (l : ThinLvSpec) × (find_thin_lv_spec pool' name ≡ some l)
      × (l.state ≡ ThinLvSpecStateName.active)
unfolding request_active
request_active_lem pool pool' name lv ThinLvSpecStateName.inactive found e h = (
  set_active lv,
  subst (λ p. find_thin_lv_spec p name ≡ some (set_active lv)) (ok-injective (rw e at h))
      (find_spec-modify pool.spec.thin_lvs name set_active lv (λ l. refl) found),
  refl,
)
request_active_lem pool pool' name lv ThinLvSpecStateName.active found e h =
    (lv, subst (λ p. find_thin_lv_spec p name ≡ some lv) (ok-injective (rw e at h)) found, e)
request_active_lem pool pool' name lv ThinLvSpecStateName.removed found e h = ground arith

request_active-none :
    (pool : ThinPoolLv) (name : String) → (e : Err) × (request_active pool name none ≡ err e)
unfolding request_active
request_active-none pool name = (_, refl)

active_not-IsSettled :
    (lv : ThinLvSpec) (status : Option ThinLvStatus)
    → lv.state ≡ ThinLvSpecStateName.active
    → ¬ IsSettled lv status
active_not-IsSettled lv none e h = ground arith
active_not-IsSettled lv (some status) e h = ground (arith, h.0)

-- a pool in which a thin LV is active as requested has a node when it is written
written_RequestsActive :
    (old : Option ThinPoolLv) (pool pool' : ThinPoolLv) (name : String) (env : Env) (t : Trace)
    → env.local_node_name ≢ ""
    → recalc_active_on_node env.local_node_name pool ≡ ok pool'
    → (lv : ThinLvSpec) → find_thin_lv_spec pool name ≡ some lv
    → lv.state ≡ ThinLvSpecStateName.active
    → RequestsActive name t (
        if deep_equal old pool'
        then t
        else wrote_pool update pool' (env.write_pool t update pool') ∷ t)
written_RequestsActive old pool pool' name env t named e lv found active =
    elim (Bool-cases (deep_equal old pool')) [
      | inl same ↦ rw same (inl refl)
      | inr changed ↦ rw changed (
          inr (
            pool',
            env.write_pool t update pool',
            refl,
            λ empty. active_not-IsSettled lv _ active (
                AllSettled-find_spec pool.spec.thin_lvs pool.status.thin_lvs name lv
                  ((recalc_active_on_node_lem env.local_node_name pool pool' named e).0.0 empty)
                  found),
            lv,
            rw (recalc-thin_lvs env.local_node_name pool pool' e) found,
            active,
          ))
    ]

answer_trace :
    {A : Type 0} (b : Bool) (a : A) (e : Err) (env : Env) (t : Trace)
    → ((if b then pure a else throw e) env t).1 ≡ t
unfolding pure throw
answer_trace true a e env t = refl
answer_trace false a e env t = refl

activate-trace :
    (old : Option ThinPoolLv) (pool pool' : ThinPoolLv) (name : String) (env : Env) (t : Trace)
    → (let n = volume_to_thin_lv_name name in
        request_active pool n (find_thin_lv_spec pool n) ≡ ok pool')
    → (activate_thin_lv old pool name env t).1 ≡ (update_thin_pool_lv old pool' env t).1
unfolding activate_thin_lv
activate-trace old pool pool' name env t h =
    rw h (>>=-trace (update_thin_pool_lv old pool') _ env t (λ a. answer_trace _ a _ env _))

activate-err :
    (old : Option ThinPoolLv) (pool : ThinPoolLv) (e : Err) (name : String) (env : Env) (t : Trace)
    → (let n = volume_to_thin_lv_name name in
        request_active pool n (find_thin_lv_spec pool n) ≡ err e)
    → activate_thin_lv old pool name env t ≡ (err e, t)
unfolding activate_thin_lv
activate-err old pool e name env t h = rw h

requested_RequestsActive :
    (old : Option ThinPoolLv) (pool : ThinPoolLv) (name : String) (env : Env) (t : Trace)
    → env.local_node_name ≢ ""
    → (lv : ThinLvSpec) → find_thin_lv_spec pool name ≡ some lv
    → lv.state ≡ ThinLvSpecStateName.active
    → RequestsActive name t (update_thin_pool_lv old pool env t).1
requested_RequestsActive old pool name env t named lv found active =
    elim (update_thin_pool_lv_lem old pool env t) [
      | inl (e, failed, same) ↦ rw same (inl refl)
      | inr (pool', e, same) ↦
          rw same (written_RequestsActive old pool pool' name env t named e lv found active)
    ]

-- `ActivateThinLv` calls nothing, or makes one write, of a pool in which the thin LV is requested as
-- active and which has a node, as long as the node that runs it has a name.
pub activate_thin_lv-RequestsActive :
    (old : Option ThinPoolLv) (pool : ThinPoolLv) (name : String) (env : Env) (t : Trace)
    → env.local_node_name ≢ ""
    → RequestsActive (volume_to_thin_lv_name name) t (activate_thin_lv old pool name env t).1
activate_thin_lv-RequestsActive old pool name env t named =
    let n : String = volume_to_thin_lv_name name in
    elim (Result-cases (request_active pool n (find_thin_lv_spec pool n))) [
      | inr (e, refused) ↦ rw (activate-err old pool e name env t refused) (inl refl)
      | inl (pool', e) ↦
          let (lv, found, active) = accepted n pool' (find_thin_lv_spec pool n) refl e in
          rw (activate-trace old pool pool' name env t e)
            (requested_RequestsActive old pool' n env t named lv found active)
    ]
  where
    accepted :
        (n : String) (pool' : ThinPoolLv) (o : Option ThinLvSpec)
        → find_thin_lv_spec pool n ≡ o
        → request_active pool n o ≡ ok pool'
        → (l : ThinLvSpec) × (find_thin_lv_spec pool' n ≡ some l)
          × (l.state ≡ ThinLvSpecStateName.active)
    accepted n pool' none missing e = absurd (ne-ok _ (request_active-none pool n).1 e)
      where
        ne-ok : (r : Result ThinPoolLv) {x : Err} → r ≡ err x → r ≡ ok pool' → ⊥
        ne-ok r p q = cc
    accepted n pool' (some lv) found e = request_active_lem pool pool' n lv lv.state found refl e
