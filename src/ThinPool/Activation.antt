-- ===== src/ThinPool/Activation.antt =====
-- When a thin pool is active, and on which node (`thinPoolLvNeedsActivation`, `recalcActiveOnNode`).
use kubesan.Prelude.{
  ℕ, String, List, [], ◌∷◌, Option, none, some, Bool, true, false, ◌≡◌, refl, ◌≢◌, ◌≤◌, ◌⊎◌, ◌↔◌,
  string_eq, eq_iff, arith, All, ap, ◌∙◌, sym,
}
use kubesan.Api.{
  ThinPoolLv, ThinLvSpec, ThinLvStatus, ThinLvSpecStateName, ThinLvStatusStateName, find_status,
}
use kubesan.Exec.{Err, Result, ok, err}
use kubesan.ThinPool.{
  needs_activation_round, needs_activation_loop, thin_pool_lv_needs_activation,
  assign_active_on_node, recalc_active_on_node, with_active_on_node,
}

-- There is nothing to do on a node for this thin LV: it is removed and gone, or it is inactive as it
-- should be and has its size.
abbrev pub IsSettled : ThinLvSpec → Option ThinLvStatus → Type 0
IsSettled lv none = lv.state ≡ ThinLvSpecStateName.removed
IsSettled lv (some status) =
    (lv.state ≡ ThinLvSpecStateName.inactive)
    × (status.state.name ≡ ThinLvStatusStateName.inactive)
    × ((lv.size_bytes ≤ status.size_bytes) ⊎ (lv.read_only ≡ true))

abbrev pub AllSettled : List ThinLvSpec → List ThinLvStatus → Type 0
AllSettled lvs statuses = All (λ lv. IsSettled lv (find_status statuses lv.name)) lvs

round-IsSettled :
    (deletion : Option ℕ) (lv : ThinLvSpec) (status : Option ThinLvStatus)
    → (needs_activation_round deletion lv status ≡ none) ↔ IsSettled lv status
unfolding needs_activation_round
round-IsSettled deletion lv none = ground arith
round-IsSettled deletion lv (some status) = ground arith

round-ne-false :
    (deletion : Option ℕ) (lv : ThinLvSpec) (status : Option ThinLvStatus)
    → needs_activation_round deletion lv status ≢ some (ok false)
unfolding needs_activation_round
round-ne-false deletion lv none = ground arith
round-ne-false deletion lv (some status) = ground arith

loop-AllSettled :
    (deletion : Option ℕ) (lvs : List ThinLvSpec) (statuses : List ThinLvStatus)
    → (needs_activation_loop deletion lvs statuses ≡ ok false) ↔ AllSettled lvs statuses
unfolding needs_activation_loop
loop-AllSettled deletion [] statuses = (λ h. tt, λ h. refl)
loop-AllSettled deletion (lv ∷ lvs) statuses = ground (
  arith,
  round-IsSettled deletion lv (find_status statuses lv.name),
  round-ne-false deletion lv (find_status statuses lv.name),
  loop-AllSettled deletion lvs statuses,
)

-- A pool needs no node exactly when every thin LV of its spec is settled.
pub needs_activation-AllSettled :
    (pool : ThinPoolLv)
    → (thin_pool_lv_needs_activation pool ≡ ok false)
      ↔ AllSettled pool.spec.thin_lvs pool.status.thin_lvs
unfolding thin_pool_lv_needs_activation
needs_activation-AllSettled pool =
    loop-AllSettled pool.metadata.deletion_timestamp pool.spec.thin_lvs pool.status.thin_lvs

loop_err :
    (deletion : Option ℕ) (lvs : List ThinLvSpec) (statuses : List ThinLvStatus) (e : Err)
    → needs_activation_loop deletion lvs statuses ≡ err e
    → (when : ℕ) × (deletion ≡ some when)
unfolding needs_activation_loop
loop_err deletion [] statuses e h = cc
loop_err none (lv ∷ lvs) statuses e h =
    ground (arith, loop_err none lvs statuses e, round_err lv (find_status statuses lv.name) e)
  where
    round_err :
        (l : ThinLvSpec) (status : Option ThinLvStatus) (x : Err)
        → needs_activation_round none l status ≢ some (err x)
    round_err l none x = unfold needs_activation_round in ground arith
    round_err l (some status) x = unfold needs_activation_round in ground arith
loop_err (some when) (lv ∷ lvs) statuses e h = (when, refl)

-- The only pools for which the question fails are those marked for deletion.
pub needs_activation_err :
    (pool : ThinPoolLv) (e : Err)
    → thin_pool_lv_needs_activation pool ≡ err e
    → (when : ℕ) × (pool.metadata.deletion_timestamp ≡ some when)
unfolding thin_pool_lv_needs_activation
needs_activation_err pool e h =
    loop_err pool.metadata.deletion_timestamp pool.spec.thin_lvs pool.status.thin_lvs e h

needs-with_active_on_node :
    (pool : ThinPoolLv) (node : String)
    → thin_pool_lv_needs_activation (with_active_on_node pool node)
      ≡ thin_pool_lv_needs_activation pool
unfolding thin_pool_lv_needs_activation
needs-with_active_on_node pool node = refl

recalc-eq-ok :
    (local_node_name : String) (pool pool' : ThinPoolLv)
    → recalc_active_on_node local_node_name pool ≡ ok pool'
    → (needs : Bool) × (thin_pool_lv_needs_activation pool ≡ ok needs)
      × (pool' ≡ assign_active_on_node local_node_name needs pool)
unfolding recalc_active_on_node
recalc-eq-ok local_node_name pool pool' h = go (thin_pool_lv_needs_activation pool) refl h
  where
    go :
        (r : Result Bool)
        → thin_pool_lv_needs_activation pool ≡ r
        → (elim r as (λ x. Result ThinPoolLv) [
          | ok needs ↦ ok (assign_active_on_node local_node_name needs pool)
          | err e ↦ err e
        ])
          ≡ ok pool'
        → (needs : Bool) × (thin_pool_lv_needs_activation pool ≡ ok needs)
          × (pool' ≡ assign_active_on_node local_node_name needs pool)
    go (ok needs) e h = (needs, e, cc)
    go (err x) e h = cc

assign_idem :
    (local_node_name : String) (needs : Bool) (pool : ThinPoolLv)
    → assign_active_on_node local_node_name needs (assign_active_on_node local_node_name needs pool)
      ≡ assign_active_on_node local_node_name needs pool
unfolding assign_active_on_node
assign_idem local_node_name true pool = ground arith
assign_idem local_node_name false pool = ground arith

needs-assign :
    (local_node_name : String) (needs : Bool) (pool : ThinPoolLv)
    → thin_pool_lv_needs_activation (assign_active_on_node local_node_name needs pool)
      ≡ thin_pool_lv_needs_activation pool
unfolding assign_active_on_node thin_pool_lv_needs_activation
needs-assign local_node_name true pool = ground arith
needs-assign local_node_name false pool = ground arith

pub recalc_of_needs :
    (local_node_name : String) (needs : Bool) (pool : ThinPoolLv)
    → thin_pool_lv_needs_activation pool ≡ ok needs
    → recalc_active_on_node local_node_name pool
      ≡ ok (assign_active_on_node local_node_name needs pool)
unfolding recalc_active_on_node
recalc_of_needs local_node_name needs pool h = ground arith

assign_lem :
    (local_node_name : String) (needs : Bool) (pool : ThinPoolLv)
    → local_node_name ≢ ""
    → let pool' = assign_active_on_node local_node_name needs pool in
      ((pool'.spec.active_on_node ≡ "") ↔ (needs ≡ false))
      × (pool.spec.active_on_node ≢ "" → needs ≡ true → pool' ≡ pool)
unfolding assign_active_on_node
assign_lem local_node_name true pool h = ground (arith, eq_iff pool.spec.active_on_node "")
assign_lem local_node_name false pool h = ground (arith, eq_iff pool.spec.active_on_node "")

-- Where the node that runs this has a name, a pool has a node after `recalcActiveOnNode` exactly when
-- some thin LV is not settled; a pool that still needs its node keeps it; and to run it again changes
-- nothing.
pub recalc_active_on_node_lem :
    (local_node_name : String) (pool pool' : ThinPoolLv)
    → local_node_name ≢ ""
    → recalc_active_on_node local_node_name pool ≡ ok pool'
    → ((pool'.spec.active_on_node ≡ "") ↔ AllSettled pool.spec.thin_lvs pool.status.thin_lvs)
      × (pool.spec.active_on_node ≢ "" → pool'.spec.active_on_node ≢ "" → pool' ≡ pool)
      × (recalc_active_on_node local_node_name pool' ≡ ok pool')
recalc_active_on_node_lem local_node_name pool pool' h e =
    let (needs, asked, same) = recalc-eq-ok local_node_name pool pool' e in
    let (empty_iff, sticky) = assign_lem local_node_name needs pool h in
    let settled_iff = needs_activation-AllSettled pool in
    rw same (
      (
        λ empty. settled_iff.0 (asked ∙ ap ok (empty_iff.0 empty)),
        λ settled. empty_iff.1 (ok-injective (sym asked ∙ settled_iff.1 settled)),
      ),
      λ held still. sticky held (not_false needs (λ f. still (empty_iff.1 f))),
      again needs asked,
    )
  where
    ok-injective : {a b : Bool} → ◌≡◌ {A = Result Bool} (ok a) (ok b) → a ≡ b
    ok-injective h = cc

    not_false : (b : Bool) → (b ≡ false → ⊥) → b ≡ true
    not_false true h = refl
    not_false false h = absurd (h refl)

    again :
        (needs : Bool)
        → thin_pool_lv_needs_activation pool ≡ ok needs
        → recalc_active_on_node local_node_name (assign_active_on_node local_node_name needs pool)
          ≡ ok (assign_active_on_node local_node_name needs pool)
    again needs asked =
        recalc_of_needs local_node_name needs (assign_active_on_node local_node_name needs pool)
          (needs-assign local_node_name needs pool ∙ asked)
        ∙ ap ok (assign_idem local_node_name needs pool)

assign-thin_lvs :
    (local_node_name : String) (needs : Bool) (pool : ThinPoolLv)
    → (assign_active_on_node local_node_name needs pool).spec.thin_lvs ≡ pool.spec.thin_lvs
unfolding assign_active_on_node
assign-thin_lvs local_node_name true pool = ground arith
assign-thin_lvs local_node_name false pool = ground arith

pub recalc-thin_lvs :
    (local_node_name : String) (pool pool' : ThinPoolLv)
    → recalc_active_on_node local_node_name pool ≡ ok pool'
    → pool'.spec.thin_lvs ≡ pool.spec.thin_lvs
recalc-thin_lvs local_node_name pool pool' e =
    let (needs, asked, same) = recalc-eq-ok local_node_name pool pool' e in
    ap (λ p. p.spec.thin_lvs) same ∙ assign-thin_lvs local_node_name needs pool

assign-status :
    (local_node_name : String) (needs : Bool) (pool : ThinPoolLv)
    → (assign_active_on_node local_node_name needs pool).status ≡ pool.status
unfolding assign_active_on_node
assign-status local_node_name true pool = ground arith
assign-status local_node_name false pool = ground arith

pub recalc-status :
    (local_node_name : String) (pool pool' : ThinPoolLv)
    → recalc_active_on_node local_node_name pool ≡ ok pool'
    → pool'.status ≡ pool.status
recalc-status local_node_name pool pool' e =
    let (needs, asked, same) = recalc-eq-ok local_node_name pool pool' e in
    ap (λ p. p.status) same ∙ assign-status local_node_name needs pool
