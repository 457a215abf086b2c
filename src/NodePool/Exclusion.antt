-- ===== src/NodePool/Exclusion.antt =====
-- What `Reconcile` does while another node has the pool, and how thin LVs are deactivated.
use Prim.Native.String.{◌++◌ as ◌<>◌}
use mathlib.Core.Path.{subst}
use kubesan.Prelude.Text.{contains_text}
use kubesan.Prelude.{
  zero, suc, String, List, [], ◌∷◌, map, none, some, Bool, true, false, ◌≡◌, refl, ◌≢◌, ◌⊎◌, inl,
  inr, ◌==◌, string_eq, eq_iff, arith, Bool-cases, ap, ◌∙◌, sym,
}
use kubesan.Api.{ThinPoolLv, ThinLvStatus, ThinLvStatusStateName}
use kubesan.Exec.{ok, Exit, exited, failed, throw, Env, Trace, ran}
use kubesan.Exec.Rules.{Result-cases, >>=-trace, ok-injective, >>=-runs}
use kubesan.Commands.{lvm, output_of, Outcome, must, dmsetup}
use kubesan.Commands.Traces.{on_host, must-trace, dmsetup-trace, lvm-trace, lvm-result}
use kubesan.Dm.{is_lvm_active}
use kubesan.NodePool.{
  should_be_active, reconcile_thin_pool_lv_activation, deactivate_thin_lvs, deactivate_args,
  set_inactive, check_unless_gone,
}
use kubesan.NodePool.ThinLvs.{reconcile_pool}

-- the question to device-mapper is one command, for what it knows of some LV
abbrev pub IsQuery : Trace → Trace → Type 0
IsQuery t t' =
    (lv : String) × (exit : Exit) × (t'
      ≡ ran (on_host ("dmsetup" ∷ "info" ∷ "--select" ∷ lv ∷ "--columns" ∷ "--noheadings" ∷ []))
          exit
        ∷ t)

is_lvm_active-trace :
    (vg_name lv_name : String) (env : Env) (t : Trace)
    → IsQuery t (is_lvm_active vg_name lv_name env t).1
unfolding is_lvm_active
is_lvm_active-trace vg_name lv_name env t = (
  _,
  _,
  >>=-trace (must (dmsetup _)) _ env t (λ o. refl)
      ∙ must-trace (dmsetup _) env t
      ∙ dmsetup-trace _ env t,
)

not_equal : (a b : String) → a ≢ b → (a == b) ≡ false
not_equal a b h = ground (arith, eq_iff a b)

-- the branch that waits for another node
waits :
    (pool : ThinPoolLv) (env : Env) (t : Trace)
    → should_be_active env.local_node_name pool ≡ true
    → pool.status.active_on_node ≢ ""
    → pool.status.active_on_node ≢ env.local_node_name
    → IsQuery t (reconcile_thin_pool_lv_activation pool env t).1
      × ((result : ThinPoolLv × Bool)
          → (reconcile_thin_pool_lv_activation pool env t).0 ≡ ok result
          → result ≡ (pool, false))
unfolding reconcile_thin_pool_lv_activation
waits pool env t wanted held elsewhere =
    let (command, exit, queried) = is_lvm_active-trace pool.spec.vg_name pool.metadata.name env t in
    elim (Result-cases (is_lvm_active pool.spec.vg_name pool.metadata.name env t).0) [
      | inl (b, e) ↦
          rw (e, wanted, not_equal _ _ held, not_equal _ _ elsewhere)
            ((command, exit, queried), λ result h. sym (ok-injective h))
      | inr (x, e) ↦ rw e ((command, exit, queried), λ result h. cc)
    ]

-- While the status says that another node has the pool, a node that should activate it asks
-- device-mapper, and calls nothing else: it does not activate, and it leaves the thin LVs alone.
pub reconcile_pool_waits :
    (pool : ThinPoolLv) (env : Env) (t : Trace)
    → should_be_active env.local_node_name pool ≡ true
    → pool.status.active_on_node ≢ ""
    → pool.status.active_on_node ≢ env.local_node_name
    → ((reconcile_pool pool env t).1 ≡ t) ⊎ IsQuery t (reconcile_pool pool env t).1
unfolding reconcile_pool
reconcile_pool_waits pool env t wanted held elsewhere =
    let (queried, returned) = waits pool env t wanted held elsewhere in
    elim (Bool-cases (env.is_status_condition_true pool.status.conditions "Available")) [
      | inr unavailable ↦ rw unavailable (inl refl)
      | inl available ↦ elim (Result-cases (reconcile_thin_pool_lv_activation pool env t).0) [
        | inl (result, e) ↦ rw (available, e, returned result e) (inr queried)
        | inr (x, e) ↦ rw (available, e) (inr queried)
      ]
    ]

-- the deactivation has passed, or the thin LV was gone
abbrev pub IsHarmless : Exit → Type 0
IsHarmless (exited zero output) = Unit
IsHarmless (exited (suc n) output) = contains_text output "ailed to find" ≡ true
IsHarmless (failed output) = contains_text output "ailed to find" ≡ true

-- between the two records of calls, each thin LV was deactivated in turn, and nothing else called
abbrev pub IsDeactivated : String → List ThinLvStatus → Trace → Trace → Type 0
IsDeactivated vg_name [] t t' = t' ≡ t
IsDeactivated vg_name (lv ∷ lvs) t t' =
    let command =
      "lvm"
      ∷ "lvchange"
      ∷ "--devicesfile"
      ∷ vg_name
      ∷ "--activate"
      ∷ "n"
      ∷ (vg_name <> ("/" <> lv.name))
      ∷ [] in
    (exit : Exit) × IsHarmless exit × IsDeactivated vg_name lvs (ran (on_host command) exit ∷ t) t'

-- the entry of a thin LV that is not active
abbrev pub inactive_entry : ThinLvStatus → ThinLvStatus
inactive_entry lv = record {
  name = lv.name;
  state = record { name = ThinLvStatusStateName.inactive; path = none };
  size_bytes = lv.size_bytes;
}

check_unless_gone-trace : (o : Outcome) (env : Env) (t : Trace) → (check_unless_gone o env t).1 ≡ t
unfolding check_unless_gone
check_unless_gone-trace (output, none) env t = refl
check_unless_gone-trace (output, some e) env t =
    elim (Bool-cases (contains_text output.combined "ailed to find")) [
      | inl gone ↦ rw gone
      | inr unknown ↦ rw unknown
    ]

check_unless_gone-IsHarmless :
    (exit : Exit) (env : Env) (t : Trace) (u : Unit {0})
    → (check_unless_gone (output_of exit) env t).0 ≡ ok u
    → IsHarmless exit
unfolding check_unless_gone output_of throw
check_unless_gone-IsHarmless (exited zero output) env t u h = tt
check_unless_gone-IsHarmless (exited (suc n) output) env t u h =
    elim (Bool-cases (contains_text output "ailed to find")) [
      | inl gone ↦ gone
      | inr other ↦ absurd (cc (rw other at h))
    ]
check_unless_gone-IsHarmless (failed output) env t u h =
    elim (Bool-cases (contains_text output "ailed to find")) [
      | inl gone ↦ gone
      | inr other ↦ absurd (cc (rw other at h))
    ]

-- Where the loop over the thin LVs passes, it has called `lvchange --activate n` for each of them in
-- turn, and nothing else, each call has exited with 0 or its output has said that there is no such LV,
-- and the list that it returns has the same entries, all of them inactive.
pub deactivate_thin_lvs_lem :
    (pool : ThinPoolLv) (lvs lvs' : List ThinLvStatus) (env : Env) (t : Trace)
    → (deactivate_thin_lvs pool lvs env t).0 ≡ ok lvs'
    → (lvs' ≡ map inactive_entry lvs)
      × IsDeactivated pool.spec.vg_name lvs t (deactivate_thin_lvs pool lvs env t).1
unfolding deactivate_thin_lvs deactivate_args kubesan.NodePool.lv_path set_inactive
deactivate_thin_lvs_lem pool [] lvs' env t h = (sym (ok-injective h), refl)
deactivate_thin_lvs_lem pool (lv ∷ lvs) lvs' env t h =
    let args = deactivate_args pool lv.name in
    let exit = env.run_command t (on_host ("lvm" ∷ args)) in
    let (outcome, e₁, h₁, run₁) = >>=-runs (lvm args) _ env t lvs' h in
    let (u, e₂, h₂, run₂) = >>=-runs (check_unless_gone outcome) _ env _ lvs' h₁ in
    let (rest, e₃, h₃, run₃) = >>=-runs (deactivate_thin_lvs pool lvs) _ env _ lvs' h₂ in
    let t₁ : Trace = (lvm args env t).1 in
    let t₂ : Trace = (check_unless_gone outcome env t₁).1 in
    let answered : outcome ≡ output_of exit = ok-injective (sym e₁ ∙ lvm-result args env t) in
    let (rest-eq, deactivated) = deactivate_thin_lvs_lem pool lvs rest env t₂ e₃ in
    (
      sym (ok-injective h₃) ∙ ap (λ l. inactive_entry lv ∷ l) rest-eq,
      (
        exit,
        check_unless_gone-IsHarmless exit env t₁ u
            (subst (λ o. (check_unless_gone o env t₁).0 ≡ ok u) answered e₂),
        subst
            (λ t'.
              IsDeactivated pool.spec.vg_name lvs t' (deactivate_thin_lvs pool (lv ∷ lvs) env t).1)
            (check_unless_gone-trace outcome env t₁ ∙ lvm-trace args env t)
            (subst (IsDeactivated pool.spec.vg_name lvs t₂)
              (sym (ap (λ r. r.1) (run₁ ∙ run₂ ∙ run₃))) deactivated),
      ),
    )
