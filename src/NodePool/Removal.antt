-- ===== src/NodePool/Removal.antt =====
-- Removing thin LVs, and their entries in the status.
use kubesan.Prelude.{
  String, List, [], ◌∷◌, ◌++◌, none, some, Bool, true, false, not, ◌≡◌, refl, ◌≢◌, ◌⊎◌, inl, inr,
  string_eq, arith, Bool-cases, Option-cases, All, Some, ap, ◌∙◌, sym, if◌then◌else◌,
}
use mathlib.Core.Path.{subst}
use mathlib.Core.List.{append_assoc, append-nil}
use kubesan.Api.{ThinPoolLv, ThinLvSpec, ThinLvStatus, ThinLvSpecStateName, find_spec}
use kubesan.Exec.{Err, ok, err, Env, Event, Trace, Exec, ran, pure, lift, ◌>>=◌}
use kubesan.Exec.Rules.{>>=-runs, ok-injective, Keeps, Keeps-bind, Keeps-pure, Keeps-if}
use kubesan.Commands.{Output}
use kubesan.Commands.Traces.{
  on_host, IsGone, lvremove-IsGone, must-Keeps, lvm_lv_remove_idempotent-Keeps,
}
use kubesan.ThinPool.{is_removed_spec}
use kubesan.NodePool.{status_update, lv_path}
use kubesan.NodePool.ThinLvs.{remove_thin_lv, remove_loop, kept_entries, reconcile_thin_lv_deletion}

-- the call that removes the thin LV, and that found or left it gone
abbrev pub IsRemoval : ThinPoolLv → String → Event → Type 0
IsRemoval pool name (ran command exit) =
    (command
      ≡ on_host ("lvm" ∷ "lvremove" ∷ "--devicesfile" ∷ pool.spec.vg_name ∷ lv_path pool name ∷ []))
    × IsGone exit
IsRemoval pool name _ = ⊥

abbrev pub HasRemoved : ThinPoolLv → String → Trace → Type 0
HasRemoved pool name = Some (IsRemoval pool name)

remove_thin_lv-Keeps :
    (env : Env) (pool : ThinPoolLv) (name other : String)
    → Keeps env (HasRemoved pool name) (remove_thin_lv pool other)
unfolding remove_thin_lv
remove_thin_lv-Keeps env pool name other =
    must-Keeps _ (lvm_lv_remove_idempotent-Keeps (λ c t h. inr h) _)

remove_loop-Keeps :
    (env : Env) (pool : ThinPoolLv) (name : String) (lvs : List ThinLvSpec) (need : Bool)
    → Keeps env (HasRemoved pool name) (remove_loop pool lvs need)
unfolding remove_loop
remove_loop-Keeps env pool name [] need = Keeps-pure need
remove_loop-Keeps env pool name (lv ∷ lvs) need =
    Keeps-if (not (is_removed_spec lv.state)) _ _ (λ e. remove_loop-Keeps env pool name lvs need)
      (λ e.
        Keeps-bind _ _ (remove_thin_lv-Keeps env pool name lv.name)
          (λ o. remove_loop-Keeps env pool name lvs true))

-- every thin LV of the list that is marked as removed has been removed
abbrev pub AllRemoved : ThinPoolLv → List ThinLvSpec → Trace → Type 0
AllRemoved pool lvs t =
    All (λ lv. lv.state ≡ ThinLvSpecStateName.removed → HasRemoved pool lv.name t) lvs

removed_iff :
    (s : ThinLvSpecStateName) → is_removed_spec s ≡ false → s ≢ ThinLvSpecStateName.removed
unfolding is_removed_spec
removed_iff s h e = ground arith

remove_thin_lv-HasRemoved :
    (pool : ThinPoolLv) (name : String) (env : Env) (t : Trace) (output : Output)
    → (remove_thin_lv pool name env t).0 ≡ ok output
    → HasRemoved pool name (remove_thin_lv pool name env t).1
unfolding remove_thin_lv lv_path
remove_thin_lv-HasRemoved pool name env t output h =
    let (exit, traced, gone) = lvremove-IsGone _ env t output h in rw traced (inl (refl, gone))

remove_loop-AllRemoved :
    (pool : ThinPoolLv) (lvs : List ThinLvSpec) (need need' : Bool) (env : Env) (t : Trace)
    → (remove_loop pool lvs need env t).0 ≡ ok need'
    → AllRemoved pool lvs (remove_loop pool lvs need env t).1
unfolding remove_loop
remove_loop-AllRemoved pool [] need need' env t h = tt
remove_loop-AllRemoved pool (lv ∷ lvs) need need' env t h =
    elim (Bool-cases (is_removed_spec lv.state)) [
      | inr kept ↦
          let eq : remove_loop pool (lv ∷ lvs) need env t ≡ remove_loop pool lvs need env t =
            rw kept refl in
          subst (λ r. AllRemoved pool (lv ∷ lvs) r.1) (sym eq)
            (
              λ e. absurd (removed_iff lv.state kept e),
              remove_loop-AllRemoved pool lvs need need' env t (rw kept at h),
            )
      | inl removed ↦
          let (output, e, rest, run) =
            >>=-runs (remove_thin_lv pool lv.name) (λ o. remove_loop pool lvs true) env t need'
              (rw removed at h) in
          let t' : Trace = (remove_thin_lv pool lv.name env t).1 in
          let eq : remove_loop pool (lv ∷ lvs) need env t ≡ remove_loop pool lvs true env t' =
            rw removed run in
          subst (λ r. AllRemoved pool (lv ∷ lvs) r.1) (sym eq)
            (
              λ marked.
                  (remove_loop-Keeps env pool lv.name lvs true).at t'
                    (remove_thin_lv-HasRemoved pool lv.name env t output e),
              remove_loop-AllRemoved pool lvs true need' env t' rest,
            )
    ]

-- the entries whose spec is not marked as removed
abbrev pub unmarked : List ThinLvSpec → List ThinLvStatus → List ThinLvStatus
unmarked specs [] = []
unmarked specs (status ∷ statuses) =
    let rest = unmarked specs statuses in
    elim (find_spec specs status.name) [
      | none ↦ rest
      | some lv ↦ if not (is_removed_spec lv.state) then status ∷ rest else rest
    ]

err≢ok : {A : Type 0} {e : Err} {a : A} → err e ≢ ok a
err≢ok h = cc

kept_entries-unmarked :
    (specs : List ThinLvSpec) (statuses new result : List ThinLvStatus)
    → kept_entries specs statuses new ≡ ok result
    → result ≡ new ++ unmarked specs statuses
unfolding kept_entries
kept_entries-unmarked specs [] new result h = sym (ok-injective h) ∙ sym (append-nil new)
kept_entries-unmarked specs (status ∷ statuses) new result h =
    elim (Option-cases (find_spec specs status.name)) [
      | inl none_found ↦ absurd (err≢ok (rw (none_found, kept_entries) at h))
      | inr (lv, found) ↦ elim (Bool-cases (is_removed_spec lv.state)) [
        | inl removed ↦
            let ih =
              kept_entries-unmarked specs statuses new result
                (rw (found, removed, kept_entries) at h) in
            rw (found, removed, unmarked) ih
        | inr kept ↦
            let ih =
              kept_entries-unmarked specs statuses (new ++ status ∷ []) result
                (rw (found, kept, kept_entries) at h) in
            rw (found, kept, unmarked)
              (ih ∙ append_assoc new (status ∷ []) (unmarked specs statuses))
      ]
    ]

-- the pool with the entries that stay
abbrev pub without_removed : ThinPoolLv → ThinPoolLv
without_removed pool = record pool {
  status = record pool.status { thin_lvs = unmarked pool.spec.thin_lvs pool.status.thin_lvs };
}

note_kept : ThinPoolLv → Exec ThinPoolLv
note_kept pool = lift (kept_entries pool.spec.thin_lvs pool.status.thin_lvs []) >>= λ thin_lvs.
    status_update (record pool { status = record pool.status { thin_lvs = thin_lvs } })

note_kept-status_update :
    (pool result : ThinPoolLv) (env : Env) (t : Trace)
    → (note_kept pool env t).0 ≡ ok result
    → note_kept pool env t ≡ status_update (without_removed pool) env t
unfolding note_kept lift
note_kept-status_update pool result env t h =
    let (new, e, rest, run) =
      >>=-runs (lift (kept_entries pool.spec.thin_lvs pool.status.thin_lvs [])) _ env t result h in
    let kept = kept_entries-unmarked pool.spec.thin_lvs pool.status.thin_lvs [] new e in
    run
    ∙ ap
        (λ lvs.
          status_update (record pool { status = record pool.status { thin_lvs = lvs } }) env t)
        kept

note_if :
    (need : Bool) (pool result : ThinPoolLv) (env : Env) (t : Trace)
    → ((if not need then pure pool else note_kept pool) env t).0 ≡ ok result
    → ((need ≡ false) × ((if not need then pure pool else note_kept pool) env t ≡ (ok pool, t)))
      ⊎ ((need ≡ true)
          × ((if not need then pure pool else note_kept pool) env t
              ≡ status_update (without_removed pool) env t))
unfolding pure
note_if false pool result env t h = inl (refl, refl)
note_if true pool result env t h = inr (refl, note_kept-status_update pool result env t h)

-- When the deletion step of a pool succeeds, LVM has removed every thin LV whose spec is marked as
-- removed, or has found it gone, and only then the record of calls ends in the status update: it
-- either ends where the removals end, or the write keeps exactly the entries of Status.ThinLvs[]
-- whose spec is not marked as removed.
pub reconcile_thin_lv_deletion_lem :
    (pool result : ThinPoolLv) (env : Env) (t : Trace)
    → (reconcile_thin_lv_deletion pool env t).0 ≡ ok result
    → let t' = (remove_loop pool pool.spec.thin_lvs false env t).1 in
      AllRemoved pool pool.spec.thin_lvs t'
      × ((reconcile_thin_lv_deletion pool env t ≡ (ok pool, t'))
          ⊎ (reconcile_thin_lv_deletion pool env t ≡ status_update (without_removed pool) env t'))
unfolding reconcile_thin_lv_deletion note_kept
reconcile_thin_lv_deletion_lem pool result env t h =
    let (need, e, rest, run) =
      >>=-runs (remove_loop pool pool.spec.thin_lvs false) _ env t result h in
    let t' : Trace = (remove_loop pool pool.spec.thin_lvs false env t).1 in
    (
      remove_loop-AllRemoved pool pool.spec.thin_lvs false need env t e,
      elim (note_if need pool result env t' rest) [
        | inl (n, same) ↦ inl (run ∙ same)
        | inr (n, wrote) ↦ inr (run ∙ wrote)
      ],
    )
