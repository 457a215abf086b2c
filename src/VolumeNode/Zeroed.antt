-- ===== src/VolumeNode/Zeroed.antt =====
-- Zeroing what a linear volume holds behind its offset.
use kubesan.Prelude.{ℕ, Option, none, some, true, false, ◌≡◌, sym, ap, ◌∙◌}
use mathlib.Core.Path.{subst}
use kubesan.Prelude.Int.{ℤ, pos, ltb_ℤ}
use kubesan.Process.{Process}
use kubesan.Api.{Volume}
use kubesan.Exec.{Env, Trace, begun, ok, blkdiscard, ask, ◌>>=◌, ◌>>◌}
use kubesan.Exec.Rules.{>>=-runs, >>=-ok}
use kubesan.Commands.{lvm_size}
use kubesan.Commands.Counter.{decimal_int, lvm_lv_get_counter}
use kubesan.Workers.Traces.{HasDone, run-HasDone}
use kubesan.VolumeNode.Population.{
  change_activation, safe_offset_key, note_safe, populate_linear, blkdiscard_work_name, linear_path,
  is_unsafe_fast, wipe_rest, wipe_block, wipe_or_cancel, reconcile_linear_populating,
}
use kubesan.VolumeNode.Wiping.{
  HasDone-IgnoresCopies, note_safe-Keeps, change-Keeps, from_counter, behind_counter,
}

module _ (env : Env) (v : Volume) (full : is_unsafe_fast v.spec.wipe_policy ≡ false) where
  wipe_rest-HasDone :
      (o : ℤ) (size : ℕ) (t : Trace) (u : Unit {0})
      → ltb_ℤ o (pos size) ≡ true
      → (wipe_rest v o size env t).0 ≡ ok u
      → HasDone (blkdiscard_work_name v) (wipe_rest v o size env t).1
  unfolding wipe_rest
  wipe_rest-HasDone o size t u behind h =
      rw (behind, full)
        (run-HasDone (blkdiscard_work_name v) (blkdiscard (linear_path v) (decimal_int o)) env t u
          (rw (behind, full) at h))

  wipe_block-HasDone :
      (o : ℤ) (size : ℕ) (b : Unit {0}) (t : Trace) (u : Unit {0})
      → (lvm_size v.spec.vg_name v.metadata.name env t).0 ≡ ok size
      → ltb_ℤ o (pos size) ≡ true
      → (wipe_block v o (some b) env t).0 ≡ ok u
      → HasDone (blkdiscard_work_name v) (wipe_block v o (some b) env t).1
  unfolding wipe_block
  wipe_block-HasDone o size b t u measured behind h =
      let name = blkdiscard_work_name v in
      let t' : Trace = (lvm_size v.spec.vg_name v.metadata.name env t).1 in
      let runs =
        >>=-ok (lvm_size v.spec.vg_name v.metadata.name) (λ s. wipe_rest v o s >> note_safe v s) env
          t size measured in
      let (w, wiped, rest', runs') =
        >>=-runs (wipe_rest v o size) (λ w. note_safe v size) env t' u
          (ap (λ x. x.0) (sym runs) ∙ h) in
      subst (λ x. HasDone name x.1) (sym (runs ∙ runs'))
        ((note_safe-Keeps (HasDone-IgnoresCopies name) env v size).at _
          (wipe_rest-HasDone o size t' w behind wiped))

  wipe-HasDone :
      (o : ℤ) (size : ℕ) (b : Unit {0}) (d : Option ℕ) (t : Trace) (u : Unit {0})
      → v.spec.type.block ≡ some b
      → d ≡ none
      → (lvm_size v.spec.vg_name v.metadata.name env t).0 ≡ ok size
      → ltb_ℤ o (pos size) ≡ true
      → (wipe_or_cancel v o d env t).0 ≡ ok u
      → HasDone (blkdiscard_work_name v) (wipe_or_cancel v o d env t).1
  unfolding wipe_or_cancel
  wipe-HasDone o size b none t u block kept measured behind h =
      rw block (wipe_block-HasDone o size b t u measured behind (rw block at h))
  wipe-HasDone o size b (some when) t u block kept measured behind h = absurd (some-ne-none kept)
    where
      some-ne-none : {n : ℕ} → ◌≡◌ {A = Option ℕ} (some n) none → ⊥
      some-ne-none p = cc

  -- Let a pass over a linear block volume that is not being deleted and is to be wiped in full succeed,
  -- whatever the process has in its memory. If the counter is read in it as `counter`, the population
  -- gives the offset `o` from it, and LVM's size of the volume behind that is greater than the offset,
  -- then in this pass the zeroing of the volume was received as done without an error.
  pub reconcile_linear_populating_lem :
      (p : Process) (b u : Unit {0}) (counter o : ℤ) (size : ℕ)
      → let t₁ = (change_activation v "ey" env (begun p)).1 in
        let read = lvm_lv_get_counter v.spec.vg_name v.metadata.name (safe_offset_key env) env t₁ in
        let populated = populate_linear v counter env read.1 in
        v.spec.type.block ≡ some b
        → v.metadata.deletion_timestamp ≡ none
        → read.0 ≡ ok counter
        → populated.0 ≡ ok o
        → (lvm_size v.spec.vg_name v.metadata.name env populated.1).0 ≡ ok size
        → ltb_ℤ o (pos size) ≡ true
        → (reconcile_linear_populating v env (begun p)).0 ≡ ok u
        → HasDone (blkdiscard_work_name v) (reconcile_linear_populating v env (begun p)).1
  unfolding reconcile_linear_populating ask ◌>>=◌
  reconcile_linear_populating_lem p b u counter o size block kept read populated measured behind h =
      let name = blkdiscard_work_name v in
      let d = v.metadata.deletion_timestamp in
      let (a, activated, rest1, runs1) =
        >>=-runs (change_activation v "ey") (from_counter env v) env (begun p) u h in
      let t1 : Trace = (change_activation v "ey" env (begun p)).1 in
      let runs2 =
        >>=-ok (lvm_lv_get_counter v.spec.vg_name v.metadata.name (safe_offset_key env))
          (behind_counter env v) env t1 counter read in
      let t2 : Trace =
        (lvm_lv_get_counter v.spec.vg_name v.metadata.name (safe_offset_key env) env t1).1 in
      let runs3 =
        >>=-ok (populate_linear v counter) (λ o. wipe_or_cancel v o d >> change_activation v "n")
          env t2 o populated in
      let t3 : Trace = (populate_linear v counter env t2).1 in
      let (w, wiped, rest4, runs4) =
        >>=-runs (wipe_or_cancel v o d) (λ w. change_activation v "n") env t3 u
          (ap (λ x. x.0) (sym (runs2 ∙ runs3)) ∙ rest1) in
      subst (λ x. HasDone name x.1) (sym (runs1 ∙ runs2 ∙ runs3 ∙ runs4))
        ((change-Keeps (HasDone-IgnoresCopies name) env v "n").at _
          (wipe-HasDone o size b d t3 w block kept measured behind wiped))
