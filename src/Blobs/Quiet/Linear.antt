-- ===== src/Blobs/Quiet/Linear.antt =====
-- The operations of the linear blob manager.
use kubesan.Prelude.{ℕ, String, List, ◌∷◌}
use kubesan.Exec.{Env, Trace, ran, ask}
use kubesan.Exec.Rules.{Keeps, Keeps-bind, Keeps-pure, Keeps-throw, Keeps-ask}
use kubesan.Commands.{lvm_lv_extend_idempotent}
use kubesan.Commands.Traces.{
  must-Keeps, lvm_lv_remove_idempotent-Keeps, lvm_lv_create_idempotent-Keeps,
}
use kubesan.Blobs.Manager.{linear_create_blob, linear_remove_blob, linear_blob_manager}
use kubesan.Blobs.Quiet.{IgnoresBlobs, Quiet}
use kubesan.Commands.Tagging.{lvm_size-Keeps}

command_ran :
    {P : Trace → Type 0} (i : IgnoresBlobs P) (env : Env) (c : List String) (t : Trace)
    → P t
    → P (ran c (env.run_command t c) ∷ t)
command_ran i env c t h = i.on_command c (env.run_command t c) t h

module _ {P : Trace → Type 0} (i : IgnoresBlobs P) {env : Env} where
  extend-Keeps : (args : List String) → Keeps env P (lvm_lv_extend_idempotent args)
  unfolding lvm_lv_extend_idempotent
  extend-Keeps args = record { at = λ t h. command_ran i env _ t h }

  linear_create-Keeps :
      (vg n b : String) (s : ℕ) (o : String) → Keeps env P (linear_create_blob vg n b s o)
  unfolding linear_create_blob
  linear_create-Keeps vg n b s o =
      Keeps-bind _ _ (must-Keeps _ (lvm_lv_create_idempotent-Keeps (command_ran i env) b _))
        (λ u. Keeps-bind _ _ (must-Keeps _ (extend-Keeps _)) (λ v. Keeps-pure tt))

  linear_remove-Keeps : (vg n o : String) → Keeps env P (linear_remove_blob vg n o)
  unfolding linear_remove_blob
  linear_remove-Keeps vg n o =
      Keeps-bind _ _ (must-Keeps _ (lvm_lv_remove_idempotent-Keeps (command_ran i env) _))
        (λ u. Keeps-pure tt)

  pub linear_blob_manager-Quiet : (vg : String) → Quiet env P (linear_blob_manager vg)
  unfolding linear_blob_manager
  linear_blob_manager-Quiet vg = record {
    create_blob = linear_create-Keeps vg;
    remove_blob = linear_remove-Keeps vg;
    snapshot_blob = λ n b s o. Keeps-throw _;
    activate_source = λ n o. Keeps-throw _;
    activate_target = λ n d. Keeps-bind ask _ Keeps-ask (λ e. Keeps-pure _);
    deactivate_source = λ n. Keeps-throw _;
    deactivate_target = λ n. Keeps-pure tt;
    get_size = lvm_size-Keeps (command_ran i env) vg;
  }
