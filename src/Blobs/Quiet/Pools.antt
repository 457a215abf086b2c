-- ===== src/Blobs/Quiet/Pools.antt =====
-- The calls of the thin blob manager for pools, and the removal of a blob.
use kubesan.Prelude.{String, Option, none, some, true, false, not}
use kubesan.Api.{ThinPoolLv, find_thin_lv_spec, find_thin_lv_status}
use kubesan.Exec.{Env, Trace, Verb, get_pool, write_pool, delete_pool, lift, ignore_not_found}
use kubesan.Exec.Rules.{
  Keeps, Keeps-bind, Keeps-pure, Keeps-throw, Keeps-lift, Keeps-try, Keeps-if, Keeps-elim_option,
  Keeps-elim_result, keeps_rules,
}
use kubesan.ThinPool.{
  update_thin_pool_lv, activate_thin_lv, deactivate_thin_lv, volume_to_thin_lv_name,
}
use kubesan.Blobs.{
  request_thin_lv_removal, without_first, forget_removed_thin_lv, delete_if_empty, finish_removal,
  remove_from_pool, remove_blob, is_deletable, check_thin_lv_removed,
}
use kubesan.Blobs.Quiet.{IgnoresBlobs}

module _ {P : Trace → Type 0} (i : IgnoresBlobs P) {env : Env} where
  pub get_pool-Keeps : (name : String) → Keeps env P (get_pool name)
  unfolding get_pool
  get_pool-Keeps name = record { at = λ t h. i.on_get name (env.get_pool t name) t h }

  pub write_pool-Keeps : (v : Verb) (p : ThinPoolLv) → Keeps env P (write_pool v p)
  unfolding write_pool
  write_pool-Keeps v p = record { at = λ t h. i.on_write v p (env.write_pool t v p) t h }

  delete_pool-Keeps : (p : ThinPoolLv) → Keeps env P (delete_pool p)
  unfolding delete_pool
  delete_pool-Keeps p = record { at = λ t h. i.on_delete p (env.delete_pool t p) t h }

  pub update-Keeps :
      (old : Option ThinPoolLv) (p : ThinPoolLv) → Keeps env P (update_thin_pool_lv old p)
  unfolding update_thin_pool_lv
  update-Keeps old p = search (keeps_rules, write_pool-Keeps)

  pub activate-Keeps :
      (old : Option ThinPoolLv) (p : ThinPoolLv) (n : String)
      → Keeps env P (activate_thin_lv old p n)
  unfolding activate_thin_lv
  activate-Keeps old p n = search (keeps_rules, update-Keeps)

  pub deactivate-Keeps :
      (old : Option ThinPoolLv) (p : ThinPoolLv) (n : String)
      → Keeps env P (deactivate_thin_lv old p n)
  unfolding deactivate_thin_lv
  deactivate-Keeps old p n = search (keeps_rules, update-Keeps)

  request_removal-Keeps :
      (old : Option ThinPoolLv) (p : ThinPoolLv) (n : String)
      → Keeps env P (request_thin_lv_removal old p n)
  unfolding request_thin_lv_removal
  request_removal-Keeps old p n =
      Keeps-elim_option (find_thin_lv_spec p n) _ _ (λ e. Keeps-pure (old, p))
        (λ lv e. update-Keeps old _)

  forget-Keeps : (p : ThinPoolLv) (n : String) → Keeps env P (forget_removed_thin_lv p n)
  unfolding forget_removed_thin_lv
  forget-Keeps p n =
      Keeps-elim_option (without_first p.spec.thin_lvs n) _ _ (λ e. Keeps-pure p)
        (λ lvs e. Keeps-bind _ _ (update-Keeps none _) (λ u. Keeps-pure u.1))

  delete_if_empty-Keeps : (p : ThinPoolLv) → Keeps env P (delete_if_empty p)
  unfolding delete_if_empty
  delete_if_empty-Keeps p =
      Keeps-if (is_deletable p) _ _
        (λ e. Keeps-bind _ _ (Keeps-try _ (delete_pool-Keeps p)) (λ r.
          Keeps-elim_result r _ _ (λ u same. Keeps-pure true)
            (λ x same. Keeps-bind _ _ (Keeps-lift (ignore_not_found x)) (λ u. Keeps-pure false))))
        (λ e. Keeps-pure true)

  finish_removal-Keeps :
      (old : Option ThinPoolLv) (p : ThinPoolLv) (o : String) → Keeps env P (finish_removal old p o)
  unfolding finish_removal
  finish_removal-Keeps old p o = search (keeps_rules, delete_if_empty-Keeps, update-Keeps)

  remove_from_pool-Keeps : (p : ThinPoolLv) (n o : String) → Keeps env P (remove_from_pool p n o)
  unfolding remove_from_pool
  remove_from_pool-Keeps p n o = Keeps-bind _ _ (request_removal-Keeps (some p) p n) (λ r.
      Keeps-if (not (check_thin_lv_removed r.1 n)) _ _ (λ e. Keeps-throw _)
        (λ e. Keeps-bind _ _ (forget-Keeps r.1 n) (λ f.
          Keeps-elim_option (find_thin_lv_status f n) _ _ (λ e'. finish_removal-Keeps r.0 f o)
            (λ s e'. Keeps-throw _))))

  pub remove_blob-Keeps : (pool n o : String) → Keeps env P (remove_blob pool n o)
  unfolding remove_blob
  remove_blob-Keeps pool n o = Keeps-bind _ _ (Keeps-try _ (get_pool-Keeps pool)) (λ r.
      Keeps-elim_result r (λ p. remove_from_pool p (volume_to_thin_lv_name n) o)
        (λ x. lift (ignore_not_found x)) (λ p e. remove_from_pool-Keeps p _ o)
        (λ x e. Keeps-lift _))
