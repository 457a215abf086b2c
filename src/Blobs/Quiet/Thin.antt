-- ===== src/Blobs/Quiet/Thin.antt =====
-- The other operations of the thin blob manager.
use kubesan.Prelude.{ℕ, String, Option, none, some}
use kubesan.Api.{ThinPoolLv, ThinLvContents, find_thin_lv_spec, find_thin_lv_status}
use kubesan.Exec.{
  Env, Trace, Result, ok, err, already_exists, get_pool, create, pure, throw, lift, try, ask,
  ignore_not_found, ◌>>=◌,
}
use kubesan.Exec.Rules.{
  Keeps, Keeps-bind, Keeps-pure, Keeps-throw, Keeps-lift, Keeps-try, Keeps-ask, Keeps-elim_option,
  keeps_rules,
}
use kubesan.ThinPool.{deactivate_thin_lv, volume_to_thin_lv_name}
use kubesan.Blobs.{Copies, create_thin_lv}
use kubesan.Blobs.Create.{
  create_pool_object, finish_creation, create_and_wait, create_blob, get_size, snapshot_blob,
  activate_blob_for_clone_source, deactivate_blob, snapshot_source,
}
use kubesan.Blobs.Manager.{activate_on_source_node, activate_target, thin_blob_manager}
use kubesan.Blobs.Quiet.{IgnoresBlobs, Quiet}
use kubesan.Blobs.Quiet.Pools.{
  get_pool-Keeps, update-Keeps, activate-Keeps, deactivate-Keeps, remove_blob-Keeps,
  write_pool-Keeps,
}

module _ {P : Trace → Type 0} (i : IgnoresBlobs P) {env : Env} where
  create_thin_lv-Keeps :
      (old : Option ThinPoolLv) (p : ThinPoolLv) (n b : String) (s : ℕ) (c : ThinLvContents)
      → Keeps env P (create_thin_lv old p n b s c)
  unfolding create_thin_lv
  create_thin_lv-Keeps old p n b s c = search (keeps_rules, update-Keeps i)

  finish_creation-Keeps :
      (m n : String) (s : ℕ) (c : Copies) → Keeps env P (finish_creation m n s c)
  unfolding finish_creation
  finish_creation-Keeps m n s c = search (keeps_rules, update-Keeps i)

  create_and_wait-Keeps :
      (m : String) (old p : ThinPoolLv) (n b : String) (s : ℕ) (c : ThinLvContents)
      → Keeps env P (create_and_wait m old p n b s c)
  unfolding create_and_wait
  create_and_wait-Keeps m old p n b s c =
      Keeps-bind _ _ (create_thin_lv-Keeps (some old) p n b s c) (finish_creation-Keeps m n s)

  created_pool-Keeps :
      (name : String) (r : Result ThinPoolLv)
      → Keeps env P
          (elim r [ ok pool ↦ pure pool | err already_exists ↦ get_pool name | err e ↦ throw e ])
  created_pool-Keeps name (ok pool) = Keeps-pure pool
  created_pool-Keeps name (err already_exists) = get_pool-Keeps i name
  created_pool-Keeps name (err e) = Keeps-throw e

  create_pool_object-Keeps :
      (vg n : String) (s : ℕ) (o : String) → Keeps env P (create_pool_object vg n s o)
  unfolding create_pool_object
  create_pool_object-Keeps vg n s o = Keeps-bind _ _ Keeps-ask (λ e.
      Keeps-bind _ _ (Keeps-lift _) (λ owned.
        Keeps-bind _ _ (Keeps-try _ (write_pool-Keeps i create owned)) (created_pool-Keeps n)))

  create_blob-Keeps : (vg n b : String) (s : ℕ) (o : String) → Keeps env P (create_blob vg n b s o)
  unfolding create_blob
  create_blob-Keeps vg n b s o =
      Keeps-bind _ _ (create_pool_object-Keeps vg n s o) (λ p. create_and_wait-Keeps _ p p _ b s _)

  get_size-Keeps : (pool n : String) → Keeps env P (get_size pool n)
  unfolding get_size
  get_size-Keeps pool n = Keeps-bind _ _ (get_pool-Keeps i pool) (λ p.
      Keeps-elim_option (find_thin_lv_status p _) _ _ (λ e. Keeps-throw _) (λ s e. Keeps-pure _))

  snapshot_blob-Keeps : (pool n b s o : String) → Keeps env P (snapshot_blob pool n b s o)
  unfolding snapshot_blob
  snapshot_blob-Keeps pool n b s o = Keeps-bind ask _ Keeps-ask (λ e.
      Keeps-bind (get_pool pool) _ (get_pool-Keeps i pool) (λ p.
        Keeps-bind (lift (snapshot_source (find_thin_lv_spec p (volume_to_thin_lv_name s)))) _
          (Keeps-lift _)
          (λ source.
            Keeps-bind _ _ (Keeps-lift _) (λ owned. create_and_wait-Keeps _ p owned _ b 0 _))))

  activate_source-Keeps :
      (pool n o : String) → Keeps env P (activate_blob_for_clone_source pool n o)
  unfolding activate_blob_for_clone_source
  activate_source-Keeps pool n o = Keeps-bind ask _ Keeps-ask (λ e.
      Keeps-bind (get_pool pool) _ (get_pool-Keeps i pool) (λ p.
        Keeps-bind _ _ (Keeps-lift _)
          (λ owned. Keeps-bind _ _ (activate-Keeps i (some p) owned n) (λ u. Keeps-pure tt))))

  deactivate_found-Keeps :
      (n : String) (r : Result ThinPoolLv)
      → Keeps env P (elim r [
        | err e ↦ lift (ignore_not_found e)
        | ok pool ↦ elim (find_thin_lv_spec pool (volume_to_thin_lv_name n)) [
          | none ↦ pure tt
          | some lv ↦ deactivate_thin_lv (some pool) pool n >>= λ u. pure tt
        ]
      ])
  deactivate_found-Keeps n (err e) = Keeps-lift _
  deactivate_found-Keeps n (ok p) =
      Keeps-elim_option (find_thin_lv_spec p (volume_to_thin_lv_name n)) _ _ (λ e. Keeps-pure tt)
        (λ lv e. Keeps-bind _ _ (deactivate-Keeps i (some p) p n) (λ u. Keeps-pure tt))

  deactivate_blob-Keeps : (pool n : String) → Keeps env P (deactivate_blob pool n)
  unfolding deactivate_blob
  deactivate_blob-Keeps pool n =
      Keeps-bind (try (get_pool pool)) _ (Keeps-try _ (get_pool-Keeps i pool))
        (deactivate_found-Keeps n)

  activate_on-Keeps : (pool n source : String) → Keeps env P (activate_on_source_node pool n source)
  unfolding activate_on_source_node
  activate_on-Keeps pool n source = Keeps-bind ask _ Keeps-ask (λ e.
      Keeps-bind (get_pool pool) _ (get_pool-Keeps i pool) (λ p.
        Keeps-bind (get_pool source) _ (get_pool-Keeps i source)
          (λ s. Keeps-bind _ _ (activate-Keeps i (some p) _ n) (λ u. Keeps-pure _))))

  activate_target-Keeps :
      (pool n : String) (d : Option (Option String)) → Keeps env P (activate_target pool n d)
  unfolding activate_target
  activate_target-Keeps pool n none = Keeps-pure ""
  activate_target-Keeps pool n (some none) =
      Keeps-bind (get_pool pool) _ (get_pool-Keeps i pool) (λ p. Keeps-throw _)
  activate_target-Keeps pool n (some (some source)) = activate_on-Keeps pool n source

  pub thin_blob_manager-Quiet : (vg pool : String) → Quiet env P (thin_blob_manager vg pool)
  unfolding thin_blob_manager
  thin_blob_manager-Quiet vg pool = record {
    create_blob = create_blob-Keeps vg;
    remove_blob = remove_blob-Keeps i pool;
    snapshot_blob = snapshot_blob-Keeps pool;
    activate_source = activate_source-Keeps pool;
    activate_target = activate_target-Keeps pool;
    deactivate_source = deactivate_blob-Keeps pool;
    deactivate_target = deactivate_blob-Keeps pool;
    get_size = get_size-Keeps pool;
  }
