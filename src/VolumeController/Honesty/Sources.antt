-- ===== src/VolumeController/Honesty/Sources.antt =====
-- The steps on a data source write no status.
use kubesan.Prelude.{String, List, Option, none, some, ◌≡◌, ◌==◌, string_eq}
use mathlib.Core.Path.{subst}
use kubesan.Prelude.Dict.{lookup}
use kubesan.Api.{Volume, VolumeMode, VolumeContentsType}
use kubesan.Exec.{Env, ok, get_volume, get_snapshot, lift, ask}
use kubesan.Exec.Rules.{
  Keeps, Keeps-bind, Keeps-bind_known, Keeps-pure, Keeps-throw, Keeps-lift, Keeps-if, Keeps-ask,
  Keeps-elim_option, Yields, Yields-bind, Yields-bind_known, Yields-pure, Yields-throw, Yields-lift,
  ok-injective,
}
use kubesan.Blobs.Manager.{BlobManager}
use kubesan.Blobs.Quiet.{Quiet}
use kubesan.Blobs.Quiet.Thin.{thin_blob_manager-Quiet}
use kubesan.Blobs.Quiet.Linear.{linear_blob_manager-Quiet}
use kubesan.VolumeController.{
  DataSource, volume_source, snapshot_source, get_data_source_blob, new_blob_manager,
  prepare_source, note_source, activate_data_source, drop_source, forget_source, deactivate_labeled,
  deactivate_data_source, population_node_label, clone_source_label, labels_of, source_pool,
}
use kubesan.VolumeController.Honesty.{WritesHonest, WritesHonest-IgnoresBlobs, update-Keeps}

module _ (env : Env) where
  volume_source-Keeps : (name : Option String) → Keeps env (WritesHonest env) (volume_source name)
  unfolding volume_source get_volume
  volume_source-Keeps none = Keeps-throw _
  volume_source-Keeps (some name) =
      Keeps-bind (get_volume name) _ (record { at = λ t h. h })
        (λ v.
          Keeps-bind (lift (new_blob_manager v v.spec.mode)) _ (Keeps-lift _) (λ m. Keeps-pure _))

  snapshot_source-Keeps :
      (name : Option String) → Keeps env (WritesHonest env) (snapshot_source name)
  unfolding snapshot_source get_snapshot
  snapshot_source-Keeps none = Keeps-throw _
  snapshot_source-Keeps (some name) =
      Keeps-bind (get_snapshot name) _ (record { at = λ t h. h }) (λ s. Keeps-pure _)

  source-Keeps :
      (v : Volume) (type : VolumeContentsType)
      → Keeps env (WritesHonest env) (get_data_source_blob v type)
  unfolding get_data_source_blob
  source-Keeps v VolumeContentsType.clone_volume = volume_source-Keeps _
  source-Keeps v VolumeContentsType.clone_snapshot = snapshot_source-Keeps _
  source-Keeps v VolumeContentsType.empty = Keeps-pure none
  source-Keeps v VolumeContentsType.other = Keeps-pure none

  -- the managers of a source call only pools and commands
  abbrev IsQuietSource : Option DataSource → Type 0
  IsQuietSource none = Unit
  IsQuietSource (some (m, name, pool)) = Quiet env (WritesHonest env) m

  pub new_blob_manager-Quiet :
      (v : Volume) (mode : VolumeMode) (m : BlobManager)
      → new_blob_manager v mode ≡ ok m
      → Quiet env (WritesHonest env) m
  unfolding new_blob_manager
  new_blob_manager-Quiet v VolumeMode.thin m h =
      subst (Quiet env (WritesHonest env)) (ok-injective h)
        (thin_blob_manager-Quiet (WritesHonest-IgnoresBlobs env) _ _)
  new_blob_manager-Quiet v VolumeMode.linear m h =
      subst (Quiet env (WritesHonest env)) (ok-injective h)
        (linear_blob_manager-Quiet (WritesHonest-IgnoresBlobs env) _)
  new_blob_manager-Quiet v VolumeMode.other m h = cc

  volume_source-IsQuiet : (name : Option String) → Yields env IsQuietSource (volume_source name)
  unfolding volume_source
  volume_source-IsQuiet none = Yields-throw _
  volume_source-IsQuiet (some name) = Yields-bind (get_volume name) _ (λ v.
      Yields-bind_known (lift (new_blob_manager v v.spec.mode)) _
        (λ m. new_blob_manager v v.spec.mode ≡ ok m) (Yields-lift _)
        (λ m e. Yields-pure _ (new_blob_manager-Quiet v v.spec.mode m e)))

  snapshot_source-IsQuiet : (name : Option String) → Yields env IsQuietSource (snapshot_source name)
  unfolding snapshot_source
  snapshot_source-IsQuiet none = Yields-throw _
  snapshot_source-IsQuiet (some name) =
      Yields-bind (get_snapshot name) _
        (λ s. Yields-pure _ (thin_blob_manager-Quiet (WritesHonest-IgnoresBlobs env) _ _))

  source-IsQuiet :
      (v : Volume) (type : VolumeContentsType)
      → Yields env IsQuietSource (get_data_source_blob v type)
  unfolding get_data_source_blob
  source-IsQuiet v VolumeContentsType.clone_volume = volume_source-IsQuiet _
  source-IsQuiet v VolumeContentsType.clone_snapshot = snapshot_source-IsQuiet _
  source-IsQuiet v VolumeContentsType.empty = Yields-pure none tt
  source-IsQuiet v VolumeContentsType.other = Yields-pure none tt

  prepare_source-Keeps :
      (v : Volume) (source : Option DataSource)
      → IsQuietSource source
      → Keeps env (WritesHonest env) (prepare_source v source)
  unfolding prepare_source
  prepare_source-Keeps v none q = Keeps-pure tt
  prepare_source-Keeps v (some (m, name, pool)) q =
      Keeps-bind (m.snapshot_blob _ _ _ _) _ (q.snapshot_blob _ _ _ _) (λ u. q.activate_source _ _)

  note_source-Keeps :
      (v : Volume) (node : String) (source : Option DataSource)
      → Keeps env (WritesHonest env) (note_source v node source)
  unfolding note_source
  note_source-Keeps v node source = Keeps-bind ask _ Keeps-ask (λ e.
      Keeps-elim_option (lookup (population_node_label e) (labels_of v)) _ _
        (λ x. update-Keeps env _) (λ n x. Keeps-pure v))

  module _ (m : BlobManager) (q : Quiet env (WritesHonest env) m) where
    pub activate-Keeps : (v : Volume) → Keeps env (WritesHonest env) (activate_data_source m v)
    unfolding activate_data_source
    activate-Keeps v =
        Keeps-bind_known (get_data_source_blob v v.spec.contents.contents_type) _
          (source-Keeps v v.spec.contents.contents_type)
          (λ t source read h.
            let quiet = (source-IsQuiet v v.spec.contents.contents_type).result t source read in
            (Keeps-bind (prepare_source v source) _ (prepare_source-Keeps v source quiet) (λ u.
                Keeps-bind (m.activate_blob_for_clone_target v.metadata.name (source_pool source)) _
                  (q.activate_target _ _)
                  (λ node.
                    Keeps-if (node == "") _ _ (λ e. Keeps-pure v)
                      (λ e. note_source-Keeps v node source)))).at
              _ h)

    drop_source-Keeps :
        (v : Volume) (pool : Option String) → Keeps env (WritesHonest env) (drop_source v pool)
    unfolding drop_source
    drop_source-Keeps v none = Keeps-pure tt
    drop_source-Keeps v (some pool) =
        let thin =
          thin_blob_manager-Quiet (WritesHonest-IgnoresBlobs env) {env = env} v.spec.vg_name pool in
        Keeps-bind _ _ (thin.deactivate_source _) (λ u. thin.remove_blob _ _)

    forget_source-Keeps :
        (v : Volume) (labels : List (String × String))
        → Keeps env (WritesHonest env) (forget_source v labels)
    unfolding forget_source
    forget_source-Keeps v labels = Keeps-bind ask _ Keeps-ask (λ e.
        Keeps-elim_option (lookup (population_node_label e) labels) _ _ (λ x. Keeps-pure v)
          (λ n x. update-Keeps env _))

    deactivate_labeled-Keeps :
        (v : Volume) (labels : Option (List (String × String)))
        → Keeps env (WritesHonest env) (deactivate_labeled v labels)
    unfolding deactivate_labeled
    deactivate_labeled-Keeps v none = Keeps-pure v
    deactivate_labeled-Keeps v (some labels) = Keeps-bind ask _ Keeps-ask (λ e.
        Keeps-bind (drop_source v (lookup (clone_source_label e) labels)) _ (drop_source-Keeps v _)
          (λ u. forget_source-Keeps v labels))

    pub deactivate-Keeps : (v : Volume) → Keeps env (WritesHonest env) (deactivate_data_source m v)
    unfolding deactivate_data_source
    deactivate-Keeps v =
        Keeps-bind (m.deactivate_blob_for_clone_target v.metadata.name) _ (q.deactivate_target _)
          (λ u. deactivate_labeled-Keeps v v.metadata.labels)
