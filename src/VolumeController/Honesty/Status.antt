-- ===== src/VolumeController/Honesty/Status.antt =====
-- The steps on a data source leave the status of the volume alone.
use kubesan.Prelude.{String, List, Option, none, some, ◌≡◌, refl, ◌==◌, string_eq}
use kubesan.Prelude.Dict.{lookup}
use kubesan.Api.{Volume}
use kubesan.Exec.{Env, update, write_volume, ask}
use kubesan.Exec.Rules.{Yields, Yields-bind, Yields-if, Yields-pure, Yields-elim_option}
use kubesan.Blobs.Manager.{BlobManager}
use kubesan.VolumeController.{
  DataSource, get_data_source_blob, prepare_source, note_source, activate_data_source, drop_source,
  forget_source, deactivate_labeled, deactivate_data_source, population_node_label,
  clone_source_label, labels_of, source_pool,
}
use kubesan.VolumeController.Honesty.{KeepsStatus}

-- what the source's steps return has the status of what they were given
module _ {env : Env} (k : KeepsStatus env) (v : Volume) where
  abbrev IsSameStatus : Volume → Type 0
  IsSameStatus w = w.status ≡ v.status

  forget_source-status :
      (labels : List (String × String)) → Yields env IsSameStatus (forget_source v labels)
  unfolding forget_source write_volume
  forget_source-status labels = Yields-bind ask _ (λ e.
      Yields-elim_option (lookup _ labels) _ _ (Yields-pure v refl)
        (λ n. record { result = λ t a h. k.same t update _ a h }))

  deactivate_labeled-status :
      (labels : Option (List (String × String)))
      → Yields env IsSameStatus (deactivate_labeled v labels)
  unfolding deactivate_labeled
  deactivate_labeled-status none = Yields-pure v refl
  deactivate_labeled-status (some labels) = Yields-bind ask _ (λ e.
      Yields-bind (drop_source v (lookup (clone_source_label e) labels)) _
        (λ u. forget_source-status labels))

  pub deactivate-status : (m : BlobManager) → Yields env IsSameStatus (deactivate_data_source m v)
  unfolding deactivate_data_source
  deactivate-status m =
      Yields-bind (m.deactivate_blob_for_clone_target v.metadata.name) _
        (λ u. deactivate_labeled-status v.metadata.labels)

  note_source-status :
      (node : String) (source : Option DataSource)
      → Yields env IsSameStatus (note_source v node source)
  unfolding note_source write_volume
  note_source-status node source = Yields-bind ask _ (λ e.
      Yields-elim_option (lookup (population_node_label e) (labels_of v)) _ _
        (record { result = λ t a h. k.same t update _ a h }) (λ n. Yields-pure v refl))

  pub activate-status : (m : BlobManager) → Yields env IsSameStatus (activate_data_source m v)
  unfolding activate_data_source
  activate-status m =
      Yields-bind (get_data_source_blob v v.spec.contents.contents_type) _ (λ source.
        Yields-bind (prepare_source v source) _ (λ u.
          Yields-bind (m.activate_blob_for_clone_target v.metadata.name (source_pool source)) _
            (λ node.
              Yields-if (node == "") _ _ (λ e. Yields-pure v refl)
                (λ e. note_source-status node source))))
