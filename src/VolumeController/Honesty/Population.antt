-- ===== src/VolumeController/Honesty/Population.antt =====
-- Population, and making the volume available.
use kubesan.Prelude.{
  Bool, true, false, not, ◌&&◌, ◌≡◌, ◌≢◌, refl, sym, ap, ◌∙◌, ◌==◌, string_eq, arith,
}
use kubesan.Api.{Volume, Condition}
use kubesan.Exec.{Env, write_volume, pure, ask, ◌>>=◌}
use kubesan.Exec.Rules.{
  Keeps, Keeps-bind, Keeps-bind_known, Keeps-pure, Keeps-if, Keeps-ask, Yields, Yields-bind_known,
  Yields-if, Yields-pure,
}
use kubesan.Blobs.Manager.{BlobManager}
use kubesan.Blobs.Quiet.{Quiet}
use kubesan.VolumeController.{
  activate_data_source, deactivate_data_source, status_update, with_condition, has_condition,
}
use kubesan.VolumeController.Creation.{
  populate, is_empty_contents, make_available, complete, completed, ready, not_abnormal, update_if,
}
use kubesan.VolumeController.Resize.{SetsConditions}
use kubesan.VolumeController.Honesty.{IsHonest, WritesHonest, KeepsStatus, IsHonest-status}
use kubesan.VolumeController.Honesty.Sources.{activate-Keeps, deactivate-Keeps}
use kubesan.VolumeController.Honesty.Status.{activate-status, deactivate-status}

module _ {env : Env} (k : KeepsStatus env) (s : SetsConditions env) (m : BlobManager)
    (q : Quiet env (WritesHonest env) m) where
  pub update_if-Keeps :
      (v : Volume) (changed : Bool)
      → IsHonest env v
      → Keeps env (WritesHonest env) (update_if (v, changed))
  unfolding update_if status_update write_volume
  update_if-Keeps v changed h =
      Keeps-if changed _ _ (λ e. record { at = λ t written. (h, written) }) (λ e. Keeps-pure v)

  -- a condition of another type leaves the two alone
  pub other_condition :
      (v : Volume) (c : Condition)
      → (c.type == "Available") ≡ false
      → (c.type == "DataSourceCompleted") ≡ false
      → IsHonest env v
      → IsHonest env (with_condition env v c).0
  unfolding with_condition
  other_condition v c a d h =
      rw
        (
          s.others v.status.conditions c "Available" a,
          s.others v.status.conditions c "DataSourceCompleted" d,
        )
        h

  -- completing a volume that is not available
  completed-IsHonest :
      (v : Volume)
      → has_condition env v "Available" ≢ true
      → IsHonest env (with_condition env v completed).0
  unfolding with_condition
  completed-IsHonest v h =
      rw (s.others v.status.conditions completed "Available" refl) (λ a. absurd (h a))

  ready-IsHonest :
      (v : Volume)
      → has_condition env v "DataSourceCompleted" ≡ true
      → IsHonest env (with_condition env (with_condition env v ready).0 not_abnormal).0
  unfolding with_condition
  ready-IsHonest v h =
      other_condition (with_condition env v ready).0 not_abnormal refl refl
        (λ a. s.others v.status.conditions ready "DataSourceCompleted" refl ∙ h)

  -- a volume, and whether it has changed
  abbrev pub IsHonestPair : Volume × Bool → Type 0
  IsHonestPair x = IsHonest env x.0

  not_available :
      (v : Volume)
      → IsHonest env v
      → has_condition env v "DataSourceCompleted" ≡ false
      → has_condition env v "Available" ≢ true
  not_available v h e a = true≢false (sym (h a) ∙ e)
    where
      true≢false : true ≢ false
      true≢false x = cc

  populate-IsHonest : (v : Volume) → IsHonest env v → Yields env IsHonestPair (populate m v)
  unfolding populate ask ◌>>=◌
  populate-IsHonest v h = record {
    result =
        (Yields-if (has_condition env v "DataSourceCompleted") _ _ (λ e. Yields-pure _ h)
          (λ e.
            Yields-bind_known (activate_data_source m v) _ (λ w. w.status ≡ v.status)
              (activate-status k v m)
              (λ w same.
                let honest = IsHonest-status env v w same h in
                Yields-if
                  (is_empty_contents w.spec.contents.contents_type
                    && not m.expansion_must_be_offline)
                  _ _
                  (λ x. Yields-pure _ (
                    completed-IsHonest w (λ a. not_available v h e (
                      ap (λ y. env.is_status_condition_true y.conditions "Available") (sym same)
                      ∙ a))))
                  (λ x. Yields-pure _ honest)))).result;
  }

  populate-Keeps : (v : Volume) → Keeps env (WritesHonest env) (populate m v)
  unfolding populate
  populate-Keeps v = Keeps-bind ask _ Keeps-ask (λ e.
      Keeps-if (has_condition e v "DataSourceCompleted") _ _ (λ x. Keeps-pure _)
        (λ x. Keeps-bind (activate_data_source m v) _ (activate-Keeps env m q v) (λ w.
          Keeps-if
            (is_empty_contents w.spec.contents.contents_type && not m.expansion_must_be_offline)
            (pure (with_condition e w completed)) (pure (w, false)) (λ y. Keeps-pure _)
            (λ y. Keeps-pure _))))

  make_available-IsHonest :
      (v : Volume) (changed : Bool)
      → IsHonest env v
      → Yields env IsHonestPair (make_available m v changed)
  unfolding make_available ask ◌>>=◌
  make_available-IsHonest v changed h = record {
    result =
        (Yields-if
          (not (has_condition env v "Available") && has_condition env v "DataSourceCompleted") _ _
          (λ e.
            Yields-bind_known (deactivate_data_source m v) _ (λ w. w.status ≡ v.status)
              (deactivate-status k v m)
              (λ w same. Yields-pure _ (
                ready-IsHonest w (
                  ap (λ y. env.is_status_condition_true y.conditions "DataSourceCompleted") same
                  ∙ and_right _ _ e))))
          (λ e. Yields-pure _ h)).result;
  }
    where
      and_right : (a b : Bool) → (a && b) ≡ true → b ≡ true
      and_right a b h = ground arith

  make_available-Keeps :
      (v : Volume) (changed : Bool) → Keeps env (WritesHonest env) (make_available m v changed)
  unfolding make_available
  make_available-Keeps v changed = Keeps-bind ask _ Keeps-ask (λ e.
      Keeps-if (not (has_condition e v "Available") && has_condition e v "DataSourceCompleted") _ _
        (λ x.
          Keeps-bind (deactivate_data_source m v) _ (deactivate-Keeps env m q v)
            (λ w. Keeps-pure _))
        (λ x. Keeps-pure _))

  pub complete-Keeps : (v : Volume) → IsHonest env v → Keeps env (WritesHonest env) (complete m v)
  unfolding complete
  complete-Keeps v h = Keeps-bind_known (populate m v) _ (populate-Keeps v) (λ t x e written.
      let honest = (populate-IsHonest v h).result t x e in
      (Keeps-bind_known (make_available m x.0 x.1) _ (make_available-Keeps x.0 x.1)
          (λ t' y e' written'.
            (Keeps-bind _ _
                (update_if-Keeps y.0 y.1 ((make_available-IsHonest x.0 x.1 honest).result t' y e'))
                (λ u. Keeps-pure tt)).at
              _ written')).at
        _ written)
