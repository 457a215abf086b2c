-- ===== src/VolumeController/Honesty/Lv.antt =====
-- The finalizer, and the LV.
use kubesan.Prelude.{Bool, ◌||◌, refl, Bool-cases, inl, inr, ltb}
use kubesan.Api.{Volume}
use kubesan.Exec.{Env, Verb, update, update_status, write_volume, ask, ◌>>=◌}
use kubesan.Exec.Rules.{
  Keeps, Keeps-bind, Keeps-bind_known, Keeps-pure, Keeps-if, Keeps-ask, Yields, Yields-bind,
  Yields-bind_known, Yields-if, Yields-pure,
}
use kubesan.ClusterPool.{finalizer}
use kubesan.Blobs.Manager.{BlobManager}
use kubesan.Blobs.Quiet.{Quiet}
use kubesan.VolumeController.{status_update, with_condition}
use kubesan.VolumeController.Creation.{
  ensure_finalizer, with_size, check_size, create_lv, lv_created, update_if,
}
use kubesan.VolumeController.Resize.{SetsConditions}
use kubesan.VolumeController.Honesty.{
  IsHonest, WritesHonest, KeepsStatus, IsHonest-status, update-Keeps,
}
use kubesan.VolumeController.Honesty.Population.{update_if-Keeps, other_condition, IsHonestPair}

module _ {env : Env} (k : KeepsStatus env) (s : SetsConditions env) (m : BlobManager)
    (q : Quiet env (WritesHonest env) m) where
  write-IsHonest :
      (verb : Verb) (v : Volume) → IsHonest env v → Yields env (IsHonest env) (write_volume verb v)
  unfolding write_volume
  write-IsHonest verb v h = record {
    result = λ t w stored. IsHonest-status env v w (k.same t verb v w stored) h;
  }

  update_if-IsHonest :
      (v : Volume) (changed : Bool)
      → IsHonest env v
      → Yields env (IsHonest env) (update_if (v, changed))
  unfolding update_if status_update
  update_if-IsHonest v changed h =
      Yields-if changed _ _
        (λ e.
          write-IsHonest update_status
            (record v { status = record v.status { observed_generation = v.metadata.generation } })
            h)
        (λ e. Yields-pure v h)

  -- the volume with the path of its blob
  abbrev placed : Volume → Volume
  placed v = record v { status = record v.status { path = m.get_path v.metadata.name } }

  check_size-IsHonest :
      (v : Volume) (online : Bool)
      → IsHonest env v
      → Yields env (IsHonestPair k s m q) (check_size m v online)
  unfolding check_size with_size
  check_size-IsHonest v online h =
      Yields-if (m.size_needs_check online) _ _
        (λ e. Yields-bind (m.get_size v.metadata.name) _ (λ size.
          Yields-pure _ (elim (Bool-cases (ltb v.status.size_bytes size)) [
            | inl grown ↦ rw grown h
            | inr same ↦ rw same h
          ])))
        (λ e. Yields-pure _ h)

  check_size-Keeps :
      (v : Volume) (online : Bool) → Keeps env (WritesHonest env) (check_size m v online)
  unfolding check_size
  check_size-Keeps v online =
      Keeps-if (m.size_needs_check online) _ _
        (λ e. Keeps-bind (m.get_size v.metadata.name) _ (q.get_size _) (λ size. Keeps-pure _))
        (λ e. Keeps-pure _)

  pub ensure_finalizer-IsHonest :
      (v : Volume) → IsHonest env v → Yields env (IsHonest env) (ensure_finalizer v)
  unfolding ensure_finalizer ask ◌>>=◌
  ensure_finalizer-IsHonest v h = record {
    result =
        (Yields-if (env.add_finalizer v.metadata (finalizer env.domain)).1 _ _
          (λ e.
            write-IsHonest update
              (record v { metadata = (env.add_finalizer v.metadata (finalizer env.domain)).0 }) h)
          (λ e. Yields-pure v h)).result;
  }

  pub ensure_finalizer-Keeps : (v : Volume) → Keeps env (WritesHonest env) (ensure_finalizer v)
  unfolding ensure_finalizer
  ensure_finalizer-Keeps v = Keeps-bind ask _ Keeps-ask (λ e.
      Keeps-if (e.add_finalizer v.metadata (finalizer e.domain)).1 _ _ (λ x. update-Keeps env _)
        (λ x. Keeps-pure v))

  pub create_lv-IsHonest :
      (v : Volume) (online : Bool)
      → IsHonest env v
      → Yields env (IsHonest env) (create_lv m v online)
  unfolding create_lv ask ◌>>=◌
  create_lv-IsHonest v online h = record {
    result =
        (Yields-bind
          (m.create_blob v.metadata.name v.spec.binding v.spec.size_bytes v.metadata.name) _
          (λ u.
            Yields-bind_known (check_size m (placed v) online) _ (IsHonestPair k s m q)
              (check_size-IsHonest (placed v) online h)
              (λ x honest.
                update_if-IsHonest (with_condition env x.0 lv_created).0
                  (x.1 || (with_condition env x.0 lv_created).1)
                  (other_condition k s m q x.0 lv_created refl refl honest)))).result;
  }

  pub create_lv-Keeps :
      (v : Volume) (online : Bool)
      → IsHonest env v
      → Keeps env (WritesHonest env) (create_lv m v online)
  unfolding create_lv ask ◌>>=◌
  create_lv-Keeps v online h = record {
    at =
        (Keeps-bind (m.create_blob v.metadata.name v.spec.binding v.spec.size_bytes v.metadata.name)
          _ (q.create_blob _ _ _ _)
          (λ u.
            Keeps-bind_known (check_size m (placed v) online) _ (check_size-Keeps (placed v) online)
              (λ t x e.
                (update_if-Keeps k s m q (with_condition env x.0 lv_created).0
                    (x.1 || (with_condition env x.0 lv_created).1)
                    (other_condition k s m q x.0 lv_created refl refl
                      ((check_size-IsHonest (placed v) online h).result t x e))).at
                  _))).at;
  }
