-- ===== src/Csi/Node/Attachment.antt =====
-- What `NodeStageVolume` does before and after the volume is attached to the node.
use kubesan.Prelude.{
  ℕ, zero, suc, String, List, [], ◌∷◌, Option, none, some, Bool, true, ◌≡◌, refl, sym, ◌∙◌, inl,
  inr, string_eq, Bool-cases,
}
use mathlib.Core.Path.{subst}
use kubesan.Slices.{contains}
use kubesan.Api.{Volume}
use kubesan.Exec.{
  Env, Err, Trace, Exec, Result, ok, err, conflict, not_found, FileOp, remove_file, symlink,
  did_file, do_file, get_volume, write_volume, pure, throw, lift, try, ask, ◌>>=◌,
}
use kubesan.Exec.Rules.{
  Keeps, Keeps-bind, Keeps-bind_known, Keeps-pure, Keeps-throw, Keeps-lift, Keeps-try, keeps_rules,
  >>=-runs, >>=-ok, >>=-err, Result-cases, ok-injective,
}
use kubesan.Csi.{AccessType}
use kubesan.Csi.Names.{validate_id, validate_volume_context, validate_volume_capability}
use kubesan.Csi.Client.{watch_volume_until}
use kubesan.Csi.Client.Waiting.{HasSeen, watch_volume_until-HasSeen}
use kubesan.Csi.Volumes.Change.{retry_on_conflict}
use kubesan.Csi.Node.Traces.{
  KeepsVolumes, retry_on_conflict-Keeps, file-Keeps, or_internal-Keeps, watch-Keeps,
  get_existing-Keeps, write-Keeps, validate_id-Keeps, check_path-Keeps,
}
use kubesan.Csi.Node.{
  StageRequest, capability_of, get_existing, request_attach, attach_round, is_attached, check_path,
  format_and_mount, remove_if_there, link_to, prepare_target, node_stage_volume,
}

-- the API server has answered with a volume that is attached to this node
abbrev pub IsSeenAttached : Env → Trace → Type 0
IsSeenAttached env t = (v : Volume) × (is_attached env v ≡ true) × HasSeen v t

-- each file operation comes when the volume is attached
abbrev pub AttachesFirst : Env → Trace → Type 0
AttachesFirst env [] = Unit
AttachesFirst env (did_file op r ∷ t) = IsSeenAttached env t × AttachesFirst env t
AttachesFirst env (_ ∷ t) = AttachesFirst env t

AttachesFirst-KeepsVolumes : (env : Env) → KeepsVolumes (AttachesFirst env)
AttachesFirst-KeepsVolumes env = record { on_get = λ n r t h. h; on_write = λ verb v r t h. h }

-- the same, and a volume is attached by now
abbrev IsHandedOver : Env → Trace → Type 0
IsHandedOver env t = IsSeenAttached env t × AttachesFirst env t

module _ (env : Env) where
  IsHandedOver-step :
      (op : FileOp) (t : Trace)
      → IsHandedOver env t
      → IsHandedOver env (did_file op (env.file_op t op) ∷ t)
  IsHandedOver-step op t ((v, attached, seen), h) =
      ((v, attached, inr seen), ((v, attached, seen), h))

  remove_if_there-Keeps : (path : String) → Keeps env (IsHandedOver env) (remove_if_there path)
  unfolding remove_if_there
  remove_if_there-Keeps path =
      Keeps-bind (try (do_file (remove_file path))) _
        (Keeps-try _ (file-Keeps IsHandedOver-step (remove_file path))) removed
    where
      removed :
          (r : Result Bool)
          → Keeps env
              (IsHandedOver env)
              (elim r [ ok b ↦ pure tt | err not_found ↦ pure tt | err e ↦ throw e ])
      removed (ok b) = Keeps-pure tt
      removed (err not_found) = Keeps-pure tt
      removed (err e) = Keeps-throw e

  link_to-Keeps : (source target : String) → Keeps env (IsHandedOver env) (link_to source target)
  unfolding link_to
  link_to-Keeps source target =
      Keeps-bind (remove_if_there target) _ (remove_if_there-Keeps target) (λ u.
        Keeps-bind (do_file (symlink source target)) _ (file-Keeps IsHandedOver-step _)
          (λ b. Keeps-pure tt))

  format-Keeps :
      (source target fs_type : String) (flags : List String)
      → Keeps env (IsHandedOver env) (format_and_mount source target fs_type flags)
  unfolding format_and_mount
  format-Keeps source target fs_type flags =
      search (keeps_rules, file-Keeps IsHandedOver-step, or_internal-Keeps IsHandedOver-step) depth
        12

  prepare-Keeps :
      (v : Volume) (target : String) (type : AccessType)
      → Keeps env (IsHandedOver env) (prepare_target v target type)
  unfolding prepare_target
  prepare-Keeps v target (AccessType.mount fs_type flags) = format-Keeps _ target fs_type flags
  prepare-Keeps v target AccessType.block = link_to-Keeps _ target
  prepare-Keeps v target AccessType.unset = link_to-Keeps _ target

-- a step that returns a volume has seen it
abbrev Sees : Env → Exec Volume → Type 0
Sees env m = (t : Trace) (v : Volume) → (m env t).0 ≡ ok v → HasSeen v (m env t).1

module _ (env : Env) where
  get_existing-Sees : (name message : String) → Sees env (get_existing name message)
  unfolding get_existing get_volume try pure throw ◌>>=◌
  get_existing-Sees name message t v h = seen (env.get_volume t name) refl
    where
      no_volume : {e : Err} → ◌≡◌ {A = Result Volume} (err e) (ok v) → ⊥
      no_volume x = cc

      seen :
          (r : Result Volume)
          → env.get_volume t name ≡ r
          → HasSeen v (get_existing name message env t).1
      seen (ok w) answered = let same : ok w ≡ ok v = rw answered at h in rw answered (inl same)
      seen (err not_found) failed = absurd (no_volume (rw failed at h))
      seen (err e) failed = absurd (no_volume (rw failed at h))

  request_attach-HasSeen :
      (v w : Volume) (d : Option ℕ) (t : Trace)
      → HasSeen v t
      → (request_attach v d env t).0 ≡ ok w
      → HasSeen w (request_attach v d env t).1
  unfolding request_attach ask write_volume pure throw ◌>>=◌
  request_attach-HasSeen v w (some when) t seen h = absurd (no_volume h)
    where
      no_volume : {e : Err} → ◌≡◌ {A = Result Volume} (err e) (ok w) → ⊥
      no_volume x = cc
  request_attach-HasSeen v w none t seen h =
      elim (Bool-cases (contains v.spec.attach_to_nodes env.local_node_name)) [
        | inl there ↦
            let same : ok v ≡ ok w = rw there at h in
            rw there (subst (λ x. HasSeen x t) (ok-injective same) seen)
        | inr missing ↦ let stored = rw missing at h in rw missing (inl stored)
      ]

  attach_round-Sees : (name : String) → Sees env (attach_round name)
  unfolding attach_round
  attach_round-Sees name t w h =
      let (v, found, rest, runs) =
        >>=-runs (get_existing name "volume does not exist")
          (λ v. request_attach v v.metadata.deletion_timestamp) env t w h in
      subst (λ x. HasSeen w x.1) (sym runs)
        (request_attach-HasSeen v w v.metadata.deletion_timestamp _
          (get_existing-Sees name _ t v found) rest)

  retry-Sees : (retries : ℕ) (m : Exec Volume) → Sees env m → Sees env (retry_on_conflict retries m)
  unfolding retry_on_conflict try pure throw ◌>>=◌
  retry-Sees zero m s t v h = s t v h
  retry-Sees (suc retries) m s t v h =
      sees (m env t).0 refl (λ t' h'. retry-Sees retries m s t' v h')
    where
      no_volume : {e : Err} → ◌≡◌ {A = Result Volume} (err e) (ok v) → ⊥
      no_volume x = cc

      sees :
          (r : Result Volume)
          → (m env t).0 ≡ r
          → ((t' : Trace)
              → (retry_on_conflict retries m env t').0 ≡ ok v
              → HasSeen v (retry_on_conflict retries m env t').1)
          → HasSeen v (retry_on_conflict (suc retries) m env t).1
      sees (ok w) answered again =
          let same : ok w ≡ ok v = rw answered at h in rw answered (s t v (answered ∙ same))
      sees (err conflict) failed again = rw failed (again (m env t).1 (rw failed at h))
      sees (err e) failed again = absurd (no_volume (rw failed at h))

  -- from the first round on
  abbrev attaching : ℕ → StageRequest → Exec (Unit {0})
  attaching polls req = do
    volume ← retry_on_conflict 4 (attach_round req.volume_id)
    attached ← watch_volume_until polls (is_attached env) volume
    prepare_target attached req.staging_target_path (capability_of req.capability).access_type

  request_attach-Keeps :
      (v : Volume) (d : Option ℕ) → Keeps env (AttachesFirst env) (request_attach v d)
  unfolding request_attach
  request_attach-Keeps v (some when) = Keeps-throw _
  request_attach-Keeps v none = search (keeps_rules, write-Keeps (AttachesFirst-KeepsVolumes env))

  attach_round-Keeps : (name : String) → Keeps env (AttachesFirst env) (attach_round name)
  unfolding attach_round
  attach_round-Keeps name =
      Keeps-bind (get_existing name _) _
        (get_existing-Keeps (AttachesFirst-KeepsVolumes env) name _)
        (λ v. request_attach-Keeps v v.metadata.deletion_timestamp)

  -- what follows the wait
  abbrev hand_over : StageRequest → Volume → Exec (Unit {0})
  hand_over req v =
      prepare_target v req.staging_target_path (capability_of req.capability).access_type

  -- a wait that fails ends the handler, and one that succeeds has seen the volume attached
  waited :
      (polls : ℕ) (req : StageRequest) (v : Volume) (t : Trace)
      → HasSeen v t
      → AttachesFirst env t
      → AttachesFirst env ((watch_volume_until polls (is_attached env) v >>= hand_over req) env t).1
  waited polls req v t seen h =
      let watch : Exec Volume = watch_volume_until polls (is_attached env) v in
      let kept =
        (watch-Keeps (AttachesFirst-KeepsVolumes env) {env = env} polls (is_attached env) v).at t
          h in
      elim (Result-cases (watch env t).0) [
        | inl (w, watched) ↦
            let (met, seen') =
              watch_volume_until-HasSeen polls (is_attached env) v w env t seen watched in
            subst (λ x. AttachesFirst env x.1) (sym (>>=-ok watch (hand_over req) env t w watched))
              ((prepare-Keeps env w req.staging_target_path
                  (capability_of req.capability).access_type).at
                (watch env t).1 ((w, met, seen'), kept)).1
        | inr (e, failed) ↦
            subst (λ x. AttachesFirst env x.1) (sym (>>=-err watch (hand_over req) env t e failed))
              kept
      ]

  attaching-Keeps :
      (polls : ℕ) (req : StageRequest) → Keeps env (AttachesFirst env) (attaching polls req)
  attaching-Keeps polls req =
      Keeps-bind_known (retry_on_conflict 4 (attach_round req.volume_id)) _
        (retry_on_conflict-Keeps 4 _ (attach_round-Keeps req.volume_id))
        (λ t v read h.
          waited polls req v (retry_on_conflict 4 (attach_round req.volume_id) env t).1
            (retry-Sees 4 (attach_round req.volume_id) (attach_round-Sees req.volume_id) t v read)
            h)

  -- `NodeStageVolume` touches files, which is how it hands a volume over, only after the API server has
  -- answered with a volume that is attached to this node.
  pub node_stage_volume-AttachesFirst :
      (polls : ℕ) (req : StageRequest) → AttachesFirst env (node_stage_volume polls req env []).1
  unfolding node_stage_volume ask ◌>>=◌
  node_stage_volume-AttachesFirst polls req =
      (Keeps-bind {env = env} {P = AttachesFirst env} (validate_id req.volume_id "volume") _
          (validate_id-Keeps req.volume_id "volume")
          (λ u.
            Keeps-bind (lift (validate_volume_context req.publish_context)) _ (Keeps-lift _) (λ v.
              Keeps-bind (check_path req.staging_target_path _) _ (check_path-Keeps _ _) (λ w.
                Keeps-bind (lift (validate_volume_capability (capability_of req.capability))) _
                  (Keeps-lift _) (λ x. attaching-Keeps polls req))))).at
        [] tt
