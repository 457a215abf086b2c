-- ===== src/Csi/Volumes/Promises.antt =====
-- What the handlers for volumes promise when they report success.
use mathlib.Core.Path.{subst}
use kubesan.Prelude.{
  ℕ, String, ◌∷◌, Bool, true, false, ◌≡◌, ◌≢◌, refl, sym, ap, ◌∙◌, inl, inr, Bool-cases, ltb,
  length, arith,
}
use kubesan.Api.{Volume}
use kubesan.Exec.{
  Err, already_exists, Result, ok, err, Env, Trace, Exec, wrote_volume, create, pure, throw, lift,
  try, ask, get_volume, write_volume, ◌>>=◌,
}
use kubesan.Exec.Rules.{>>=-runs, ok-injective, Result-cases}
use kubesan.Csi.Client.{watch_volume_until}
use kubesan.Csi.Client.Waiting.{HasSeen, watch_volume_until-HasSeen}
use kubesan.Csi.Client.Deletion.{IsGone, delete_volume_and_confirm-IsGone}
use kubesan.Csi.Names.{safe_name}
use kubesan.Csi.Volumes.{CreateVolumeRequest, CreateVolumeResponse}
use kubesan.Csi.Volumes.Create.{
  Wanted, read_request, create_or_check, new_volume, validate_volume, check_message, is_available,
  create_volume,
}
use kubesan.Csi.Volumes.Change.{delete_unless_staged}

err≢ok : {A : Type 0} {e : Err} {a : A} → err e ≡ ok a → ⊥
err≢ok h = cc

module _ (same_block : Bool) (req : CreateVolumeRequest) (wanted : Wanted) (name : String)
    (env : Env) (t : Trace) where
  -- what comes of each answer to `Create`
  create_or_check-created :
      (volume : Volume)
      → env.write_volume t create (new_volume env wanted.spec name) ≡ ok volume
      → create_or_check same_block req wanted name env t
        ≡ (ok volume, wrote_volume create (new_volume env wanted.spec name) (ok volume) ∷ t)
  unfolding create_or_check ask try write_volume pure ◌>>=◌
  create_or_check-created volume h = rw h refl

  check : Volume → Result (Unit {0})
  check volume = check_message (
      validate_volume same_block false volume wanted.spec.size_bytes wanted.limit
        wanted.spec.contents req.capabilities req.parameters)

  checked : Exec Volume
  checked = get_volume name >>= λ volume. (lift (check volume) >>= λ u. pure volume)

  create_or_check-exists :
      env.write_volume t create (new_volume env wanted.spec name) ≡ err already_exists
      → create_or_check same_block req wanted name env t
        ≡ checked env
            (wrote_volume create (new_volume env wanted.spec name) (err already_exists) ∷ t)
  unfolding checked check create_or_check ask try write_volume ◌>>=◌
  create_or_check-exists h = rw h refl

  create_or_check-failed :
      (e : Err) (volume : Volume)
      → env.write_volume t create (new_volume env wanted.spec name) ≡ err e
      → (create_or_check same_block req wanted name env t).0 ≡ ok volume
      → e ≡ already_exists
  unfolding create_or_check ask try write_volume throw ◌>>=◌
  create_or_check-failed already_exists volume h done = refl
  create_or_check-failed e volume h done = absurd (err≢ok (rw h at done))

  get_volume-HasSeen :
      (volume : Volume) (t' : Trace)
      → (get_volume name env t').0 ≡ ok volume
      → HasSeen volume (get_volume name env t').1
  unfolding get_volume
  get_volume-HasSeen volume t' done = inl done

  pure-result : (a b : Volume) (t' : Trace) → (pure a env t').0 ≡ ok b → a ≡ b
  unfolding pure
  pure-result a b t' h = ok-injective h

  pass-HasSeen :
      (read volume : Volume) (t' : Trace)
      → HasSeen volume t'
      → HasSeen volume (pure read env (lift (check read) env t').1).1
  unfolding pure lift
  pass-HasSeen read volume t' h = h

  checked-HasSeen :
      (volume : Volume) (t' : Trace)
      → (checked env t').0 ≡ ok volume
      → HasSeen volume (checked env t').1
  unfolding checked
  checked-HasSeen volume t' done =
      let (read, e, rest, run) = >>=-runs (get_volume name) _ env t' volume done in
      let t₁ : Trace = (get_volume name env t').1 in
      let (u, passed, last, ran_check) = >>=-runs (lift (check read)) _ env t₁ volume rest in
      subst (λ r. HasSeen volume r.1) (sym (run ∙ ran_check))
        (pass-HasSeen read volume t₁ (
          subst (λ v. HasSeen v t₁) (pure-result read volume (lift (check read) env t₁).1 last)
            (get_volume-HasSeen read t' e)))

  create_or_check-HasSeen :
      (volume : Volume)
      → (create_or_check same_block req wanted name env t).0 ≡ ok volume
      → HasSeen volume (create_or_check same_block req wanted name env t).1
  create_or_check-HasSeen volume done =
      let asked : Volume = new_volume env wanted.spec name in
      elim (Result-cases (env.write_volume t create asked)) [
        | inl (stored, h) ↦
            let run = create_or_check-created stored h in
            subst (λ r. HasSeen volume r.1) (sym run) (inl (ap (λ r. r.0) (sym run) ∙ done))
        | inr (e, h) ↦
            let exists = create_or_check-failed e volume h done in
            let run = create_or_check-exists (h ∙ ap (λ e'. err e') exists) in
            subst (λ r. HasSeen volume r.1) (sym run)
              (checked-HasSeen volume (wrote_volume create asked (err already_exists) ∷ t)
                (ap (λ r. r.0) (sym run) ∙ done))
      ]

-- the last steps of the handler: the wait, and the answer
finish : ℕ → Volume → CreateVolumeResponse → Exec CreateVolumeResponse
finish polls volume answer =
    ask >>= λ env. (watch_volume_until polls (is_available env) volume >>= λ u. pure answer)

finish-HasSeen :
    (polls : ℕ) (volume : Volume) (answer response : CreateVolumeResponse) (env : Env) (t : Trace)
    → HasSeen volume t
    → (finish polls volume answer env t).0 ≡ ok response
    → (seen : Volume) × (answer ≡ response)
      × (is_available env seen ≡ true)
      × HasSeen seen (finish polls volume answer env t).1
unfolding finish ask ◌>>=◌ pure
finish-HasSeen polls volume answer response env t had done =
    let wait = watch_volume_until polls (is_available env) volume in
    let (seen, e, rest, run) = >>=-runs wait (λ u. pure answer) env t response done in
    let (available, answered) =
      watch_volume_until-HasSeen polls (is_available env) volume seen env t had e in
    (seen, ok-injective rest, available, subst (λ r. HasSeen seen r.1) (sym run) answered)

module _ (same_block : Bool) (polls : ℕ) (req : CreateVolumeRequest) (env : Env) (t : Trace) where
  -- what `CreateVolume` promises of its answer
  abbrev pub IsCreated : CreateVolumeResponse → Type 0
  IsCreated response =
      (wanted : Wanted) × (volume : Volume) × ((read_request same_block req env t).0 ≡ ok wanted)
      × (response.capacity_bytes ≡ wanted.spec.size_bytes)
      × (is_available env volume ≡ true)
      × HasSeen volume (create_volume same_block polls req env t).1

-- If `CreateVolume` succeeds, the request is valid, the answer has the capacity that was read off
-- it, and the API server has answered a read or a write with an available volume, however often
-- the handler had to poll.
pub create_volume_lem :
    (same_block : Bool) (polls : ℕ) (req : CreateVolumeRequest) (env : Env) (t : Trace)
    (response : CreateVolumeResponse)
    → (create_volume same_block polls req env t).0 ≡ ok response
    → IsCreated same_block polls req env t response
unfolding create_volume finish
create_volume_lem same_block polls req env t response done =
    let name : String = safe_name req.name "pvc" in
    let (wanted, e₁, rest₁, run₁) = >>=-runs (read_request same_block req) _ env t response done in
    let t₁ : Trace = (read_request same_block req env t).1 in
    let (volume, e₂, rest₂, run₂) =
      >>=-runs (create_or_check same_block req wanted name) _ env t₁ response rest₁ in
    let t₂ : Trace = (create_or_check same_block req wanted name env t₁).1 in
    let answer : CreateVolumeResponse = record {
      capacity_bytes = wanted.spec.size_bytes;
      volume_id = name;
      content_source = req.content_source;
    } in
    let (seen, answered, available, trace) =
      finish-HasSeen polls volume answer response env t₂
        (create_or_check-HasSeen same_block req wanted name env t₁ volume e₂) rest₂ in
    (
      wanted,
      seen,
      e₁,
      ap (λ a. a.capacity_bytes) (sym answered),
      available,
      subst (λ r. HasSeen seen r.1) (sym (run₁ ∙ run₂)) trace,
    )

-- a volume that is staged on a node is left alone
delete_unless_staged-staged :
    (polls : ℕ) (volume : Volume) (env : Env) (t : Trace) (u : Unit {0})
    → ltb 0 (length volume.spec.attach_to_nodes) ≡ true
    → (delete_unless_staged polls volume env t).0 ≢ ok u
unfolding delete_unless_staged throw
delete_unless_staged-staged polls volume env t u staged done = err≢ok (rw staged at done)

-- If the last step of `DeleteVolume` succeeds, the volume was staged on no node, and the API server has
-- answered, to the deletion or to a later read, that the volume does not exist.
pub delete_unless_staged-IsGone :
    (polls : ℕ) (volume : Volume) (env : Env) (t : Trace) (u : Unit {0})
    → (delete_unless_staged polls volume env t).0 ≡ ok u
    → (length volume.spec.attach_to_nodes ≡ 0)
      × IsGone volume (delete_unless_staged polls volume env t).1
unfolding delete_unless_staged
delete_unless_staged-IsGone polls volume env t u done =
    elim (Bool-cases (ltb 0 (length volume.spec.attach_to_nodes))) [
      | inl staged ↦ absurd (delete_unless_staged-staged polls volume env t u staged done)
      | inr free ↦ (
        ground arith,
        rw free (delete_volume_and_confirm-IsGone polls volume env t u (rw free at done)),
      )
    ]
