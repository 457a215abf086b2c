-- ===== src/Csi/Client/Deletion.antt =====
-- What a deletion that is confirmed has seen.
use mathlib.Core.Path.{subst}
use kubesan.Prelude.{ℕ, zero, suc, ◌∷◌, true, ◌≡◌, ◌≢◌, refl, sym, ap, ◌∙◌, ◌⊎◌, inl, inr, Some}
use kubesan.Api.{Volume}
use kubesan.Exec.{
  Err, not_found, ok, err, Env, Event, Trace, Exec, got_volume, deleted_volume, pure, throw, lift,
  try, get_volume, delete_volume, ignore_not_found, ◌>>=◌,
}
use kubesan.Exec.Rules.{>>=-runs, Result-cases}
use kubesan.Csi.Client.{poll_until, until_gone, delete_volume_and_confirm}

-- the API server has answered that there is no such volume
abbrev pub IsMissing : Volume → Event → Type 0
IsMissing volume (got_volume name r) = (name ≡ volume.metadata.name) × (r ≡ err not_found)
IsMissing volume (deleted_volume deleted r) = (deleted ≡ volume) × (r ≡ err not_found)
IsMissing volume _ = ⊥

abbrev pub IsGone : Volume → Trace → Type 0
IsGone volume = Some (IsMissing volume)

err≢ok : {A : Type 0} {e : Err} {a : A} → err e ≡ ok a → ⊥
err≢ok h = cc

-- NotFound ends the wait, and any other error fails it
until_gone-cases :
    (e : Err)
    → ((e ≡ not_found) × (until_gone {A = Volume} (err e) ≡ ok true))
      ⊎ (until_gone {A = Volume} (err e) ≡ err e)
unfolding until_gone
until_gone-cases not_found = inl (refl, refl)
until_gone-cases e = inr refl

ignore_not_found-cases : (e : Err) → (e ≡ not_found) ⊎ (ignore_not_found e ≡ err e)
unfolding ignore_not_found
ignore_not_found-cases not_found = inl refl
ignore_not_found-cases e = inr refl

module _ (volume : Volume) (env : Env) where
  abbrev wait : ℕ → Volume → Exec Volume
  wait = poll_until (get_volume volume.metadata.name) until_gone

  wait-ended : (object found : Volume) (t : Trace) → (wait zero object env t).0 ≢ ok found
  unfolding poll_until throw
  wait-ended object found t done = err≢ok done

  wait-found :
      (polls : ℕ) (object found : Volume) (t : Trace)
      → env.get_volume t volume.metadata.name ≡ ok found
      → wait (suc polls) object env t
        ≡ wait polls found env (got_volume volume.metadata.name (ok found) ∷ t)
  unfolding poll_until until_gone try get_volume lift ◌>>=◌
  wait-found polls object found t h = rw h refl

  wait-missing :
      (polls : ℕ) (object : Volume) (t : Trace)
      → env.get_volume t volume.metadata.name ≡ err not_found
      → wait (suc polls) object env t
        ≡ (ok object, got_volume volume.metadata.name (err not_found) ∷ t)
  unfolding poll_until until_gone try get_volume lift pure ◌>>=◌
  wait-missing polls object t h = rw h refl

  wait-failed :
      (polls : ℕ) (object found : Volume) (t : Trace) (e : Err)
      → env.get_volume t volume.metadata.name ≡ err e
      → until_gone {A = Volume} (err e) ≡ err e
      → (wait (suc polls) object env t).0 ≢ ok found
  unfolding poll_until try get_volume lift ◌>>=◌
  wait-failed polls object found t e h failed done = err≢ok (rw (h, failed) at done)

  wait-IsGone :
      (polls : ℕ) (object found : Volume) (t : Trace)
      → (wait polls object env t).0 ≡ ok found
      → IsGone volume (wait polls object env t).1
  wait-IsGone zero object found t done = absurd (wait-ended object found t done)
  wait-IsGone (suc polls) object found t done =
      elim (Result-cases (env.get_volume t volume.metadata.name)) [
        | inl (read, h) ↦
            let goes_on = wait-found polls object read t h in
            subst (λ r. IsGone volume r.1) (sym goes_on)
              (wait-IsGone polls read found (got_volume volume.metadata.name (ok read) ∷ t)
                (ap (λ r. r.0) (sym goes_on) ∙ done))
        | inr (e, h) ↦ elim (until_gone-cases e) [
          | inl (missing, over) ↦
              subst (λ r. IsGone volume r.1)
                (sym (wait-missing polls object t (h ∙ ap (λ e'. err e') missing)))
                (inl (refl, refl))
          | inr failed ↦ absurd (wait-failed polls object found t e h failed done)
        ]
      ]

  confirm_not_found :
      (polls : ℕ) (t : Trace)
      → env.delete_volume t volume ≡ err not_found
      → IsGone volume (delete_volume_and_confirm polls volume env t).1
  unfolding delete_volume_and_confirm try delete_volume lift ◌>>=◌
  confirm_not_found polls t h = rw h (inl (refl, refl))

  confirm-failed :
      (polls : ℕ) (t : Trace) (e : Err) (u : Unit {0})
      → env.delete_volume t volume ≡ err e
      → ignore_not_found e ≡ err e
      → (delete_volume_and_confirm polls volume env t).0 ≢ ok u
  unfolding delete_volume_and_confirm try delete_volume lift ◌>>=◌
  confirm-failed polls t e u h failed done = err≢ok (rw (h, failed) at done)

  confirm-waits :
      (polls : ℕ) (t : Trace) (u : Unit {0})
      → env.delete_volume t volume ≡ ok u
      → delete_volume_and_confirm polls volume env t
        ≡ (wait polls volume >>= λ a. pure tt) env (deleted_volume volume (ok u) ∷ t)
  unfolding delete_volume_and_confirm try delete_volume ◌>>=◌
  confirm-waits polls t u h = rw h refl

-- A deletion that is confirmed has been told by the API server, by the deletion or by a later read,
-- that the volume does not exist.
pub delete_volume_and_confirm-IsGone :
    (polls : ℕ) (volume : Volume) (env : Env) (t : Trace) (u : Unit {0})
    → (delete_volume_and_confirm polls volume env t).0 ≡ ok u
    → IsGone volume (delete_volume_and_confirm polls volume env t).1
delete_volume_and_confirm-IsGone polls volume env t u done =
    elim (Result-cases (env.delete_volume t volume)) [
      | inl (accepted, h) ↦
          let t' : Trace = deleted_volume volume (ok accepted) ∷ t in
          let waits = confirm-waits volume env polls t accepted h in
          let (found, e, rest, run) =
            >>=-runs (wait volume env polls volume) (λ a. pure tt) env t' u
              (ap (λ r. r.0) (sym waits) ∙ done) in
          subst (λ r. IsGone volume r.1) (sym (waits ∙ run))
            (unfold pure in wait-IsGone volume env polls volume found t' e)
      | inr (e, h) ↦ elim (ignore_not_found-cases e) [
        | inl missing ↦ confirm_not_found volume env polls t (h ∙ ap (λ e'. err e') missing)
        | inr failed ↦ absurd (confirm-failed volume env polls t e u h failed done)
      ]
    ]
