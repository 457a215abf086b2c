-- ===== src/Csi/Client/Waiting.antt =====
-- What a wait that succeeds has seen.
use mathlib.Core.Path.{subst}
use kubesan.Prelude.{
  ℕ, zero, suc, String, ◌∷◌, Bool, true, ◌≡◌, ◌≢◌, refl, sym, ap, ◌∙◌, inl, inr, Some, Bool-cases,
  if◌then◌else◌,
}
use kubesan.Api.{Volume}
use kubesan.Exec.{
  Err, ok, err, Env, Event, Trace, got_volume, wrote_volume, pure, throw, lift, try, get_volume,
  ignore_not_found, ◌>>=◌,
}
use kubesan.Exec.Rules.{ok-injective, Result-cases}
use kubesan.Csi.Client.{poll_until, until, not_done, watch_volume_until}

-- the API server has answered a read or a write with this volume
abbrev pub IsAnswer : Volume → Event → Type 0
IsAnswer volume (got_volume name r) = r ≡ ok volume
IsAnswer volume (wrote_volume verb written r) = r ≡ ok volume
IsAnswer volume _ = ⊥

abbrev pub HasSeen : Volume → Trace → Type 0
HasSeen volume = Some (IsAnswer volume)

err≢ok : {A : Type 0} {e : Err} {a : A} → err e ≡ ok a → ⊥
err≢ok h = cc

module _ (condition : Volume → Bool) (name : String) (env : Env) where
  -- one round of the wait, on each answer
  poll-found :
      (polls : ℕ) (object found : Volume) (t : Trace)
      → env.get_volume t name ≡ ok found
      → poll_until (get_volume name) (until condition) (suc polls) object env t ≡ (
          if condition found
          then (ok found, got_volume name (ok found) ∷ t)
          else poll_until
              (get_volume name)
              (until condition)
              polls
              found
              env
              (got_volume name (ok found) ∷ t))
  unfolding poll_until until try get_volume lift pure ◌>>=◌
  poll-found polls object found t h = elim (Bool-cases (condition found)) [
    | inl met ↦ rw (h, met) refl
    | inr unmet ↦ rw (h, unmet) refl
  ]

  poll-missing :
      (polls : ℕ) (object : Volume) (t : Trace) (e : Err) (u : Unit {0})
      → env.get_volume t name ≡ err e
      → ignore_not_found e ≡ ok u
      → poll_until (get_volume name) (until condition) (suc polls) object env t
        ≡ poll_until
            (get_volume name)
            (until condition)
            polls
            object
            env
            (got_volume name (err e) ∷ t)
  unfolding poll_until until not_done try get_volume lift pure ◌>>=◌
  poll-missing polls object t e u h ignored = rw (h, ignored) refl

  poll-failed :
      (polls : ℕ) (object found : Volume) (t : Trace) (e e' : Err)
      → env.get_volume t name ≡ err e
      → ignore_not_found e ≡ err e'
      → (poll_until (get_volume name) (until condition) (suc polls) object env t).0 ≢ ok found
  unfolding poll_until until not_done try get_volume lift pure ◌>>=◌
  poll-failed polls object found t e e' h error done = err≢ok (rw (h, error) at done)

  poll-ended :
      (object found : Volume) (t : Trace)
      → (poll_until (get_volume name) (until condition) zero object env t).0 ≢ ok found
  unfolding poll_until throw
  poll-ended object found t done = err≢ok done

  poll-seen :
      (polls : ℕ) (object seen : Volume) (t : Trace)
      → (poll_until (get_volume name) (until condition) polls object env t).0 ≡ ok seen
      → (condition seen ≡ true)
        × HasSeen seen (poll_until (get_volume name) (until condition) polls object env t).1
  poll-seen zero object seen t done = absurd (poll-ended object seen t done)
  poll-seen (suc polls) object seen t done = elim (Result-cases (env.get_volume t name)) [
    | inl (found, h) ↦
        let run = poll-found polls object found t h in
        elim (Bool-cases (condition found)) [
          | inl met ↦
              let ended : poll_until (get_volume name) (until condition) (suc polls) object env t
                  ≡ (ok found, got_volume name (ok found) ∷ t) =
                rw met at run in
              let same : found ≡ seen = ok-injective (ap (λ r. r.0) (sym ended) ∙ done) in
              (
                subst (λ v. condition v ≡ true) same met,
                subst (λ r. HasSeen seen r.1) (sym ended) (inl (ap ok same)),
              )
          | inr unmet ↦
              let goes_on : poll_until (get_volume name) (until condition) (suc polls) object env t
                  ≡ poll_until (get_volume name) (until condition) polls found env
                      (got_volume name (ok found) ∷ t) =
                rw unmet at run in
              let (met, answered) =
                poll-seen polls found seen (got_volume name (ok found) ∷ t)
                  (ap (λ r. r.0) (sym goes_on) ∙ done) in
              (met, subst (λ r. HasSeen seen r.1) (sym goes_on) answered)
        ]
    | inr (e, h) ↦ elim (Result-cases (ignore_not_found e)) [
      | inl (u, ignored) ↦
          let goes_on = poll-missing polls object t e u h ignored in
          let (met, answered) =
            poll-seen polls object seen (got_volume name (err e) ∷ t)
              (ap (λ r. r.0) (sym goes_on) ∙ done) in
          (met, subst (λ r. HasSeen seen r.1) (sym goes_on) answered)
      | inr (e', error) ↦ absurd (poll-failed polls object seen t e e' h error done)
    ]
  ]

-- If the API server has answered with the volume that a wait starts from, and the wait succeeds, it
-- returns a volume that meets the condition, and that the API server has answered with.
pub watch_volume_until-HasSeen :
    (polls : ℕ) (condition : Volume → Bool) (volume seen : Volume) (env : Env) (t : Trace)
    → HasSeen volume t
    → (watch_volume_until polls condition volume env t).0 ≡ ok seen
    → (condition seen ≡ true) × HasSeen seen (watch_volume_until polls condition volume env t).1
unfolding watch_volume_until
watch_volume_until-HasSeen polls condition volume seen env t had done =
    elim (Bool-cases (condition volume)) [
      | inl met ↦
          let same : volume ≡ seen = ok-injective (unfold pure in rw met at done) in
          rw met (
            unfold pure in
            (subst (λ v. condition v ≡ true) same met, subst (λ v. HasSeen v t) same had))
      | inr unmet ↦
          rw unmet
            (poll-seen condition volume.metadata.name env polls volume seen t (rw unmet at done))
    ]
