-- ===== src/SnapshotController/Source.antt =====
-- What is read of the source of a snapshot before a status is written.
use kubesan.Prelude.{
  ℕ, String, [], ◌∷◌, Option, none, some, true, ◌≡◌, refl, sym, ◌⊎◌, inl, inr, Bool-cases,
}
use mathlib.Core.Path.{subst}
use kubesan.Api.{Volume, Snapshot}
use kubesan.Exec.{
  Env, Trace, Exec, Result, ok, err, watch_pending, update, update_status, got_volume,
  wrote_snapshot, get_volume, get_snapshot, write_snapshot, pure, throw, lift, try, ask,
  ignore_not_found, ◌>>=◌, ◌>>◌,
}
use kubesan.Exec.Rules.{
  Keeps, Keeps-bind, Keeps-bind_known, Keeps-pure, Keeps-lift, Keeps-try, Keeps-if, Keeps-ask,
  keeps_rules,
}
use kubesan.Blobs.Manager.{BlobManager, thin_blob_manager}
use kubesan.Blobs.Quiet.{IgnoresBlobs, Quiet}
use kubesan.Blobs.Quiet.Thin.{thin_blob_manager-Quiet}
use kubesan.VolumeController.Creation.{swallow_wait}
use kubesan.SnapshotController.{
  status_update, ensure_finalizer, drop_finalizer, reconcile_deleting, check_source, with_blob,
  create_snapshot_blob, create_if_needed, end_reconcile, reconcile_snapshot, reconcile,
}

-- the volume is there to stay, and available
abbrev pub IsUsable : Env → Volume → Type 0
IsUsable env v =
    (v.metadata.deletion_timestamp ≡ none)
    × (env.is_status_condition_true v.status.conditions "Available" ≡ true)

-- the volume of the name was read, and was usable
abbrev pub HasRead : Env → String → Trace → Type 0
HasRead env name [] = ⊥
HasRead env name (got_volume n r ∷ t) =
    ((n ≡ name) × (v : Volume) × (r ≡ ok v) × IsUsable env v) ⊎ HasRead env name t
HasRead env name (_ ∷ t) = HasRead env name t

-- each status of a snapshot is written after its source was read and was usable
abbrev pub IsSourced : Env → Trace → Type 0
IsSourced env [] = Unit
IsSourced env (wrote_snapshot update_status s r ∷ t) =
    HasRead env s.spec.source_volume t × IsSourced env t
IsSourced env (_ ∷ t) = IsSourced env t

IsSourced-IgnoresBlobs : (env : Env) → IgnoresBlobs (IsSourced env)
IsSourced-IgnoresBlobs env = record {
  on_get = λ n r t h. h;
  on_write = λ v p r t h. h;
  on_delete = λ p r t h. h;
  on_command = λ c e t h. h;
}

-- the source is read by now
abbrev IsReady : Env → String → Trace → Type 0
IsReady env source t = HasRead env source t × IsSourced env t

IsReady-IgnoresBlobs : (env : Env) (source : String) → IgnoresBlobs (IsReady env source)
IsReady-IgnoresBlobs env source = record {
  on_get = λ n r t h. h;
  on_write = λ v p r t h. h;
  on_delete = λ p r t h. h;
  on_command = λ c e t h. h;
}

check_source-trace :
    (v : Volume) (d : Option ℕ) (env : Env) (t : Trace) → (check_source v d env t).1 ≡ t
unfolding check_source ask pure throw ◌>>=◌
check_source-trace v (some when) env t = refl
check_source-trace v none env t =
    elim (Bool-cases (env.is_status_condition_true v.status.conditions "Available")) [
      | inl available ↦ rw available refl
      | inr waiting ↦ rw waiting refl
    ]

check_source-IsUsable :
    (v : Volume) (d : Option ℕ) (env : Env) (t : Trace) (u : Unit {0})
    → (check_source v d env t).0 ≡ ok u
    → (d ≡ none) × (env.is_status_condition_true v.status.conditions "Available" ≡ true)
unfolding check_source ask pure throw ◌>>=◌
check_source-IsUsable v (some when) env t u h = cc
check_source-IsUsable v none env t u h =
    elim (Bool-cases (env.is_status_condition_true v.status.conditions "Available")) [
      | inl available ↦ (refl, available)
      | inr waiting ↦ absurd (no_result (rw waiting at h))
    ]
  where
    no_result :
        ◌≡◌ {A = Result (Unit {0})}
          (err (watch_pending "waiting for volume to become available"))
          (ok u)
        → ⊥
    no_result e = cc

abbrev source_of : Snapshot → String
source_of snapshot = snapshot.spec.source_volume

-- if the volume is usable, it has been read
abbrev IsLookedAt : Env → String → Volume → Trace → Type 0
IsLookedAt env source v t = (IsUsable env v → HasRead env source t) × IsSourced env t

module _ {env : Env} (snapshot : Snapshot) where
  note-Keeps :
      (e : Env) (size : ℕ)
      → Keeps env (IsReady env (source_of snapshot)) (status_update (with_blob e snapshot size))
  unfolding status_update write_snapshot with_blob
  note-Keeps e size = record { at = λ t h. (h.0, h) }

  -- behind the check, the source is read
  blob-Keeps :
      (e : Env) (m : BlobManager)
      → Quiet env (IsReady env (source_of snapshot)) m
      → Keeps env (IsReady env (source_of snapshot)) (do
        m.snapshot_blob snapshot.metadata.name snapshot.spec.binding snapshot.spec.source_volume
            snapshot.metadata.name
        size ← m.get_size snapshot.metadata.name
        status_update (with_blob e snapshot size)
        pure tt)
  blob-Keeps e m q = Keeps-bind (m.snapshot_blob _ _ _ _) _ (q.snapshot_blob _ _ _ _) (λ u.
      Keeps-bind (m.get_size _) _ (q.get_size _)
        (λ size. Keeps-bind (status_update _) _ (note-Keeps e size) (λ w. Keeps-pure tt)))

  checked-Keeps :
      (v : Volume) (rest : Exec (Unit {0}))
      → Keeps env (IsReady env (source_of snapshot)) rest
      → Keeps env
          (IsLookedAt env (source_of snapshot) v)
          (check_source v v.metadata.deletion_timestamp >>= λ u. rest)
  checked-Keeps v rest k =
      Keeps-bind_known (check_source v v.metadata.deletion_timestamp) (λ u. rest)
        (record {
          at = λ t h.
              subst (IsLookedAt env (source_of snapshot) v)
                (sym (check_source-trace v v.metadata.deletion_timestamp env t)) h;
        })
        (λ t u passed h.
          let ready =
            k.at _
              (h.0 (check_source-IsUsable v v.metadata.deletion_timestamp env t u passed), h.1) in
          ((λ usable. ready.0), ready.1))

  create-Keeps :
      (m : BlobManager)
      → Quiet env (IsReady env (source_of snapshot)) m
      → Keeps env (IsSourced env) (create_snapshot_blob m snapshot)
  unfolding create_snapshot_blob get_volume
  create-Keeps m q = Keeps-bind ask _ Keeps-ask (λ e.
      Keeps-bind_known (get_volume (source_of snapshot)) _ (record { at = λ t h. h })
        (λ t v read h.
          ((checked-Keeps v _ (blob-Keeps e m q)).at
            (got_volume (source_of snapshot) (env.get_volume t (source_of snapshot)) ∷ t)
            ((λ usable. inl (refl, v, read, usable)), h)).1))

write-Keeps : {env : Env} (s : Snapshot) → Keeps env (IsSourced env) (write_snapshot update s)
unfolding write_snapshot
write-Keeps s = record { at = λ t h. h }

module _ (env : Env) (pool : String) where
  abbrev manager : BlobManager
  manager = thin_blob_manager "" pool

  create_if_needed-Keeps :
      (snapshot : Snapshot) → Keeps env (IsSourced env) (create_if_needed manager snapshot)
  unfolding create_if_needed
  create_if_needed-Keeps snapshot = Keeps-bind ask _ Keeps-ask (λ e.
      Keeps-if _ _ _
        (λ missing.
          create-Keeps snapshot manager
            (thin_blob_manager-Quiet (IsReady-IgnoresBlobs env (source_of snapshot)) "" pool))
        (λ there. Keeps-pure tt))

  ensure_finalizer-Keeps :
      (snapshot : Snapshot) → Keeps env (IsSourced env) (ensure_finalizer snapshot)
  unfolding ensure_finalizer
  ensure_finalizer-Keeps snapshot = search (keeps_rules, write-Keeps)

  drop_finalizer-Keeps : (snapshot : Snapshot) → Keeps env (IsSourced env) (drop_finalizer snapshot)
  unfolding drop_finalizer
  drop_finalizer-Keeps snapshot = search (keeps_rules, write-Keeps)

  swallow-Keeps : (r : Result (Unit {0})) → Keeps env (IsSourced env) (swallow_wait r)
  swallow-Keeps (ok u) = Keeps-lift (ok u)
  swallow-Keeps (err (watch_pending why)) = Keeps-pure tt
  swallow-Keeps (err e) = Keeps-lift (err e)

  end-Keeps : (d : Option ℕ) (r : Result (Unit {0})) → Keeps env (IsSourced env) (end_reconcile d r)
  unfolding end_reconcile
  end-Keeps none r = swallow-Keeps r
  end-Keeps (some when) r = Keeps-lift r

  reconcile_snapshot-Keeps :
      (snapshot : Snapshot) (d : Option ℕ)
      → Keeps env (IsSourced env) (reconcile_snapshot manager snapshot d)
  unfolding reconcile_snapshot reconcile_deleting
  reconcile_snapshot-Keeps snapshot (some when) =
      Keeps-bind (manager.remove_blob _ _) _
        ((thin_blob_manager-Quiet (IsSourced-IgnoresBlobs env) "" pool).remove_blob _ _)
        (λ u. drop_finalizer-Keeps snapshot)
  reconcile_snapshot-Keeps snapshot none =
      Keeps-bind (ensure_finalizer snapshot) _ (ensure_finalizer-Keeps snapshot) (λ s.
        Keeps-bind (try (create_if_needed manager s)) _ (Keeps-try _ (create_if_needed-Keeps s))
          (λ r. end-Keeps s.metadata.deletion_timestamp r))

found-Keeps :
    (env : Env) (r : Result Snapshot)
    → Keeps env (IsSourced env) (elim r [
      | err e ↦ lift (ignore_not_found e)
      | ok snapshot ↦
          reconcile_snapshot
            (thin_blob_manager "" snapshot.spec.source_volume)
            snapshot
            snapshot.metadata.deletion_timestamp
    ])
found-Keeps env (err e) = Keeps-lift _
found-Keeps env (ok s) =
    reconcile_snapshot-Keeps env s.spec.source_volume s s.metadata.deletion_timestamp

-- Whatever the API server answers: `Reconcile` writes the status of a snapshot only after it has read
-- the snapshot's source volume, which was available and not being deleted.
pub reconcile-IsSourced : (name : String) (env : Env) → IsSourced env (reconcile name env []).1
unfolding reconcile get_snapshot
reconcile-IsSourced name env =
    (Keeps-bind {env = env} {P = IsSourced env} (try (get_snapshot name)) _
        (record { at = λ t h. h }) (found-Keeps env)).at
      [] tt
