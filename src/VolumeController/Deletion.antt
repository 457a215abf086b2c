-- ===== src/VolumeController/Deletion.antt =====
-- Deleting a volume: its blob, and its finalizer.
use Prim.Native.String.{◌++◌ as ◌<>◌}
use kubesan.Prelude.{
  ap, String, List, [], ◌∷◌, Option, none, some, true, false, ◌≡◌, ◌≢◌, refl, sym, ◌∙◌, ltb, length,
  arith, string_eq, Bool-cases, inl, inr,
}
use mathlib.Core.Path.{subst}
use kubesan.Prelude.Dict.{lookup}
use kubesan.Slices.{contains}
use kubesan.Api.{Volume}
use kubesan.Exec.{Env, Trace, ok, Verb, update, wrote_volume, ran, write_volume, pure, ask, ◌>>=◌}
use kubesan.Exec.Rules.{
  Keeps, Keeps-bind, Keeps-bind_known, Keeps-pure, Keeps-if, Keeps-ask, Keeps-elim_option, Yields,
  Yields-bind, Yields-pure, Yields-elim_option, >>=-trace, >>=-runs,
}
use kubesan.ClusterPool.{finalizer}
use kubesan.Commands.{must, lvm_lv_remove_idempotent}
use kubesan.Commands.Traces.{IsGone, on_host, lvremove-IsGone}
use kubesan.Blobs.Manager.{BlobManager, linear_blob_manager, linear_remove_blob}
use kubesan.Blobs.Quiet.{IgnoresBlobs, Quiet}
use kubesan.Blobs.Quiet.Thin.{thin_blob_manager-Quiet}
use kubesan.Blobs.Quiet.Linear.{linear_blob_manager-Quiet}
use kubesan.VolumeController.{
  drop_source, forget_source, deactivate_labeled, deactivate_data_source, drop_finalizer,
  reconcile_deleting, clone_source_label,
}

module _ (env : Env) (Gone : Trace → Type 0) where
  -- each write of a volume without the finalizer comes when the blob is gone
  abbrev pub IsOrdered : Trace → Type 0
  IsOrdered [] = Unit
  IsOrdered (wrote_volume update v r ∷ t) =
      (contains v.metadata.finalizers (finalizer env.domain) ≡ false → Gone t) × IsOrdered t
  IsOrdered (_ ∷ t) = IsOrdered t

  IsOrdered-IgnoresBlobs : IgnoresBlobs IsOrdered
  IsOrdered-IgnoresBlobs = record {
    on_get = λ n r t h. h;
    on_write = λ v p r t h. h;
    on_delete = λ p r t h. h;
    on_command = λ c e t h. h;
  }

-- What the deletion relies on: the manager calls only what a blob manager may call, and a removal that
-- passes leaves the blob gone.
pub record Removes (env : Env) (Gone : String → Trace → Type 0) (m : BlobManager) : Type 1 where
  pub quiet : {P : Trace → Type 0} → IgnoresBlobs P → Quiet env P m
  pub removes :
      (name owner : String) (t : Trace) (u : Unit {0})
      → (m.remove_blob name owner env t).0 ≡ ok u
      → Gone name (m.remove_blob name owner env t).1

-- The API server does not rename a volume.
pub record KeepsName (env : Env) : Type 0 where
  pub same :
      (t : Trace) (verb : Verb) (v v' : Volume)
      → env.write_volume t verb v ≡ ok v'
      → v'.metadata.name ≡ v.metadata.name

module _ {env : Env} {Gone : Trace → Type 0} (volume : Volume)
    (held : contains volume.metadata.finalizers (finalizer env.domain) ≡ true) where
  -- a write with the finalizer is in order
  held_write-Keeps :
      (labels : Option (List (String × String)))
      → Keeps env (IsOrdered env Gone) (
          write_volume update
            (record volume { metadata = record volume.metadata { labels = labels } }))
  unfolding write_volume
  held_write-Keeps labels = record { at = λ t h. ((λ missing. absurd (true≢false missing)), h) }
    where
      true≢false : contains volume.metadata.finalizers (finalizer env.domain) ≢ false
      true≢false missing = cc

  forget_source-Keeps :
      (labels : List (String × String))
      → Keeps env (IsOrdered env Gone) (forget_source volume labels)
  unfolding forget_source
  forget_source-Keeps labels = Keeps-bind ask _ Keeps-ask (λ e.
      Keeps-elim_option (lookup _ labels) _ _ (λ x. Keeps-pure volume) (λ n x. held_write-Keeps _))

  drop_source-Keeps :
      (pool : Option String) → Keeps env (IsOrdered env Gone) (drop_source volume pool)
  unfolding drop_source
  drop_source-Keeps none = Keeps-pure tt
  drop_source-Keeps (some pool) =
      let q = thin_blob_manager-Quiet (IsOrdered-IgnoresBlobs env Gone) volume.spec.vg_name pool in
      Keeps-bind _ _ (q.deactivate_source _) (λ u. q.remove_blob _ _)

  deactivate_labeled-Keeps :
      (labels : Option (List (String × String)))
      → Keeps env (IsOrdered env Gone) (deactivate_labeled volume labels)
  unfolding deactivate_labeled
  deactivate_labeled-Keeps none = Keeps-pure volume
  deactivate_labeled-Keeps (some labels) = Keeps-bind ask _ Keeps-ask (λ e.
      Keeps-bind (drop_source volume (lookup (clone_source_label e) labels)) _ (drop_source-Keeps _)
        (λ u. forget_source-Keeps labels))

  deactivate-Keeps :
      (m : BlobManager)
      → Quiet env (IsOrdered env Gone) m
      → Keeps env (IsOrdered env Gone) (deactivate_data_source m volume)
  unfolding deactivate_data_source
  deactivate-Keeps m q =
      Keeps-bind (m.deactivate_blob_for_clone_target volume.metadata.name) _
        (q.deactivate_target volume.metadata.name)
        (λ u. deactivate_labeled-Keeps volume.metadata.labels)

module _ {env : Env} (k : KeepsName env) (volume : Volume) where
  abbrev IsSameName : Volume → Type 0
  IsSameName v = v.metadata.name ≡ volume.metadata.name

  forget_source-name :
      (labels : List (String × String)) → Yields env IsSameName (forget_source volume labels)
  unfolding forget_source write_volume
  forget_source-name labels = Yields-bind ask _ (λ e.
      Yields-elim_option (lookup _ labels) _ _ (Yields-pure volume refl)
        (λ n. record { result = λ t a h. k.same t update _ a h }))

  deactivate_labeled-name :
      (labels : Option (List (String × String)))
      → Yields env IsSameName (deactivate_labeled volume labels)
  unfolding deactivate_labeled
  deactivate_labeled-name none = Yields-pure volume refl
  deactivate_labeled-name (some labels) = Yields-bind ask _ (λ e.
      Yields-bind (drop_source volume (lookup (clone_source_label e) labels)) _
        (λ u. forget_source-name labels))

  deactivate-name : (m : BlobManager) → Yields env IsSameName (deactivate_data_source m volume)
  unfolding deactivate_data_source
  deactivate-name m =
      Yields-bind (m.deactivate_blob_for_clone_target volume.metadata.name) _
        (λ u. deactivate_labeled-name volume.metadata.labels)

module _ (env : Env) (Gone : Trace → Type 0) where
  -- without a blob, the finalizer may go
  drop_finalizer-IsOrdered :
      (v : Volume) (t : Trace)
      → Gone t
      → IsOrdered env Gone t
      → IsOrdered env Gone (drop_finalizer v env t).1
  unfolding drop_finalizer ask write_volume pure ◌>>=◌
  drop_finalizer-IsOrdered v t gone h =
      elim (Bool-cases (env.remove_finalizer v.metadata (finalizer env.domain)).1) [
        | inl changed ↦ rw changed (
            subst (IsOrdered env Gone) (sym (>>=-trace (write_volume update _) _ env t (λ a. refl)))
              ((λ missing. gone), h))
        | inr same ↦ rw same h
      ]

module _ {env : Env} {Gone : String → Trace → Type 0} (m : BlobManager) (r : Removes env Gone m)
    (k : KeepsName env) (volume : Volume) where
  abbrev IsInOrder : Trace → Type 0
  IsInOrder = IsOrdered env (Gone volume.metadata.name)

  remove-Keeps :
      (v : Volume)
      → v.metadata.name ≡ volume.metadata.name
      → Keeps env IsInOrder
          (m.remove_blob v.metadata.name v.metadata.name >>= λ u. drop_finalizer v)
  remove-Keeps v same =
      Keeps-bind_known (m.remove_blob v.metadata.name v.metadata.name) (λ u. drop_finalizer v)
        ((r.quiet (IsOrdered-IgnoresBlobs env (Gone volume.metadata.name))).remove_blob _ _)
        (λ t u removed h.
          drop_finalizer-IsOrdered env (Gone volume.metadata.name) v _
            (subst (λ n. Gone n (m.remove_blob v.metadata.name v.metadata.name env t).1) same
              (r.removes v.metadata.name v.metadata.name t u removed))
            h)

  -- As long as a volume that is to be deleted is attached to a node, nothing is done. Otherwise the
  -- volume is written without its finalizer only when its blob is gone, if the blob manager calls
  -- nothing but pools and commands and removes what it says it removes, the volume has the finalizer,
  -- and the API server keeps its name.
  pub reconcile_deleting_volume_lem :
      contains volume.metadata.finalizers (finalizer env.domain) ≡ true
      → IsOrdered env (Gone volume.metadata.name) (reconcile_deleting m volume env []).1
        × (volume.status.attached_to_nodes ≢ [] → reconcile_deleting m volume env [] ≡ (ok tt, []))
  unfolding reconcile_deleting pure
  reconcile_deleting_volume_lem held = (ordered.at [] tt, λ attached. rw (nonempty _ attached) refl)
    where
      ordered : Keeps env IsInOrder (reconcile_deleting m volume)
      ordered =
          Keeps-if (ltb 0 (length volume.status.attached_to_nodes)) _ _ (λ e. Keeps-pure tt)
            (λ e.
              Keeps-bind_known (deactivate_data_source m volume) _
                (deactivate-Keeps volume held m
                  (r.quiet (IsOrdered-IgnoresBlobs env (Gone volume.metadata.name))))
                (λ t v stored.
                  (remove-Keeps v ((deactivate-name k volume m).result t v stored)).at _))

      nonempty : (nodes : List String) → nodes ≢ [] → ltb 0 (length nodes) ≡ true
      nonempty [] h = absurd (h refl)
      nonempty (n ∷ ns) h = ground arith

-- the last call was the LV's `lvremove`, and the LV is gone
abbrev pub HasRemoved : String → String → Trace → Type 0
HasRemoved vg name (ran c exit ∷ t) =
    (c ≡ on_host ("lvm" ∷ "lvremove" ∷ "--devicesfile" ∷ vg ∷ (vg <> ("/" <> name)) ∷ []))
    × IsGone exit
HasRemoved vg name _ = ⊥

linear_remove-HasRemoved :
    (vg name owner : String) (env : Env) (t : Trace) (u : Unit {0})
    → (linear_remove_blob vg name owner env t).0 ≡ ok u
    → HasRemoved vg name (linear_remove_blob vg name owner env t).1
unfolding linear_remove_blob pure
linear_remove-HasRemoved vg name owner env t u h =
    let (output, removed, rest, runs) = >>=-runs (must (lvm_lv_remove_idempotent _)) _ env t u h in
    let (exit, traced, gone) = lvremove-IsGone _ env t output removed in
    subst (HasRemoved vg name) (sym (ap (λ x. x.1) runs ∙ traced)) (refl, gone)

pub linear_blob_manager-Removes :
    (env : Env) (vg : String) → Removes env (HasRemoved vg) (linear_blob_manager vg)
unfolding linear_blob_manager
linear_blob_manager-Removes env vg = record {
  quiet = λ i. linear_blob_manager-Quiet i vg;
  removes = λ name owner t u h. linear_remove-HasRemoved vg name owner env t u h;
}
