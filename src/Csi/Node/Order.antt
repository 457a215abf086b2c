-- ===== src/Csi/Node/Order.antt =====
-- The order in which `NodeUnstageVolume` unmounts a volume and gives it up.
use kubesan.Prelude.{
  ℕ, String, [], ◌∷◌, Bool, true, false, not, ◌≡◌, refl, sym, ap, ◌⊎◌, inl, inr, string_eq,
  if◌then◌else◌,
}
use mathlib.Core.Path.{subst}
use kubesan.Exec.{
  Env, rpc, internal, Trace, Exec, Result, ok, err, FileOp, is_mount_point, clean_up_mount_point,
  did_file, wrote_volume, do_file, pure, throw, try, ask, ◌>>=◌, ◌>>◌,
}
use kubesan.Exec.Rules.{Keeps, Keeps-bind, Keeps-bind_known, Keeps-pure, >>=-runs}
use kubesan.Csi.Names.{validate_id}
use kubesan.Csi.Client.{watch_volume_until}
use kubesan.Csi.Volumes.Change.{retry_on_conflict}
use kubesan.Csi.Node.Traces.{
  KeepsVolumes, retry_on_conflict-Keeps, remove_link-Keeps, clean_up_target-Keeps,
  detach_round-Keeps, watch-Keeps, validate_id-Keeps, check_path-Keeps,
}
use kubesan.Csi.Node.{
  check_path, detach_round, is_attached, or_internal, remove_link, clean_up_target,
  node_unstage_volume,
}

-- the answer says that the path is no mount point, or that it was cleaned up
abbrev pub Frees : String → FileOp → Result Bool → Type 0
Frees path (is_mount_point p) (ok false) = p ≡ path
Frees path (clean_up_mount_point p) (ok b) = p ≡ path
Frees path _ _ = ⊥

abbrev pub IsFree : String → Trace → Type 0
IsFree path [] = ⊥
IsFree path (did_file op r ∷ t) = Frees path op r ⊎ IsFree path t
IsFree path (_ ∷ t) = IsFree path t

-- no volume is written before the path is free
abbrev pub UnmountsFirst : String → Trace → Type 0
UnmountsFirst path [] = Unit
UnmountsFirst path (wrote_volume verb v r ∷ t) = IsFree path t × UnmountsFirst path t
UnmountsFirst path (_ ∷ t) = UnmountsFirst path t

-- the same, with the path free by now
abbrev IsReady : String → Trace → Type 0
IsReady path t = IsFree path t × UnmountsFirst path t

-- a file operation whose answer is used has given it
or_internal-did :
    (message : String) (op : FileOp) (env : Env) (t : Trace) (b : Bool)
    → (or_internal message (do_file op) env t).0 ≡ ok b
    → (or_internal message (do_file op) env t).1 ≡ did_file op (ok b) ∷ t
unfolding or_internal do_file try pure throw ◌>>=◌
or_internal-did message op env t b h = did (env.file_op t op) refl
  where
    no_answer : ◌≡◌ {A = Result Bool} (err (rpc internal message)) (ok b) → ⊥
    no_answer x = cc

    did :
        (r : Result Bool)
        → env.file_op t op ≡ r
        → (or_internal message (do_file op) env t).1 ≡ did_file op (ok b) ∷ t
    did (ok c) answered =
        let same : ok c ≡ ok b = rw answered at h in rw answered (ap (λ x. did_file op x ∷ t) same)
    did (err e) failed = absurd (no_answer (rw failed at h))

IsFree-step :
    (path : String) (env : Env) (op : FileOp) (t : Trace)
    → IsFree path t
    → IsFree path (did_file op (env.file_op t op) ∷ t)
IsFree-step path env op t h = inr h

clean_up_target-IsFree :
    (path : String) (env : Env) (t : Trace) (u : Unit {0})
    → (clean_up_target path env t).0 ≡ ok u
    → IsFree path (clean_up_target path env t).1
unfolding clean_up_target
clean_up_target-IsFree path env t u h =
    let (sure, asked, rest, runs) =
      >>=-runs (or_internal _ (do_file (is_mount_point path))) _ env t u h in
    subst (λ x. IsFree path x.1) (sym runs)
      (cleaned sure _ (or_internal-did _ (is_mount_point path) env t sure asked) rest)
  where
    cleaned :
        (sure : Bool) (t' : Trace)
        → t' ≡ did_file (is_mount_point path) (ok sure) ∷ t
        → ((if sure
              then (do
                or_internal "failed to clean up mount point" (do_file (clean_up_mount_point path))
                pure tt)
              else remove_link path)
            env t').0
          ≡ ok u
        → IsFree path
            ((if sure
                then (do
                  or_internal "failed to clean up mount point" (do_file (clean_up_mount_point path))
                  pure tt)
                else remove_link path)
              env t').1
    cleaned true t' e passed =
        let (b, did, rest, runs) =
          >>=-runs (or_internal _ (do_file (clean_up_mount_point path))) _ env t' u passed in
        subst (λ x. IsFree path x.1) (sym runs)
          (subst (IsFree path) (sym (or_internal-did _ (clean_up_mount_point path) env t' b did))
            (inl refl))
    cleaned false t' e passed =
        (remove_link-Keeps {env = env} {P = IsFree path} (IsFree-step path env) path).at t'
          (subst (IsFree path) (sym e) (inl refl))

IsReady-KeepsVolumes : (path : String) → KeepsVolumes (IsReady path)
IsReady-KeepsVolumes path = record { on_get = λ n r t h. h; on_write = λ verb v r t h. (h.0, h) }

-- from the clean-up on
abbrev detaching : Env → ℕ → String → Exec (Unit {0})
detaching env polls name = do
  v ← retry_on_conflict 4 (detach_round name)
  watch_volume_until polls (λ w. not (is_attached env w)) v
  pure tt

module _ (env : Env) (polls : ℕ) (name path : String) where
  detaching-Keeps : Keeps env (IsReady path) (detaching env polls name)
  detaching-Keeps =
      Keeps-bind (retry_on_conflict 4 (detach_round name)) _
        (retry_on_conflict-Keeps 4 _ (detach_round-Keeps (IsReady-KeepsVolumes path) name))
        (λ v.
          Keeps-bind (watch_volume_until polls (λ w. not (is_attached env w)) v) _
            (watch-Keeps (IsReady-KeepsVolumes path) polls _ v) (λ w. Keeps-pure tt))

  -- `NodeUnstageVolume` gives the volume up, which is a write of the volume, only after the staging
  -- path was found to be no mount point or was cleaned up.
  pub node_unstage_volume-UnmountsFirst :
      UnmountsFirst path (node_unstage_volume polls name path env []).1
  unfolding node_unstage_volume ask ◌>>=◌
  node_unstage_volume-UnmountsFirst =
      (Keeps-bind {env = env} {P = UnmountsFirst path} (validate_id name "volume") _
          (validate_id-Keeps name "volume")
          (λ u.
            Keeps-bind (check_path path "must specify staging target path") _
              (check_path-Keeps path _)
              (λ v.
                Keeps-bind_known (clean_up_target path) (λ w. detaching env polls name)
                  (clean_up_target-Keeps (λ op t h. h) path)
                  (λ t w cleaned h.
                    (detaching-Keeps.at _ (clean_up_target-IsFree path env t w cleaned, h)).1)))).at
        [] tt
