-- ===== src/Csi/Node/Traces.antt =====
-- What the steps of the node service add to the record of calls.
use kubesan.Prelude.{ℕ, zero, suc, String, ◌∷◌, Bool, string_eq, if◌then◌else◌}
use kubesan.Api.{Volume}
use kubesan.Exec.{
  Env, conflict, not_found, rpc, internal, absent, Trace, Exec, Result, ok, err, Verb, FileOp,
  remove_file, lstat, did_file, wrote_volume, got_volume, do_file, get_volume, write_volume, update,
  pure, throw, lift, try, ◌>>◌,
}
use kubesan.Exec.Rules.{
  Keeps, Keeps-bind, Keeps-pure, Keeps-throw, Keeps-lift, Keeps-try, Keeps-if, Keeps-elim_result,
  keeps_rules,
}
use kubesan.Csi.Names.{validate_id}
use kubesan.Csi.Client.{poll_until, watch_volume_until}
use kubesan.Csi.Volumes.Change.{retry_on_conflict}
use kubesan.Csi.Node.{
  check_path, get_existing, detach_round, or_internal, remove_link, clean_up_target,
}

module _ {A : Type 0} {env : Env} {P : Trace → Type 0} where
  pub retry_on_conflict-Keeps :
      (retries : ℕ) (m : Exec A) → Keeps env P m → Keeps env P (retry_on_conflict retries m)
  unfolding retry_on_conflict
  retry_on_conflict-Keeps zero m k = k
  retry_on_conflict-Keeps (suc retries) m k =
      Keeps-bind (try m) _ (Keeps-try m k) (again (retry_on_conflict-Keeps retries m k))
    where
      again :
          Keeps env P (retry_on_conflict retries m)
          → (r : Result A)
          → Keeps env P (elim r [
            | ok a ↦ pure a
            | err conflict ↦ retry_on_conflict retries m
            | err e ↦ throw e
          ])
      again k' (ok a) = Keeps-pure a
      again k' (err conflict) = k'
      again k' (err e) = Keeps-throw e

  poll_until-Keeps :
      (get : Exec A) (check : Result A → Result Bool) (polls : ℕ) (object : A)
      → Keeps env P get
      → Keeps env P (poll_until get check polls object)
  unfolding poll_until
  poll_until-Keeps get check zero object k = Keeps-throw _
  poll_until-Keeps get check (suc polls) object k = Keeps-bind (try get) _ (Keeps-try get k) (λ r.
      Keeps-bind (lift (check r)) _ (Keeps-lift (check r))
        (λ done. Keeps-if done _ _ (λ e. Keeps-pure _) (λ e. poll_until-Keeps get check polls _ k)))

module _ {env : Env} {P : Trace → Type 0}
    (step : (op : FileOp) (t : Trace) → P t → P (did_file op (env.file_op t op) ∷ t)) where
  pub file-Keeps : (op : FileOp) → Keeps env P (do_file op)
  unfolding do_file
  file-Keeps op = record { at = λ t h. step op t h }

  pub or_internal-Keeps :
      (message : String) (op : FileOp) → Keeps env P (or_internal message (do_file op))
  unfolding or_internal
  or_internal-Keeps message op = Keeps-bind (try (do_file op)) _ (Keeps-try _ (file-Keeps op)) (λ r.
      Keeps-elim_result r _ (λ x. throw (rpc internal message)) (λ b e. Keeps-pure b)
        (λ x e. Keeps-throw _))

  pub remove_link-Keeps : (path : String) → Keeps env P (remove_link path)
  unfolding remove_link
  remove_link-Keeps path =
      Keeps-bind (try (do_file (lstat path))) _ (Keeps-try _ (file-Keeps (lstat path))) found
    where
      found :
          (r : Result Bool)
          → Keeps env P (elim r [
            | ok is_link ↦ if is_link then (do do_file (remove_file path); pure tt) else pure tt
            | err not_found ↦ pure tt
            | err e ↦ throw (rpc internal "error determining if dir is a symbolic link")
          ])
      found (ok is_link) =
          Keeps-if is_link _ _
            (λ e. Keeps-bind _ _ (file-Keeps (remove_file path)) (λ b. Keeps-pure tt))
            (λ e. Keeps-pure tt)
      found (err not_found) = Keeps-pure tt
      found (err e) = Keeps-throw _

  pub clean_up_target-Keeps : (path : String) → Keeps env P (clean_up_target path)
  unfolding clean_up_target
  clean_up_target-Keeps path = Keeps-bind (or_internal _ _) _ (or_internal-Keeps _ _) (λ sure.
      Keeps-if sure _ _
        (λ e. Keeps-bind (or_internal _ _) _ (or_internal-Keeps _ _) (λ b. Keeps-pure tt))
        (λ e. remove_link-Keeps path))

-- `P` does not look at the reads of volumes, and keeps with their writes.
pub record KeepsVolumes (P : Trace → Type 0) : Type 0 where
  pub on_get : (n : String) (r : Result Volume) (t : Trace) → P t → P (got_volume n r ∷ t)
  pub on_write :
      (verb : Verb) (v : Volume) (r : Result Volume) (t : Trace)
      → P t
      → P (wrote_volume verb v r ∷ t)

module _ {P : Trace → Type 0} (i : KeepsVolumes P) {env : Env} where
  pub write-Keeps : (v : Volume) → Keeps env P (write_volume update v)
  unfolding write_volume
  write-Keeps v = record { at = λ t h. i.on_write update v _ t h }

  get-Keeps : (name : String) → Keeps env P (get_volume name)
  unfolding get_volume
  get-Keeps name = record { at = λ t h. i.on_get name _ t h }

  pub get_existing-Keeps : (name message : String) → Keeps env P (get_existing name message)
  unfolding get_existing
  get_existing-Keeps name message =
      Keeps-bind (try (get_volume name)) _ (Keeps-try _ (get-Keeps name)) found
    where
      found :
          (r : Result Volume)
          → Keeps env P (elim r [
            | ok volume ↦ pure volume
            | err not_found ↦ throw (rpc absent message)
            | err e ↦ throw e
          ])
      found (ok v) = Keeps-pure v
      found (err not_found) = Keeps-throw _
      found (err e) = Keeps-throw e

  pub detach_round-Keeps : (name : String) → Keeps env P (detach_round name)
  unfolding detach_round
  detach_round-Keeps name = search (keeps_rules, get_existing-Keeps, write-Keeps)

  pub watch-Keeps :
      (polls : ℕ) (condition : Volume → Bool) (v : Volume)
      → Keeps env P (watch_volume_until polls condition v)
  unfolding watch_volume_until
  watch-Keeps polls condition v =
      Keeps-if (condition v) _ _ (λ e. Keeps-pure v)
        (λ e. poll_until-Keeps _ _ polls v (get-Keeps v.metadata.name))

module _ {env : Env} {P : Trace → Type 0} where
  pub validate_id-Keeps : (id category : String) → Keeps env P (validate_id id category)
  unfolding validate_id
  validate_id-Keeps id category = search keeps_rules

  pub check_path-Keeps : (path message : String) → Keeps env P (check_path path message)
  unfolding check_path
  check_path-Keeps path message = search keeps_rules
