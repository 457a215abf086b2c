-- ===== src/Csi/Volumes/Change.antt =====
-- internal/csi/controller/volume.go: the handlers that delete, check and expand a volume.
use kubesan.Prelude.{
  ℕ, zero, suc, ◌+◌, String, List, [], ◌∷◌, Option, none, some, Bool, true, false, not, ◌&&◌, ◌==◌,
  string_eq, ltb, leb, length, if◌then◌else◌,
}
use kubesan.Api.{VolumeMode, Volume}
use kubesan.Exec.{
  invalid_argument, absent, failed_precondition, unimplemented, rpc, not_found, conflict, Result,
  ok, err, Exec, pure, throw, lift, try, update, get_volume, write_volume, ◌>>=◌, ◌>>◌,
}
use kubesan.Csi.{VolumeCapability, Parameters}
use kubesan.Csi.Capacity.{CapacityRange, default_extent_size, validate_capacity}
use kubesan.Csi.Parameters.{validate_capabilities}
use kubesan.Csi.Names.{validate_id, validate_volume_context, validate_volume_capability}
use kubesan.Csi.Client.{watch_volume_until, delete_volume_and_confirm}
use kubesan.Csi.Volumes.{copy_known_parameters}
use kubesan.Csi.Volumes.Create.{validate_volume}

no_secrets : Parameters → Result (Unit {0})
no_secrets [] = ok tt
no_secrets (_ ∷ _) = err (rpc invalid_argument "unexpected secrets")

-- the volume has been read: it must not be staged anywhere
unfoldable pub delete_unless_staged : ℕ → Volume → Exec (Unit {0})
delete_unless_staged polls volume =
    if ltb 0 (length volume.spec.attach_to_nodes)
    then throw (rpc failed_precondition "volume is still staged")
    else delete_volume_and_confirm polls volume

unfoldable pub delete_volume : ℕ → String → Parameters → Exec (Unit {0})
unfolding no_secrets
delete_volume polls volume_id secrets = do
  validate_id volume_id "volume"
  lift (no_secrets secrets)
  read ← try (get_volume volume_id)
  elim read [
    | err not_found ↦ pure tt
    | err e ↦ throw e
    | ok volume ↦ delete_unless_staged polls volume
  ]

pub record ExpandVolumeRequest : Type 0 where
  pub volume_id : String
  pub capacity_range : Option CapacityRange
  pub secrets : Parameters
  pub capability : Option VolumeCapability

check_capability : Option VolumeCapability → Result (Unit {0})
check_capability none = ok tt
check_capability (some capability) = validate_volume_capability capability

-- the message of `validateCapabilities`, or "" without a capability
capability_message : Bool → Volume → Option VolumeCapability → String
capability_message same_block volume none = ""
capability_message same_block volume (some capability) =
    validate_capabilities same_block volume (capability ∷ [])

is_linear : VolumeMode → Bool
is_linear VolumeMode.linear = true
is_linear _ = false

has_filesystem : Volume → Bool
has_filesystem volume = elim volume.spec.type.filesystem [ none ↦ false | some f ↦ true ]

-- the checks of a round, on the volume that it has read
unfoldable pub check_expandable : Bool → Volume → Option VolumeCapability → Result (Unit {0})
unfolding capability_message is_linear has_filesystem
check_expandable same_block volume capability =
    let message = capability_message same_block volume capability in
    if not (message == "")
    then err (rpc invalid_argument message)
    else if is_linear volume.spec.mode
        && ltb 0 (length volume.spec.attach_to_nodes + length volume.status.attached_to_nodes)
    then err (rpc failed_precondition "linear volume can only be expanded offline")
    else if has_filesystem volume
    then err (rpc unimplemented "filesystem expansion not implemented yet")
    else ok tt

as_missing : Result Volume → Result Volume
as_missing (err not_found) = err (rpc absent "volume does not exist")
as_missing r = r

-- one round of the function that `RetryOnConflict` repeats
unfoldable pub expand_round : Bool → String → Option VolumeCapability → ℕ → Exec Volume
unfolding as_missing
expand_round same_block volume_id capability capacity = do
  read ← try (get_volume volume_id)
  volume ← lift (as_missing read)
  lift (check_expandable same_block volume capability)
  if ltb volume.spec.size_bytes capacity
      then write_volume update
          (record volume { spec = record volume.spec { size_bytes = capacity } })
      else pure volume

-- retry.RetryOnConflict of k8s.io/client-go: a conflict starts another round while rounds are left
-- (retry.DefaultRetry has five); the last conflict is returned
unfoldable pub retry_on_conflict : {A : Type 0} → ℕ → Exec A → Exec A
retry_on_conflict zero m = m
retry_on_conflict (suc more) m = do
  r ← try m
  let again = retry_on_conflict more m
  elim r [ ok a ↦ pure a | err conflict ↦ again | err e ↦ throw e ]

unfoldable pub has_size : ℕ → Volume → Bool
has_size capacity volume = leb capacity volume.status.size_bytes

-- CapacityBytes of the response
unfoldable pub controller_expand_volume : Bool → ℕ → ExpandVolumeRequest → Exec ℕ
unfolding no_secrets check_capability
controller_expand_volume same_block polls req = do
  validate_id req.volume_id "volume"
  (capacity, limit) ← lift (validate_capacity req.capacity_range default_extent_size)
  lift (no_secrets req.secrets)
  lift (check_capability req.capability)
  volume ← retry_on_conflict 4 (expand_round same_block req.volume_id req.capability capacity)
  grown ← watch_volume_until polls (has_size capacity) volume
  pure grown.status.size_bytes

pub record ValidateRequest : Type 0 where
  pub volume_id : String
  pub volume_context : Parameters
  pub capabilities : List VolumeCapability
  pub parameters : Parameters
  pub mutable_parameters : Parameters
  pub secrets : Parameters

-- a message, or the capabilities and parameters that are confirmed
pub data Verdict : Type 0 where
  refused : String → Verdict
  confirmed : List VolumeCapability → Parameters → Verdict

capability_given : List VolumeCapability → Result (Unit {0})
capability_given [] = err (rpc invalid_argument "missing capability to verify")
capability_given (_ ∷ _) = ok tt

no_mutable : Parameters → Result (Unit {0})
no_mutable [] = ok tt
no_mutable (_ ∷ _) = err (rpc invalid_argument "no mutable parameters supported")

as_not_found : Result Volume → Result Volume
as_not_found (err not_found) = err (rpc absent "volume not found")
as_not_found r = r

unfoldable pub validate_volume_capabilities : Bool → ValidateRequest → Exec Verdict
unfolding capability_given no_secrets no_mutable as_not_found
validate_volume_capabilities same_block req = do
  validate_id req.volume_id "volume"
  lift (validate_volume_context req.volume_context)
  lift (capability_given req.capabilities)
  lift (no_secrets req.secrets)
  lift (no_mutable req.mutable_parameters)
  read ← try (get_volume req.volume_id)
  volume ← lift (as_not_found read)
  let message =
      validate_volume same_block true volume volume.spec.size_bytes 0 volume.spec.contents
        req.capabilities req.parameters
  pure (
      if not (message == "")
      then refused message
      else confirmed req.capabilities (copy_known_parameters req.parameters))
