-- ===== src/Csi/Volumes/Create.antt =====
-- internal/csi/controller/volume.go: `CreateVolume`, with `validateVolume` behind it.
use Prim.Native.String.{◌++◌ as ◌<>◌}
use kubesan.Prelude.{
  ℕ, String, List, [], ◌∷◌, Option, none, some, Bool, true, false, not, ◌&&◌, ◌||◌, ◌==◌, string_eq,
  ltb, length, if◌then◌else◌,
}
use kubesan.Api.{
  VolumeMode, VolumeWipePolicy, VolumeContents, VolumeContentsType, VolumeSpec, VolumeStatus,
  Volume, ObjectMeta,
}
use kubesan.Exec.{
  invalid_argument, exists, rpc, already_exists, Result, ok, err, Env, Exec, pure, throw, lift, try,
  ask, create, get_volume, write_volume, ◌>>=◌, ◌>>◌,
}
use kubesan.ClusterPool.{finalizer}
use kubesan.Csi.{VolumeCapability, Parameters, lookup}
use kubesan.Csi.Capacity.{default_extent_size, validate_capacity}
use kubesan.Csi.Parameters.{
  get_volume_mode, get_wipe_policy, get_volume_type, get_volume_access_modes, validate_capabilities,
}
use kubesan.Csi.Names.{safe_name}
use kubesan.Csi.Client.{watch_volume_until}
use kubesan.Csi.Volumes.{
  CreateVolumeRequest, CreateVolumeResponse, copy_known_parameters, get_volume_contents,
  is_deleting,
}

same_type : VolumeContentsType → VolumeContentsType → Bool
same_type VolumeContentsType.empty VolumeContentsType.empty = true
same_type VolumeContentsType.clone_volume VolumeContentsType.clone_volume = true
same_type VolumeContentsType.clone_snapshot VolumeContentsType.clone_snapshot = true
same_type VolumeContentsType.other VolumeContentsType.other = true
same_type _ _ = false

-- both pointers are set, and the names behind them are equal
both_equal : Option String → Option String → Bool
both_equal (some a) (some b) = a == b
both_equal _ _ = false

-- the switch of `validateVolume` on the contents, behind its first case, which compares pointers
unfoldable pub contents_match : VolumeContents → VolumeContents → Bool
unfolding same_type both_equal
contents_match source contents =
    if not (same_type source.contents_type contents.contents_type)
    then false
    else elim source.contents_type [
      | VolumeContentsType.empty ↦ true
      | VolumeContentsType.clone_volume ↦ both_equal source.source_volume contents.source_volume
      | VolumeContentsType.clone_snapshot ↦
          both_equal source.source_snapshot contents.source_snapshot
      | VolumeContentsType.other ↦ false
    ]

unfoldable pub same_mode : Result VolumeMode → VolumeMode → Bool
same_mode (ok VolumeMode.thin) VolumeMode.thin = true
same_mode (ok VolumeMode.linear) VolumeMode.linear = true
same_mode (ok VolumeMode.other) VolumeMode.other = true
same_mode _ _ = false

unfoldable pub same_policy : Result VolumeWipePolicy → VolumeWipePolicy → Bool
same_policy (ok VolumeWipePolicy.full) VolumeWipePolicy.full = true
same_policy (ok VolumeWipePolicy.unsafe_fast) VolumeWipePolicy.unsafe_fast = true
same_policy _ _ = false

-- `same_source` says that the caller passes the volume's own contents.
unfoldable pub validate_volume :
    Bool → Bool → Volume → ℕ → ℕ → VolumeContents → List VolumeCapability → Parameters → String
validate_volume same_block same_source volume size limit source capabilities parameters =
    if is_deleting volume.metadata
    then "volume deletion is already in progress"
    else if ltb volume.spec.size_bytes size || ltb 0 limit && ltb limit volume.spec.size_bytes
    then "incompatible sizes"
    else if not (same_source || contents_match source volume.spec.contents)
    then "incompatible source contents"
    else if not (lookup parameters "lvmVolumeGroup" == volume.spec.vg_name)
    then "incompatible parameter \"lvmVolumeGroup\""
    else if not (same_mode (get_volume_mode parameters) volume.spec.mode)
    then "incompatible parameter \"mode\""
    else if not (same_policy (get_wipe_policy parameters) volume.spec.wipe_policy)
    then "incompatible parameter \"wipePolicy\""
    else validate_capabilities same_block volume capabilities

unfoldable pub binding_of : String → String → Parameters → String
binding_of request_name name parameters =
    if request_name == name
    then lookup parameters "csi.storage.k8s.io/pvc/namespace"
      <> ("/" <> lookup parameters "csi.storage.k8s.io/pvc/name")
    else request_name

-- config.CommonLabels
abbrev pub common_labels : List (String × String)
common_labels =
    ("app.kubernetes.io/name", "kubesan") ∷ ("app.kubernetes.io/version", "v0.10.3") ∷ []

abbrev pub new_metadata : String → ObjectMeta
new_metadata name = record {
  name = name;
  labels = some common_labels;
  finalizers = [];
  owner_references = [];
  deletion_timestamp = none;
  generation = 0;
  resource_version = 0;
}

abbrev no_status : VolumeStatus
no_status = record {
  observed_generation = 0;
  conditions = [];
  size_bytes = 0;
  attached_to_nodes = [];
  path = "";
  nbd_export = "";
}

-- the volume that `CreateVolume` asks the API server for
unfoldable pub new_volume : Env → VolumeSpec → String → Volume
new_volume env spec name = record {
  metadata = (env.add_finalizer (new_metadata name) (finalizer env.domain)).0;
  spec = spec;
  status = no_status;
}

-- the volume, the request's size limits, and all else that the handler reads off a valid request
pub record Wanted : Type 0 where
  pub spec : VolumeSpec
  pub limit : ℕ

unfoldable pub read_request : Bool → CreateVolumeRequest → Exec Wanted
read_request same_block req =
    if ltb (length (copy_known_parameters req.parameters)) (length req.parameters)
    then throw (rpc invalid_argument "unexpected parameters")
    else (do
      let group = lookup req.parameters "lvmVolumeGroup"
      if group == ""
          then throw (rpc invalid_argument "missing/empty parameter \"lvmVolumeGroup\"")
          else if req.name == ""
          then throw (rpc invalid_argument "must specify volume name")
          else (do
            mode ← lift (get_volume_mode req.parameters)
            policy ← lift (get_wipe_policy req.parameters)
            type ← lift (get_volume_type same_block req.capabilities)
            access_modes ← lift (get_volume_access_modes req.capabilities)
            (capacity, limit) ← lift (validate_capacity req.capacity_range default_extent_size)
            contents ← get_volume_contents req.content_source group limit type
            if ltb 0 (length req.mutable_parameters)
                then throw (rpc invalid_argument "no mutable parameters supported")
                else pure (record {
                  spec = record {
                    vg_name = group;
                    binding = binding_of req.name (safe_name req.name "pvc") req.parameters;
                    mode = mode;
                    wipe_policy = policy;
                    type = type;
                    contents = contents;
                    access_modes = access_modes;
                    size_bytes = capacity;
                    attach_to_nodes = [];
                  };
                  limit = limit;
                })))

-- the error behind the message of `validateVolume`
unfoldable pub check_message : String → Result (Unit {0})
check_message message = if message == "" then ok tt else err (rpc exists message)

-- `Create`, and if there is such a volume already, the check that it answers the request
unfoldable pub create_or_check : Bool → CreateVolumeRequest → Wanted → String → Exec Volume
unfolding check_message
create_or_check same_block req wanted name = do
  env ← ask
  created ← try (write_volume create (new_volume env wanted.spec name))
  elim created [
    | ok volume ↦ pure volume
    | err already_exists ↦ (do
      volume ← get_volume name
      lift (
          check_message (
            validate_volume same_block false volume wanted.spec.size_bytes wanted.limit
              wanted.spec.contents req.capabilities req.parameters))
      pure volume)
    | err e ↦ throw e
  ]

unfoldable pub is_available : Env → Volume → Bool
is_available env volume = env.is_status_condition_true volume.status.conditions "Available"

unfoldable pub create_volume : Bool → ℕ → CreateVolumeRequest → Exec CreateVolumeResponse
create_volume same_block polls req = do
  wanted ← read_request same_block req
  let name = safe_name req.name "pvc"
  volume ← create_or_check same_block req wanted name
  env ← ask
  watch_volume_until polls (is_available env) volume
  pure (record {
    capacity_bytes = wanted.spec.size_bytes;
    volume_id = name;
    content_source = req.content_source;
  })
