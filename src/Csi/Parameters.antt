-- ===== src/Csi/Parameters.antt =====
-- internal/csi/controller/volume.go: what a request asks for, and whether a volume answers it.
pub mod Types
use Prim.Native.String.{◌++◌ as ◌<>◌}
use kubesan.Prelude.{
  ℕ, String, List, [], ◌∷◌, ◌++◌, Option, none, some, Bool, true, false, not, ◌&&◌, ◌||◌, ◌==◌,
  string_eq, ltb, nat_beq, length, Comparable, discrete_eq, String-discrete, if◌then◌else◌, ◌≡◌,
  refl, ◌↔◌,
}
use kubesan.Slices.{deduplicate, contains}
use kubesan.Api.{
  VolumeMode, VolumeWipePolicy, VolumeType, VolumeTypeFilesystem, VolumeAccessMode, VolumeContents,
  VolumeContentsType, Volume,
}
use kubesan.Exec.{
  Code, invalid_argument, absent, exists, out_of_range, failed_precondition, unimplemented, aborted,
  internal, Err, rpc, panicked, Result, ok, err,
}
use kubesan.Csi.{AccessMode, AccessType, VolumeCapability, Parameters, lookup}

invalid : {A : Type 0} → String → Result A
invalid message = err (rpc invalid_argument message)

unfoldable pub get_volume_mode : Parameters → Result VolumeMode
unfolding lookup invalid
get_volume_mode parameters =
    let mode = lookup parameters "mode" in
    if mode == ""
    then ok VolumeMode.thin
    else if not (mode == "Thin") && not (mode == "Linear")
    then invalid "invalid volume mode"
    else if mode == "Thin"
    then ok VolumeMode.thin
    else ok VolumeMode.linear

unfoldable pub get_wipe_policy : Parameters → Result VolumeWipePolicy
unfolding lookup invalid
get_wipe_policy parameters =
    let policy = lookup parameters "wipePolicy" in
    if policy == "" || policy == "Full"
    then ok VolumeWipePolicy.full
    else if policy == "UnsafeFast"
    then ok VolumeWipePolicy.unsafe_fast
    else invalid "invalid volume wipe policy"

unfoldable pub block_type : VolumeType
block_type = record { block = some tt; filesystem = none }

unfoldable pub mount_type : String → List String → VolumeType
mount_type fs_type flags = record {
  block = none;
  filesystem = some (record { fs_type = fs_type; mount_options = flags });
}

-- `*volumeType != vt` compares the pointers of two structs, each allocated in its own round. Two of
-- `Filesystem` differ. Two of `Block` point to variables of size zero, which Go lets be equal or
-- not: `same_block` says which.
unfoldable pub types_differ : Bool → Option VolumeTypeFilesystem → Bool
types_differ same_block none = not same_block
types_differ same_block (some filesystem) = true

-- the loop's variables: isTypeBlock, isTypeMount, and volumeType
pub record TypeLoop : Type 0 where
  pub is_type_block : Bool
  pub is_type_mount : Bool
  pub volume_type : Option VolumeType

unfoldable pub merge_known : Bool → TypeLoop → VolumeType → Option VolumeType → Result TypeLoop
unfolding types_differ invalid
merge_known same_block state vt none = ok (record state { volume_type = some vt })
merge_known same_block state vt (some first) =
    if types_differ same_block first.filesystem
    then invalid "inconsistent volume capabilities"
    else ok state

unfoldable pub merge_type : Bool → TypeLoop → VolumeType → Result TypeLoop
unfolding merge_known invalid
merge_type same_block state vt =
    if state.is_type_block && state.is_type_mount
    then invalid "volume access type cannot be both block and mount"
    else merge_known same_block state vt state.volume_type

-- one round of the loop
unfoldable pub volume_type_round : Bool → TypeLoop → AccessType → Result TypeLoop
unfolding merge_type block_type mount_type invalid
volume_type_round same_block state AccessType.block =
    merge_type same_block (record state { is_type_block = true }) block_type
volume_type_round same_block state (AccessType.mount fs_type flags) =
    merge_type same_block (record state { is_type_mount = true }) (mount_type fs_type flags)
volume_type_round same_block state AccessType.unset = invalid "invalid volume capabilities"

found_type : Option VolumeType → Result VolumeType
unfolding invalid
found_type none = invalid "missing volume capabilities"
found_type (some vt) = ok vt

unfoldable pub volume_type_loop : Bool → List VolumeCapability → TypeLoop → Result VolumeType
unfolding volume_type_round found_type
volume_type_loop same_block [] state = found_type state.volume_type
volume_type_loop same_block (cap ∷ capabilities) state =
    elim (volume_type_round same_block state cap.access_type) [
      | ok state' ↦ volume_type_loop same_block capabilities state'
      | err e ↦ err e
    ]

unfoldable pub get_volume_type : Bool → List VolumeCapability → Result VolumeType
unfolding volume_type_loop
get_volume_type same_block capabilities =
    volume_type_loop same_block capabilities
      (record { is_type_block = false; is_type_mount = false; volume_type = none })

-- slices.TryMap
try_map_loop : {A B : Type 0} → List A → (A → Result B) → List B → Result (List B)
try_map_loop [] f result = ok result
try_map_loop (x ∷ list) f result = elim (f x) [
  | ok r ↦ try_map_loop list f (result ++ r ∷ [])
  | err e ↦ err e
]

unfoldable pub try_map : {A B : Type 0} → List A → (A → Result B) → Result (List B)
unfolding try_map_loop
try_map list f = try_map_loop list f []

access_mode_of : AccessMode → Result VolumeAccessMode
unfolding invalid
access_mode_of AccessMode.single_node_writer = ok VolumeAccessMode.single_node_multi_writer
access_mode_of AccessMode.single_node_reader_only = ok VolumeAccessMode.single_node_reader_only
access_mode_of AccessMode.multi_node_reader_only = ok VolumeAccessMode.multi_node_reader_only
access_mode_of AccessMode.multi_node_single_writer = ok VolumeAccessMode.multi_node_single_writer
access_mode_of AccessMode.multi_node_multi_writer = ok VolumeAccessMode.multi_node_multi_writer
access_mode_of AccessMode.single_node_single_writer = ok VolumeAccessMode.single_node_single_writer
access_mode_of AccessMode.single_node_multi_writer = ok VolumeAccessMode.single_node_multi_writer
access_mode_of AccessMode.unknown = invalid "invalid volume access mode"

-- `capability.AccessMode.Mode`, which panics on a missing access mode
mode_behind : Option AccessMode → Result VolumeAccessMode
unfolding access_mode_of
mode_behind none = err panicked
mode_behind (some mode) = access_mode_of mode

unfoldable pub get_volume_access_mode : VolumeCapability → Result VolumeAccessMode
unfolding mode_behind
get_volume_access_mode capability = mode_behind capability.access_mode

pub VolumeAccessMode-discrete : Discrete VolumeAccessMode
VolumeAccessMode-discrete = hlevel

instance abbrev pub access_mode_eq : Comparable VolumeAccessMode
access_mode_eq = discrete_eq VolumeAccessMode-discrete

unfoldable pub get_volume_access_modes : List VolumeCapability → Result (List VolumeAccessMode)
unfolding try_map get_volume_access_mode
get_volume_access_modes capabilities = elim (try_map capabilities get_volume_access_mode) [
  | ok modes ↦ ok (deduplicate modes)
  | err e ↦ err e
]

code_text : Code → String
code_text invalid_argument = "InvalidArgument"
code_text absent = "NotFound"
code_text exists = "AlreadyExists"
code_text out_of_range = "OutOfRange"
code_text failed_precondition = "FailedPrecondition"
code_text unimplemented = "Unimplemented"
code_text aborted = "Aborted"
code_text internal = "Internal"

-- err.Error() of a gRPC status, which is the one error that `getVolumeType` returns
error_text : Err → String
unfolding code_text
error_text (rpc code message) = "rpc error: code = " <> (code_text code <> (" desc = " <> message))
error_text _ = ""

join : List String → String
join [] = ""
join (s ∷ []) = s
join (s ∷ t ∷ rest) = s <> (" " <> join (t ∷ rest))

-- `%v` of a pointer to the struct
format_filesystem : VolumeTypeFilesystem → String
unfolding join
format_filesystem filesystem =
    "&{" <> (filesystem.fs_type <> (" [" <> (join filesystem.mount_options <> "]}")))

pub VolumeTypeFilesystem-discrete : Discrete VolumeTypeFilesystem
VolumeTypeFilesystem-discrete = hlevel String-discrete

-- reflect.DeepEqual
instance abbrev pub filesystem_eq : Comparable VolumeTypeFilesystem
filesystem_eq = discrete_eq VolumeTypeFilesystem-discrete

-- the loop over the access modes
unfoldable pub modes_offered : List VolumeAccessMode → List VolumeAccessMode → Bool
modes_offered [] offered = true
modes_offered (mode ∷ modes) offered =
    if not (contains offered mode) then false else modes_offered modes offered

unfoldable pub check_modes : Result (List VolumeAccessMode) → List VolumeAccessMode → String
unfolding modes_offered
check_modes (err e) offered = "incomptible access modes"
check_modes (ok modes) offered =
    if modes_offered modes offered then "" else "incompatible access modes"

unfoldable pub filesystem_conflict : VolumeTypeFilesystem → VolumeTypeFilesystem → String
unfolding format_filesystem
filesystem_conflict f g =
    if f == g
    then ""
    else "incompatible volume type: filesystem mismatch "
      <> (format_filesystem f <> (" vs. " <> format_filesystem g))

-- the cases of the switch of `validateCapabilities` in their order: the pointers Block and
-- Filesystem of the request's type, then those of the volume's
unfoldable pub pointer_conflict :
    Option (Unit {0})
    → Option VolumeTypeFilesystem
    → Option (Unit {0})
    → Option VolumeTypeFilesystem
    → String
unfolding filesystem_conflict
pointer_conflict (some b) f c (some g) =
    "incompatible volume type: cannot change block to filesystem"
pointer_conflict b (some f) (some c) g =
    "incompatible volume type: cannot change filesystem to block"
pointer_conflict none (some f) none (some g) = filesystem_conflict f g
pointer_conflict _ _ _ _ = ""

unfoldable pub type_conflict : VolumeType → VolumeType → String
unfolding pointer_conflict
type_conflict asked found =
    pointer_conflict asked.block asked.filesystem found.block found.filesystem

unfoldable pub validate_capabilities : Bool → Volume → List VolumeCapability → String
unfolding error_text
validate_capabilities same_block volume capabilities =
    elim (get_volume_type same_block capabilities) [
      | err e ↦ "incompatible volume type: " <> error_text e
      | ok volume_type ↦
          let conflict = type_conflict volume_type volume.spec.type in
          if not (conflict == "")
          then conflict
          else check_modes (get_volume_access_modes capabilities) volume.spec.access_modes
    ]
