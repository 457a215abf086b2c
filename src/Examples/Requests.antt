-- ===== src/Examples/Requests.antt =====
-- The theorems on the CSI plugin at concrete requests.
use kubesan.Prelude.{
  ℕ, ◌≤◌, String, List, [], ◌∷◌, none, some, true, false, ◌≡◌, ◌≢◌, refl, ◌⊎◌, inl, length, arith,
}
use kubesan.Prelude.Text.{decimal}
use kubesan.Api.{
  Volume, VolumeSpec, VolumeStatus, VolumeMode, VolumeWipePolicy, VolumeContentsType,
  VolumeAccessMode, Snapshot,
}
use kubesan.Exec.{
  Err, Result, ok, err, rpc, invalid_argument, panicked, Trace, Env, wrote_volume, create,
}
use kubesan.Csi.{AccessMode, AccessType, VolumeCapability, Parameters}
use kubesan.Csi.Capacity.{CapacityRange, default_extent_size, validate_capacity}
use kubesan.Csi.Capacity.Bounds.{IsAnswer, validate_capacity_lem, validate_capacity_complete}
use kubesan.Csi.Parameters.{get_volume_type, block_type}
use kubesan.Csi.Parameters.Types.{IsBlockVolume, IsMountVolume, get_volume_type_lem}
use kubesan.Csi.Client.{watch_volume_until, delete_volume_and_confirm}
use kubesan.Csi.Client.Waiting.{HasSeen, watch_volume_until-HasSeen}
use kubesan.Csi.Client.Deletion.{IsGone}
use kubesan.Csi.Volumes.{CreateVolumeRequest, CreateVolumeResponse, is_deleting}
use kubesan.Csi.Volumes.Create.{
  Wanted, read_request, validate_volume, create_volume, is_available, new_volume,
}
use kubesan.Csi.Volumes.Change.{delete_unless_staged}
use kubesan.Csi.Volumes.Idempotence.{made, validate_volume-read_request}
use kubesan.Csi.Volumes.Promises.{IsCreated, create_volume_lem, delete_unless_staged-IsGone}
use kubesan.Csi.Listing.{starting_token, page_of}
use kubesan.Csi.Listing.Pages.{page_of-panicked}
use kubesan.Csi.Snapshots.{SnapshotEntry}
use kubesan.Csi.Snapshots.Paging.{snapshot_page, snapshot_page-token}
use kubesan.Examples.World.{world, meta, stored, different}

abbrev five_mebibytes : CapacityRange
five_mebibytes = record { required_bytes = 5242880; limit_bytes = 0 }

accepted : validate_capacity (some five_mebibytes) default_extent_size ≡ ok (8388608, 0)
unfolding validate_capacity
accepted = refl

validate_capacity_lem_example :
    IsAnswer 5242880 0 8388608 × (five_mebibytes.limit_bytes ≡ five_mebibytes.limit_bytes)
validate_capacity_lem_example = validate_capacity_lem (some five_mebibytes) 8388608 0 accepted

abbrev two_extents : ℕ
two_extents = 8388608

positive : two_extents ≢ 0
positive e = omega arith

required : five_mebibytes.limit_bytes ≡ 0 → five_mebibytes.required_bytes ≢ 0
required e p = omega arith

unlimited : five_mebibytes.limit_bytes ≢ 0 → two_extents ≤ five_mebibytes.limit_bytes
unlimited n = absurd (n refl)

validate_capacity_complete_example :
    (c : ℕ) × (validate_capacity (some five_mebibytes) default_extent_size ≡ ok (c, 0))
validate_capacity_complete_example =
    validate_capacity_complete five_mebibytes two_extents (omega arith) (omega arith) refl positive
      (omega arith) (omega arith) unlimited required

abbrev block_capability : VolumeCapability
block_capability = record {
  access_type = AccessType.block;
  access_mode = some AccessMode.single_node_writer;
}

abbrev mount_capability : VolumeCapability
mount_capability = record {
  access_type = AccessType.mount "ext4" [];
  access_mode = some AccessMode.single_node_writer;
}

one_block : get_volume_type false (block_capability ∷ []) ≡ ok block_type
unfolding get_volume_type
one_block = refl

get_volume_type_lem_example :
    IsBlockVolume false (block_capability ∷ []) block_type
    ⊎ IsMountVolume (block_capability ∷ []) block_type
get_volume_type_lem_example = get_volume_type_lem false (block_capability ∷ []) block_type one_block

abbrev request : CreateVolumeRequest
request = record {
  name = "disk";
  parameters = ("lvmVolumeGroup", "vg") ∷ ("mode", "Linear") ∷ [];
  capabilities = block_capability ∷ [];
  capacity_range = some five_mebibytes;
  content_source = none;
  mutable_parameters = [];
}

abbrev spec : VolumeSpec
spec = record {
  vg_name = "vg";
  binding = "disk";
  mode = VolumeMode.linear;
  wipe_policy = VolumeWipePolicy.full;
  type = record { block = some tt; filesystem = none };
  contents = record {
    contents_type = VolumeContentsType.empty;
    source_volume = none;
    source_snapshot = none;
  };
  access_modes = VolumeAccessMode.single_node_multi_writer ∷ [];
  size_bytes = 8388608;
  attach_to_nodes = [];
}

abbrev wanted : Wanted
wanted = record { spec = spec; limit = 0 }

reads : (read_request true request world []).0 ≡ ok wanted
unfolding read_request kubesan.Csi.Volumes.copy_known_parameters kubesan.Csi.lookup
    kubesan.Exec.◌>>=◌ kubesan.Csi.Parameters.get_volume_mode kubesan.Csi.Parameters.get_wipe_policy
    get_volume_type kubesan.Csi.Parameters.get_volume_access_modes validate_capacity
    kubesan.Csi.Volumes.get_volume_contents kubesan.Csi.Volumes.Create.binding_of
    kubesan.Slices.deduplicate kubesan.Csi.Names.safe_name
reads = refl

abbrev empty_status : VolumeStatus
empty_status = record {
  observed_generation = 0;
  conditions = [];
  size_bytes = 0;
  attached_to_nodes = [];
  path = "";
  nbd_export = "";
}

validate_volume-read_request_example :
    validate_volume true false
      (made true request wanted (meta "disk") empty_status ("node-1" ∷ []))
      8388608
      0
      spec.contents
      (block_capability ∷ [])
      request.parameters
    ≡ ""
validate_volume-read_request_example =
    validate_volume-read_request true request wanted (meta "disk") empty_status ("node-1" ∷ [])
      world [] reads (unfold is_deleting in refl)

abbrev answer : CreateVolumeResponse
answer = record {
  capacity_bytes = 8388608;
  volume_id = "kubesan-pvc-695b7ed652757277b806e9705cdaa9dc";
  content_source = none;
}

creates : (create_volume true 1 request world []).0 ≡ ok answer
unfolding create_volume kubesan.Exec.◌>>=◌ read_request kubesan.Csi.Volumes.copy_known_parameters
    kubesan.Csi.lookup kubesan.Csi.Parameters.get_volume_mode kubesan.Csi.Parameters.get_wipe_policy
    get_volume_type kubesan.Csi.Parameters.get_volume_access_modes validate_capacity
    kubesan.Csi.Volumes.get_volume_contents kubesan.Csi.Volumes.Create.create_or_check
    kubesan.Exec.write_volume watch_volume_until is_available
    kubesan.Examples.World.is_condition_true kubesan.Csi.Names.safe_name
creates = refl

create_volume_lem_example : IsCreated true 1 request world [] answer
create_volume_lem_example = create_volume_lem true 1 request world [] answer creates

abbrev volume : Volume
volume = record { metadata = meta "disk"; spec = spec; status = empty_status }

abbrev made_volume : Trace
made_volume = wrote_volume create volume (ok (stored volume)) ∷ []

seen :
    (watch_volume_until 0 (is_available world) (stored volume) world made_volume).0
    ≡ ok (stored volume)
unfolding watch_volume_until is_available kubesan.Examples.World.is_condition_true kubesan.Exec.pure
seen = refl

watch_volume_until-HasSeen_example :
    (is_available world (stored volume) ≡ true)
    × HasSeen
        (stored volume)
        (watch_volume_until 0 (is_available world) (stored volume) world made_volume).1
watch_volume_until-HasSeen_example =
    watch_volume_until-HasSeen 0 (is_available world) (stored volume) (stored volume) world
      made_volume (inl refl) seen

gone : (delete_unless_staged 1 volume world []).0 ≡ ok tt
unfolding delete_unless_staged delete_volume_and_confirm kubesan.Exec.◌>>=◌
    kubesan.Exec.delete_volume kubesan.Csi.Client.poll_until kubesan.Csi.Client.until_gone
    kubesan.Exec.get_volume
gone = refl

delete_unless_staged-IsGone_example :
    (length volume.spec.attach_to_nodes ≡ 0)
    × IsGone volume (delete_unless_staged 1 volume world []).1
delete_unless_staged-IsGone_example = delete_unless_staged-IsGone 1 volume world [] tt gone

abbrev three_volumes : List Volume
three_volumes = volume ∷ stored volume ∷ volume ∷ []

page_of-panicked_example :
    (starting_token "volume" (decimal 2) 0 ≡ ok 2) × (page_of world [] 2 10 ≡ err panicked)
page_of-panicked_example = page_of-panicked world 2 10 (omega arith) (omega arith) (omega arith)

abbrev snapshot : Snapshot
snapshot = record {
  metadata = meta "snap";
  spec = record { vg_name = "vg"; binding = "snap"; source_volume = "disk" };
  status = record { observed_generation = 1; conditions = []; size_bytes = 8388608 };
}

abbrev entry : SnapshotEntry
entry = record {
  size_bytes = 8388608;
  snapshot_id = "snap";
  source_volume_id = "disk";
  creation_time = 1;
}

abbrev three_snapshots : List Snapshot
three_snapshots = snapshot ∷ snapshot ∷ snapshot ∷ []

abbrev token : String
token = "1"

second_page : snapshot_page (λ s. some entry) three_snapshots 1 1 ≡ ok (entry ∷ [], token)
unfolding snapshot_page kubesan.Csi.Snapshots.Paging.snapshot_loop decimal
second_page = refl

token_given : token ≢ ""
token_given = different token "" refl

abbrev one_entry : List SnapshotEntry
one_entry = entry ∷ []

snapshot_page-token_example : (token ≡ decimal 1) × (length one_entry ≡ 1)
snapshot_page-token_example =
    snapshot_page-token (λ s. some entry) three_snapshots 1 1 one_entry token second_page
      token_given
