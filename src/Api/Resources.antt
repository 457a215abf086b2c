-- ===== src/Api/Resources.antt =====
-- api/v1alpha1/volume_types.go, snapshot_types.go and nbdexport_types.go
use kubesan.Prelude.{ℕ, String, List, Option}
use kubesan.Api.Meta.{ObjectMeta, Condition}

pub data VolumeMode : Type 0 where
  thin linear other : VolumeMode

pub data VolumeWipePolicy : Type 0 where
  full unsafe_fast : VolumeWipePolicy

pub record VolumeTypeFilesystem : Type 0 where
  pub fs_type : String
  pub mount_options : List String

pub record VolumeType : Type 0 where
  pub block : Option (Unit {0})
  pub filesystem : Option VolumeTypeFilesystem

pub data VolumeContentsType : Type 0 where
  empty clone_volume clone_snapshot other : VolumeContentsType

pub record VolumeContents : Type 0 where
  pub contents_type : VolumeContentsType
  -- CloneVolume.SourceVolume and CloneSnapshot.SourceSnapshot
  pub source_volume : Option String
  pub source_snapshot : Option String

pub data VolumeAccessMode : Type 0 where
  single_node_reader_only single_node_single_writer single_node_multi_writer multi_node_reader_only
        multi_node_single_writer multi_node_multi_writer :
      VolumeAccessMode

pub record VolumeSpec : Type 0 where
  pub vg_name : String
  pub binding : String
  pub mode : VolumeMode
  pub wipe_policy : VolumeWipePolicy
  pub type : VolumeType
  pub contents : VolumeContents
  pub access_modes : List VolumeAccessMode
  pub size_bytes : ℕ
  pub attach_to_nodes : List String

pub record VolumeStatus : Type 0 where
  pub observed_generation : ℕ
  pub conditions : List Condition
  pub size_bytes : ℕ
  pub attached_to_nodes : List String
  pub path : String
  pub nbd_export : String

pub record Volume : Type 0 where
  pub metadata : ObjectMeta
  pub spec : VolumeSpec
  pub status : VolumeStatus

pub record SnapshotSpec : Type 0 where
  pub vg_name : String
  pub binding : String
  pub source_volume : String

pub record SnapshotStatus : Type 0 where
  pub observed_generation : ℕ
  pub conditions : List Condition
  pub size_bytes : ℕ

pub record Snapshot : Type 0 where
  pub metadata : ObjectMeta
  pub spec : SnapshotSpec
  pub status : SnapshotStatus

pub record NbdExportSpec : Type 0 where
  pub export_name : String
  pub path : String
  pub host : String
  pub size_bytes : ℕ
  pub clients : List String

pub record NbdExportStatus : Type 0 where
  pub observed_generation : ℕ
  pub conditions : List Condition
  pub uri : String

pub record NbdExport : Type 0 where
  pub metadata : ObjectMeta
  pub spec : NbdExportSpec
  pub status : NbdExportStatus
