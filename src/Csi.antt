-- ===== src/Csi.antt =====
-- internal/csi: the CSI plugin, with the types of its requests that the handlers read. A request's
-- map is a list of pairs of which the first with a key counts; a missing key reads as "".
pub mod Capacity
pub mod Parameters
pub mod Names
pub mod Node
pub mod Client
pub mod Volumes
pub mod Listing
pub mod Snapshots
use kubesan.Prelude.{String, List, [], ◌∷◌, Option, none, some, ◌==◌, string_eq, if◌then◌else◌}

pub data AccessMode : Type 0 where
  unknown single_node_writer single_node_reader_only multi_node_reader_only multi_node_single_writer
        multi_node_multi_writer single_node_single_writer single_node_multi_writer :
      AccessMode

-- the union behind GetBlock and GetMount
pub data AccessType : Type 0 where
  block : AccessType
  mount : String → List String → AccessType
  unset : AccessType

-- csi.VolumeCapability; its access mode is a pointer
pub record VolumeCapability : Type 0 where
  pub access_type : AccessType
  pub access_mode : Option AccessMode

abbrev pub Parameters : Type 0
Parameters = List (String × String)

-- parameters[key]
unfoldable pub lookup : Parameters → String → String
lookup [] key = ""
lookup ((k, value) ∷ parameters) key = if k == key then value else lookup parameters key
