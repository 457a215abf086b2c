-- ===== src/Examples/Blobs.antt =====
-- The theorems on blobs at concrete pools.
use kubesan.Prelude.{String, Bool, true, false, [], ◌∷◌, none, some, ◌≡◌, ◌≢◌, refl}
use kubesan.Api.{
  ThinPoolLv, ThinLvSpec, ThinLvContents, ThinLvSpecStateName, ThinLvStatusStateName,
  ThinLvContentsType, find_thin_lv_spec, find_spec, find_status,
}
use kubesan.Exec.{Env, ok, err, already_exists, create}
use kubesan.ThinPool.{
  volume_to_thin_lv_name, deep_equal, update_thin_pool_lv, thin_pool_lv_needs_activation,
}
use kubesan.Blobs.{Copies, create_thin_lv, remove_blob, request_thin_lv}
use kubesan.Blobs.Create.{create_blob, create_pool_object, empty_contents}
use kubesan.Blobs.Waiting.{HasSize, create_blob-HasSize}
use kubesan.Blobs.Removal.{IsCareful, remove_blob-IsCareful}
use kubesan.Blobs.Sizes.{IsRequested, request_thin_lv_lem}
use kubesan.Examples.World.{world, lv_spec, lv_status, pool_of}

-- a cluster with one pool, whose only thin LV is removed
abbrev removing : Env
removing = record world {
  get_pool = λ t name. ok (pool_of (lv_spec "thin-pvc" ThinLvSpecStateName.removed ∷ []) [] "" "");
}

remove_blob-IsCareful_example :
    IsCareful (volume_to_thin_lv_name "pvc") (remove_blob "pool" "pvc" "volume" removing []).1
remove_blob-IsCareful_example = remove_blob-IsCareful "pool" "pvc" "volume" removing

-- a pool in which the thin LV is to be expanded
abbrev small : ThinPoolLv
small =
    pool_of (lv_spec "a" ThinLvSpecStateName.active ∷ lv_spec "b" ThinLvSpecStateName.inactive ∷ [])
      (lv_status "a" ThinLvStatusStateName.active ∷ []) "node-1" "node-1"

abbrev empty : ThinLvContents
empty = record { contents_type = ThinLvContentsType.empty; source_thin_lv_name = none }

request_thin_lv_lem_example :
    ((lv : ThinLvSpec) × (find_thin_lv_spec (request_thin_lv small "a" "ns/claim" 8388608 empty) "a"
        ≡ some lv)
      × IsRequested small "a" "ns/claim" 8388608 empty lv)
    × ((other : String)
        → "a" ≢ other
        → find_thin_lv_spec (request_thin_lv small "a" "ns/claim" 8388608 empty) other
          ≡ find_thin_lv_spec small other)
request_thin_lv_lem_example = request_thin_lv_lem small "a" "ns/claim" 8388608 empty

-- a cluster in which the pool of the blob is there, and has made the thin LV
abbrev made : ThinPoolLv
made =
    pool_of (lv_spec "thin-pvc" ThinLvSpecStateName.inactive ∷ [])
      (lv_status "thin-pvc" ThinLvStatusStateName.inactive ∷ []) "" ""

abbrev has_made : Env
has_made = record world {
  get_pool = λ t name. ok made;
  write_pool = λ t verb pool. elim verb [ create ↦ err already_exists | _ ↦ ok pool ];
}

-- the first update and the last one compare the same pools, so that either answer leads on
succeeds_either :
    (same : Bool)
    → deep_equal (some made) made ≡ same
    → (create_blob "vg" "pvc" "ns/claim" 4194304 "volume" has_made []).0 ≡ ok tt
unfolding create_blob update_thin_pool_lv thin_pool_lv_needs_activation find_spec find_status
succeeds_either true h = rw h (rw h refl)
succeeds_either false h = rw h (rw h refl)

succeeds : (create_blob "vg" "pvc" "ns/claim" 4194304 "volume" has_made []).0 ≡ ok tt
succeeds = succeeds_either _ refl

create_blob-HasSize_example :
    (pool : ThinPoolLv) × (created : Copies) × ((create_pool_object "vg" "pvc" 4194304 "volume"
        has_made []).0
      ≡ ok pool)
    × ((create_thin_lv
          (some pool)
          pool
          (volume_to_thin_lv_name "pvc")
          "ns/claim"
          4194304
          empty_contents
          has_made
          (create_pool_object "vg" "pvc" 4194304 "volume" has_made []).1).0
        ≡ ok created)
    × HasSize (volume_to_thin_lv_name "pvc") 4194304 created.1
create_blob-HasSize_example =
    create_blob-HasSize "vg" "pvc" "ns/claim" 4194304 "volume" has_made [] succeeds
