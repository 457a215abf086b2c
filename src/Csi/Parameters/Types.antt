-- ===== src/Csi/Parameters/Types.antt =====
-- Which capabilities `getVolumeType` accepts together.
use kubesan.Prelude.{
  String, List, [], ◌∷◌, some, Bool, true, false, ◌≡◌, refl, ◌⊎◌, inl, inr, All, length, ap,
}
use kubesan.Api.{VolumeType}
use kubesan.Exec.{Err, ok, err}
use kubesan.Csi.{AccessType, VolumeCapability}
use kubesan.Csi.Parameters.{
  block_type, mount_type, TypeLoop, volume_type_round, merge_type, merge_known, types_differ,
  volume_type_loop, get_volume_type,
}

abbrev pub AreBlocks : List VolumeCapability → Type 0
AreBlocks = All (λ cap. cap.access_type ≡ AccessType.block)

-- the states of the loop behind a first round
abbrev block_state : TypeLoop
block_state = record { is_type_block = true; is_type_mount = false; volume_type = some block_type }

abbrev mount_state : String → List String → TypeLoop
mount_state fs_type flags = record {
  is_type_block = false;
  is_type_mount = true;
  volume_type = some (mount_type fs_type flags);
}

AccessType-cases :
    (a : AccessType)
    → (a ≡ AccessType.block)
      ⊎ (((fs_type : String) × (flags : List String) × (a ≡ AccessType.mount fs_type flags))
          ⊎ (a ≡ AccessType.unset))
AccessType-cases AccessType.block = inl refl
AccessType-cases (AccessType.mount fs_type flags) = inr (inl (fs_type, flags, refl))
AccessType-cases AccessType.unset = inr (inr refl)

err≢ok : {A : Type 0} {e : Err} {a : A} → err e ≡ ok a → ⊥
err≢ok h = cc

block_loop :
    (same_block : Bool) (capabilities : List VolumeCapability) (vt : VolumeType)
    → volume_type_loop same_block capabilities block_state ≡ ok vt
    → AreBlocks capabilities × (vt ≡ block_type) × ((same_block ≡ true) ⊎ (capabilities ≡ []))
unfolding volume_type_loop volume_type_round block_type mount_type merge_type merge_known
    types_differ
block_loop same_block [] vt h = (tt, cc, inr refl)
block_loop true (cap ∷ rest) vt h = elim (AccessType-cases cap.access_type) [
  | inl e ↦ let ih = block_loop true rest vt (rw e at h) in ((e, ih.0), ih.1, inl refl)
  | inr (inl (fs_type, flags, e)) ↦ absurd (err≢ok (rw e at h))
  | inr (inr e) ↦ absurd (err≢ok (rw e at h))
]
block_loop false (cap ∷ rest) vt h = elim (AccessType-cases cap.access_type) [
  | inl e ↦ absurd (err≢ok (rw e at h))
  | inr (inl (fs_type, flags, e)) ↦ absurd (err≢ok (rw e at h))
  | inr (inr e) ↦ absurd (err≢ok (rw e at h))
]

mount_loop :
    (same_block : Bool) (capabilities : List VolumeCapability) (fs_type : String)
    (flags : List String) (vt : VolumeType)
    → volume_type_loop same_block capabilities (mount_state fs_type flags) ≡ ok vt
    → (capabilities ≡ []) × (vt ≡ mount_type fs_type flags)
unfolding volume_type_loop volume_type_round block_type mount_type merge_type merge_known
    types_differ
mount_loop same_block [] fs_type flags vt h = (refl, cc)
mount_loop same_block (cap ∷ rest) fs_type flags vt h = elim (AccessType-cases cap.access_type) [
  | inl e ↦ absurd (err≢ok (rw e at h))
  | inr (inl (fs_type', flags', e)) ↦ absurd (err≢ok (rw e at h))
  | inr (inr e) ↦ absurd (err≢ok (rw e at h))
]

-- what the capabilities of a block volume are
abbrev pub IsBlockVolume : Bool → List VolumeCapability → VolumeType → Type 0
IsBlockVolume same_block capabilities vt =
    AreBlocks capabilities × (vt ≡ block_type) × ((same_block ≡ true) ⊎ (length capabilities ≡ 1))

-- and of a filesystem volume
abbrev pub IsMountVolume : List VolumeCapability → VolumeType → Type 0
IsMountVolume capabilities vt =
    (cap : VolumeCapability) × (fs_type : String) × (flags : List String) × (capabilities
      ≡ cap ∷ [])
    × (cap.access_type ≡ AccessType.mount fs_type flags)
    × (vt ≡ mount_type fs_type flags)

-- If the capabilities have a volume type, then either all are block ones, and there is one of them
-- or Go lets the pointers to the empty block structs be equal, or there is exactly one, and it is a
-- mount: two mount capabilities are refused even when they are the same.
pub get_volume_type_lem :
    (same_block : Bool) (capabilities : List VolumeCapability) (vt : VolumeType)
    → get_volume_type same_block capabilities ≡ ok vt
    → IsBlockVolume same_block capabilities vt ⊎ IsMountVolume capabilities vt
unfolding get_volume_type volume_type_loop volume_type_round block_type mount_type merge_type
    merge_known
get_volume_type_lem same_block [] vt h = absurd (err≢ok h)
get_volume_type_lem same_block (cap ∷ rest) vt h = elim (AccessType-cases cap.access_type) [
  | inl e ↦
      let (blocks, eq, alone) = block_loop same_block rest vt (rw e at h) in
      inl ((e, blocks), eq, elim alone [ inl s ↦ inl s | inr none_left ↦ inr (rw none_left refl) ])
  | inr (inl (fs_type, flags, e)) ↦
      let (none_left, eq) = mount_loop same_block rest fs_type flags vt (rw e at h) in
      inr (cap, fs_type, flags, ap (λ l. cap ∷ l) none_left, e, eq)
  | inr (inr e) ↦ absurd (err≢ok (rw e at h))
]
