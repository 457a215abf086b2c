-- ===== src/Csi/Volumes/Idempotence.antt =====
-- The checks of `validateVolume` on a volume that the same request has made.
use mathlib.Core.Path.{subst}
use kubesan.Prelude.{
  ℕ, String, List, [], ◌∷◌, Option, none, some, Bool, true, false, ◌&&◌, ◌||◌, ◌==◌, string_eq, ltb,
  length, ◌≡◌, refl, sym, inl, inr, eq_iff, arith,
}
use kubesan.Slices.{contains}
use kubesan.Api.{
  VolumeMode, VolumeWipePolicy, VolumeType, VolumeTypeFilesystem, VolumeAccessMode, VolumeStatus,
  Volume, ObjectMeta,
}
use kubesan.Exec.{ok, Env, Trace}
use kubesan.Exec.Rules.{
  Yields, Yields-pure, Yields-throw, Yields-bind, Yields-bind_known, Yields-if, Yields-lift,
}
use kubesan.Csi.{VolumeCapability, lookup}
use kubesan.Csi.Capacity.{default_extent_size, validate_capacity}
use kubesan.Csi.Capacity.Bounds.{validate_capacity_lem}
use kubesan.Csi.Parameters.{
  get_volume_mode, get_wipe_policy, get_volume_type, get_volume_access_modes, validate_capabilities,
  access_mode_eq, filesystem_eq, block_type, mount_type, type_conflict, modes_offered,
  pointer_conflict, filesystem_conflict, check_modes,
}
use kubesan.Csi.Parameters.Types.{get_volume_type_lem}
use kubesan.Csi.Volumes.{
  ContentSource, from_volume, from_snapshot, unsupported, CreateVolumeRequest,
  copy_known_parameters, get_volume_contents, is_deleting,
}
use kubesan.Csi.Volumes.Create.{
  Wanted, read_request, validate_volume, contents_match, same_mode, same_policy,
}

beq_refl : (s : String) → (s == s) ≡ true
beq_refl s = (eq_iff s s).1 refl

-- the contents that a request yields match themselves
contents_match_self :
    {env : Env} (source : Option ContentSource) (group : String) (limit : ℕ) (type : VolumeType)
    → Yields env (λ c. contents_match c c ≡ true) (get_volume_contents source group limit type)
unfolding get_volume_contents contents_match
contents_match_self none group limit type = Yields-pure _ refl
contents_match_self (some (from_volume id)) group limit type = Yields-bind _ _ (λ a.
    Yields-bind _ _ (λ b.
      Yields-bind _ _
        (λ c. Yields-bind _ _ (λ d. Yields-bind _ _ (λ e. Yields-pure _ (beq_refl id))))))
contents_match_self (some (from_snapshot id)) group limit type = Yields-bind _ _ (λ a.
    Yields-bind _ _ (λ b.
      Yields-bind _ _
        (λ c. Yields-bind _ _ (λ d. Yields-bind _ _ (λ e. Yields-pure _ (beq_refl id))))))
contents_match_self (some unsupported) group limit type = Yields-throw _

-- what the handler reads off a request
pub record Reads (same_block : Bool) (req : CreateVolumeRequest) (wanted : Wanted) : Type 0 where
  pub group : lookup req.parameters "lvmVolumeGroup" ≡ wanted.spec.vg_name
  pub mode : get_volume_mode req.parameters ≡ ok wanted.spec.mode
  pub policy : get_wipe_policy req.parameters ≡ ok wanted.spec.wipe_policy
  pub type : get_volume_type same_block req.capabilities ≡ ok wanted.spec.type
  pub access_modes : get_volume_access_modes req.capabilities ≡ ok wanted.spec.access_modes
  pub capacity :
      validate_capacity req.capacity_range default_extent_size
      ≡ ok (wanted.spec.size_bytes, wanted.limit)
  pub contents : contents_match wanted.spec.contents wanted.spec.contents ≡ true

read_request-Reads :
    {env : Env} (same_block : Bool) (req : CreateVolumeRequest)
    → Yields env (Reads same_block req) (read_request same_block req)
unfolding read_request
read_request-Reads same_block req =
    Yields-if (ltb (length (copy_known_parameters req.parameters)) (length req.parameters)) _ _
      (λ e. Yields-throw _)
      (λ e.
        Yields-if (lookup req.parameters "lvmVolumeGroup" == "") _ _ (λ e. Yields-throw _)
          (λ e.
            Yields-if (req.name == "") _ _ (λ e. Yields-throw _)
              (λ e. Yields-bind_known _ _ _ (Yields-lift _) (λ mode mode_eq.
                Yields-bind_known _ _ _ (Yields-lift _) (λ policy policy_eq.
                  Yields-bind_known _ _ _ (Yields-lift _) (λ type type_eq.
                    Yields-bind_known _ _ _ (Yields-lift _) (λ modes modes_eq.
                      Yields-bind_known _ _ _ (Yields-lift _) (λ c c_eq.
                        Yields-bind_known _ _ _ (contents_match_self req.content_source _ _ _)
                          (λ contents contents_eq.
                            Yields-if (ltb 0 (length req.mutable_parameters)) _ _
                              (λ e. Yields-throw _)
                              (λ e. Yields-pure _ (record {
                                group = refl;
                                mode = mode_eq;
                                policy = policy_eq;
                                type = type_eq;
                                access_modes = modes_eq;
                                capacity = c_eq;
                                contents = contents_eq;
                              })))))))))))

mode_self : (m : VolumeMode) → same_mode (ok m) m ≡ true
unfolding same_mode
mode_self VolumeMode.thin = refl
mode_self VolumeMode.linear = refl
mode_self VolumeMode.other = refl

policy_self : (p : VolumeWipePolicy) → same_policy (ok p) p ≡ true
unfolding same_policy
policy_self VolumeWipePolicy.full = refl
policy_self VolumeWipePolicy.unsafe_fast = refl

mode_refl : (m : VolumeAccessMode) → (m == m) ≡ true
mode_refl m = (access_mode_eq.equals_iff m m).1 refl

or_true : (b : Bool) {c : Bool} → c ≡ true → (b || c) ≡ true
or_true b e = ground arith

modes_offered-subset :
    (modes offered : List VolumeAccessMode)
    → ((m : VolumeAccessMode) → contains modes m ≡ true → contains offered m ≡ true)
    → modes_offered modes offered ≡ true
unfolding modes_offered contains
modes_offered-subset [] offered h = refl
modes_offered-subset (m ∷ modes) offered h =
    let here = h m (rw (mode_refl m) refl) in
    let rest = modes_offered-subset modes offered (λ a e. h a (or_true (a == m) e)) in rw here rest

filesystem_conflict_self : (f : VolumeTypeFilesystem) → filesystem_conflict f f ≡ ""
unfolding filesystem_conflict
filesystem_conflict_self f = rw ((filesystem_eq.equals_iff f f).1 refl) refl

type_conflict_self :
    (same_block : Bool) (capabilities : List VolumeCapability) (vt : VolumeType)
    → get_volume_type same_block capabilities ≡ ok vt
    → type_conflict vt vt ≡ ""
unfolding type_conflict pointer_conflict filesystem_conflict block_type mount_type
type_conflict_self same_block capabilities vt h =
    elim (get_volume_type_lem same_block capabilities vt h) [
      | inl (blocks, eq, alone) ↦ subst (λ v. type_conflict v v ≡ "") (sym eq) refl
      | inr (only, fs_type, flags, one, mount, eq) ↦
          subst (λ v. type_conflict v v ≡ "") (sym eq)
            (filesystem_conflict_self (record { fs_type = fs_type; mount_options = flags }))
    ]

check_modes_self :
    (capabilities : List VolumeCapability) (modes : List VolumeAccessMode)
    → get_volume_access_modes capabilities ≡ ok modes
    → check_modes (get_volume_access_modes capabilities) modes ≡ ""
unfolding check_modes
check_modes_self capabilities modes h = rw (h, modes_offered-subset modes modes (λ m e. e)) refl

module _ (same_block : Bool) (req : CreateVolumeRequest) (wanted : Wanted) (metadata : ObjectMeta)
    (status : VolumeStatus) (nodes : List String) where
  -- the volume that the request asked for, as it may be by now
  abbrev pub made : Volume
  made = record {
    metadata = metadata;
    spec = record wanted.spec { attach_to_nodes = nodes };
    status = status;
  }

  validate_capabilities_self :
      Reads same_block req wanted → validate_capabilities same_block made req.capabilities ≡ ""
  unfolding validate_capabilities
  validate_capabilities_self r =
      rw
        (
          r.type,
          type_conflict_self same_block req.capabilities wanted.spec.type r.type,
          validate_capabilities,
        )
        (check_modes_self req.capabilities wanted.spec.access_modes r.access_modes)

  sizes_self :
      Reads same_block req wanted
      → ltb wanted.spec.size_bytes wanted.spec.size_bytes
          || ltb 0 wanted.limit && ltb wanted.limit wanted.spec.size_bytes
        ≡ false
  sizes_self r =
      let (answer, limit) =
        validate_capacity_lem req.capacity_range wanted.spec.size_bytes wanted.limit r.capacity in
      let within = answer.within in ground arith

  validate_volume-Reads :
      Reads same_block req wanted
      → is_deleting metadata ≡ false
      → validate_volume same_block false made wanted.spec.size_bytes wanted.limit
          wanted.spec.contents req.capabilities req.parameters
        ≡ ""
  unfolding validate_volume
  validate_volume-Reads r alive =
      rw
        (
          alive,
          sizes_self r,
          r.contents,
          r.group,
          beq_refl wanted.spec.vg_name,
          r.mode,
          mode_self wanted.spec.mode,
          r.policy,
          policy_self wanted.spec.wipe_policy,
        )
        (validate_capabilities_self r)

-- A repeated `CreateVolume` is accepted: if the handler reads a valid request, a volume with the
-- spec that it then asks for, attached to any nodes by now, with any status, and not being deleted,
-- passes the check that the handler makes when the API server says that the volume exists.
pub validate_volume-read_request :
    (same_block : Bool) (req : CreateVolumeRequest) (wanted : Wanted) (metadata : ObjectMeta)
    (status : VolumeStatus) (nodes : List String) (env : Env) (t : Trace)
    → (read_request same_block req env t).0 ≡ ok wanted
    → is_deleting metadata ≡ false
    → validate_volume same_block false
        (made same_block req wanted metadata status nodes)
        wanted.spec.size_bytes
        wanted.limit
        wanted.spec.contents
        req.capabilities
        req.parameters
      ≡ ""
validate_volume-read_request same_block req wanted metadata status nodes env t h =
    validate_volume-Reads same_block req wanted metadata status nodes
      ((read_request-Reads same_block req).result t wanted h)
