-- ===== src/Csi/Names.antt =====
-- internal/csi/common/validate/validate.go: the names of the resources behind a request.
use Prim.Native.Char.{code}
use Prim.Native.String.{◌++◌ as ◌<>◌, slice}
use kubesan.Prelude.{
  ℕ, zero, suc, ◌+◌, ◌*◌, ◌/◌, ◌%◌, String, List, [], ◌∷◌, Option, none, some, Bool, true, false,
  ◌&&◌, ◌||◌, leb, ltb, nat_beq, if◌then◌else◌, ◌==◌, string_eq, length,
}
use kubesan.Exec.{rpc, invalid_argument, Result, ok, err, Exec, pure, throw, ask, ◌>>=◌}
use kubesan.Commands.Munge.{bytes}
use kubesan.Csi.{AccessMode, AccessType, VolumeCapability, Parameters}

is_hex : ℕ → Bool
is_hex c = leb b'a' c && leb c b'f' || leb b'0' c && leb c b'9'

-- `[a-f0-9]{n}` at the start: what is behind it
hex_run : ℕ → String → Option String
unfolding is_hex
hex_run zero s = some s
hex_run (suc n) String.[] = none
hex_run (suc n) (String.◌∷◌ c s) = if is_hex (code c) then hex_run n s else none

-- `-[a-f0-9]{n}` at the start
dash_run : ℕ → String → Option String
unfolding hex_run
dash_run n String.[] = none
dash_run n (String.◌∷◌ c s) = if nat_beq (code c) b'-' then hex_run n s else none

-- the lengths of the groups behind the prefix, up to the end of the name
groups : List ℕ → String → Bool
unfolding dash_run
groups [] s = s == ""
groups (n ∷ ns) s = elim (dash_run n s) [ none ↦ false | some rest ↦ groups ns rest ]

-- `[a-z]*` takes all letters, since the pattern goes on with a dash
letters : String → String × String
letters String.[] = (String.[], String.[])
letters (String.◌∷◌ c s) =
    let (front, rest) = letters s in
    if leb b'a' (code c) && leb (code c) b'z'
    then (String.◌∷◌ c front, rest)
    else (String.[], String.◌∷◌ c s)

-- FindStringSubmatch of safeNamePattern: the prefix
safe_prefix : String → Option String
unfolding letters groups
safe_prefix name =
    let (front, rest) = letters name in
    if groups (8 ∷ 4 ∷ 4 ∷ 4 ∷ 12 ∷ []) rest then some front else none

xor : ℕ → ℕ → ℕ → ℕ
xor zero a b = 0
xor (suc bits) a b = (if nat_beq (a % 2) (b % 2) then 0 else 1) + 2 * xor bits (a / 2) (b / 2)

-- hash/fnv: New128a, with its offset, and its prime 2 ^ 88 + 0x13B
fnv_128a : List ℕ → ℕ → ℕ
unfolding xor
fnv_128a [] hash = hash
fnv_128a (b ∷ bs) hash = fnv_128a bs (
    (hash / 256 * 256 + xor 8 (hash % 256) b)
    * 309485009821345068724781371
    % 340282366920938463463374607431768211456)

hex_text : ℕ → String
hex_text d = slice "0123456789abcdef" d (d + 1)

-- the last `digits` hexadecimal digits
encode_hex : ℕ → ℕ → String
unfolding hex_text
encode_hex zero n = ""
encode_hex (suc digits) n = encode_hex digits (n / 16) <> hex_text (n % 16)

hashed_name : String → String → String
unfolding fnv_128a encode_hex bytes
hashed_name name prefix =
    "kubesan-"
    <> (prefix
        <> ("-" <> encode_hex 32 (fnv_128a (bytes name) 144066263297769815596495629667062367629)))

unfoldable pub safe_name : String → String → String
unfolding safe_prefix hashed_name
safe_name name prefix = elim (safe_prefix name) [
  | none ↦ hashed_name name prefix
  | some found ↦ if found == prefix then name else hashed_name name prefix
]

-- `ValidateVolumeID` and `ValidateSnapshotID`; the message of an invalid label ends in the reasons
-- that Kubernetes gives, of which only the presence is modelled
unfoldable pub validate_id : String → String → Exec (Unit {0})
unfolding ask throw pure ◌>>=◌
validate_id id category = do
  env ← ask
  if id == ""
      then throw (rpc invalid_argument (category <> " id cannot be empty"))
      else if ltb 0 (length (env.is_dns_label id))
      then throw (rpc invalid_argument (category <> " id is not a valid RFC 1123 label"))
      else pure tt

unfoldable pub validate_volume_context : Parameters → Result (Unit {0})
validate_volume_context [] = ok tt
validate_volume_context (_ ∷ _) = err (rpc invalid_argument "unexpected volume context")

is_single_node : Option AccessMode → Bool
is_single_node (some AccessMode.single_node_writer) = true
is_single_node (some AccessMode.single_node_reader_only) = true
is_single_node (some AccessMode.single_node_single_writer) = true
is_single_node (some AccessMode.single_node_multi_writer) = true
is_single_node _ = false

-- the access mode, which Go's getters read as 0, `unknown`, when it is missing
unfoldable pub validate_volume_capability : VolumeCapability → Result (Unit {0})
unfolding is_single_node
validate_volume_capability capability = elim capability.access_type [
  | AccessType.mount fs_type flags ↦
      if is_single_node capability.access_mode
      then ok tt
      else err (rpc invalid_argument "Filesystem volumes only support single-node access modes")
  | AccessType.block ↦ ok tt
  | AccessType.unset ↦ err (rpc invalid_argument "expected a block or mount volume")
]
