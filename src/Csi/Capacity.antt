-- ===== src/Csi/Capacity.antt =====
-- `validateCapacity` of internal/csi/controller/volume.go. An int64 is its bit pattern, a number
-- below 2 ^ 64: negative from 2 ^ 63 on, and sums wrap.
pub mod Bounds
use kubesan.Prelude.{
  ℕ, String, ◌+◌, ◌*◌, ◌/◌, ◌%◌, Bool, true, false, ◌||◌, ◌&&◌, Option, none, some, ltb, leb,
  nat_beq, if◌then◌else◌,
}
use kubesan.Exec.{Err, rpc, invalid_argument, out_of_range, Result, ok, err}

-- defaultExtentSize
abbrev pub default_extent_size : ℕ
default_extent_size = 4194304

pub record CapacityRange : Type 0 where
  pub required_bytes : ℕ
  pub limit_bytes : ℕ

abbrev pub is_negative : ℕ → Bool
is_negative x = leb 9223372036854775808 x

-- minCapacity + extentSize - 1
unfoldable pub raised : ℕ → ℕ → ℕ
raised min_capacity extent_size =
    (min_capacity + extent_size + 18446744073709551615) % 18446744073709551616

invalid : String → Err
invalid message = rpc invalid_argument message

-- behind the checks of the range, where nothing is negative
unfoldable pub round_capacity : ℕ → ℕ → ℕ → ℕ → Result (ℕ × ℕ)
unfolding raised
round_capacity min_capacity max_capacity limit extent_size =
    if is_negative (raised min_capacity extent_size)
    then err (rpc out_of_range "integer overflow when rounding capacity")
    else let rounded_min = raised min_capacity extent_size / extent_size * extent_size in
      let rounded_max = max_capacity / extent_size * extent_size in
      if nat_beq rounded_min 0
      then ok (rounded_max, limit)
      else if ltb rounded_max rounded_min
      then err (rpc out_of_range "capacity must allow for a multiple of the extent size")
      else ok (rounded_min, limit)

unfoldable pub check_range : ℕ → ℕ → ℕ → Result (ℕ × ℕ)
unfolding round_capacity raised invalid
check_range min_capacity max_capacity extent_size =
    if nat_beq min_capacity 0 && nat_beq max_capacity 0
    then err (invalid "at least one of minimum and maximum capacity must be given")
    else if is_negative min_capacity || is_negative max_capacity
    then err (invalid "capacity must be non-negative")
    else if nat_beq max_capacity 0
    then round_capacity min_capacity (raised min_capacity extent_size) max_capacity extent_size
    else if ltb max_capacity min_capacity
    then err (invalid "minimum capacity must not exceed maximum capacity")
    else round_capacity min_capacity max_capacity max_capacity extent_size

-- The capacity, and the limit of the request. Without a range it is one gigabyte.
unfoldable pub validate_capacity : Option CapacityRange → ℕ → Result (ℕ × ℕ)
unfolding check_range
validate_capacity none extent_size = check_range 1073741824 1073741824 extent_size
validate_capacity (some range) extent_size =
    check_range range.required_bytes range.limit_bytes extent_size
