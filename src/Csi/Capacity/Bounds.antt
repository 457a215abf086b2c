-- ===== src/Csi/Capacity/Bounds.antt =====
-- What a capacity that `validate_capacity` accepts satisfies.
use kubesan.Prelude.{
  ℕ, ◌+◌, ◌*◌, ◌/◌, ◌%◌, ◌≤◌, ◌<◌, ◌≡◌, ◌≢◌, ◌⊎◌, inl, inr, Option, none, some, nat_beq, arith,
  Bool-cases,
}
use kubesan.Exec.{ok}
use kubesan.Csi.Capacity.{
  CapacityRange, default_extent_size, raised, round_capacity, check_range, validate_capacity,
}

-- a capacity that answers a request
pub record IsAnswer (required limit capacity : ℕ) : Type 0 where
  pub whole : capacity % default_extent_size ≡ 0
  pub enough : required ≤ capacity
  pub within : limit ≢ 0 → capacity ≤ limit
  pub least : required ≢ 0 → capacity < required + default_extent_size
  pub fits : capacity < 9223372036854775808
  pub empty : capacity ≡ 0 → (required ≡ 0) × (limit < default_extent_size)

-- the two ways in which rounding succeeds
round_capacity-cases :
    (required max limit c l : ℕ)
    → round_capacity required max limit default_extent_size ≡ ok (c, l)
    → let low = raised required default_extent_size in
      (low < 9223372036854775808)
      × (l ≡ limit)
      × (((low / 4194304 * 4194304 ≡ 0) × (c ≡ max / 4194304 * 4194304))
          ⊎ ((c ≡ low / 4194304 * 4194304)
              × (low / 4194304 * 4194304 ≢ 0)
              × (low / 4194304 * 4194304 ≤ max / 4194304 * 4194304)))
unfolding round_capacity
round_capacity-cases required max limit c l h = ground arith

module _ (required max limit c l : ℕ) (h₁ : required < 9223372036854775808)
    (h₂ : limit ≢ 0 → (limit ≡ max) × (max < 9223372036854775808))
    (h₃ : limit ≡ 0 → (required ≢ 0) × (max ≡ raised required default_extent_size)) where
  round_capacity-IsAnswer :
      round_capacity required max limit default_extent_size ≡ ok (c, l)
      → IsAnswer required limit c × (l ≡ limit)
  unfolding raised
  round_capacity-IsAnswer h =
      let facts = round_capacity-cases required max limit c l h in
      (
        record {
          whole = ground arith;
          enough = ground arith;
          within = ground arith;
          least = ground arith;
          fits = ground arith;
          empty = ground arith;
        },
        facts.1,
      )

module _ (required limit c l : ℕ) where
  check_range-IsAnswer :
      check_range required limit default_extent_size ≡ ok (c, l)
      → IsAnswer required limit c × (l ≡ limit)
  unfolding check_range
  check_range-IsAnswer h = elim (Bool-cases (nat_beq limit 0)) [
    | inl unlimited ↦
        let eq : round_capacity required (raised required default_extent_size) limit
              default_extent_size
            ≡ ok (c, l) =
          ground arith in
        round_capacity-IsAnswer required (raised required default_extent_size) limit c l
          (ground arith) (ground arith) (ground arith) eq
    | inr limited ↦
        let eq : round_capacity required limit limit default_extent_size ≡ ok (c, l) =
          ground arith in
        round_capacity-IsAnswer required limit limit c l (ground arith) (ground arith)
          (ground arith) eq
  ]

-- the range that stands for a request
abbrev pub requested : Option CapacityRange → CapacityRange
requested none = record { required_bytes = 1073741824; limit_bytes = 1073741824 }
requested (some range) = range

-- A capacity that is accepted is a whole number of extents, at least the required bytes, less than
-- one extent more unless nothing is required, within the limit if there is one, and an int64; the
-- limit is handed on as it is. It is zero only if nothing is required and the limit is less than
-- one extent.
pub validate_capacity_lem :
    (range : Option CapacityRange) (capacity limit : ℕ)
    → validate_capacity range default_extent_size ≡ ok (capacity, limit)
    → IsAnswer (requested range).required_bytes (requested range).limit_bytes capacity
      × (limit ≡ (requested range).limit_bytes)
unfolding validate_capacity
validate_capacity_lem none capacity limit h =
    check_range-IsAnswer 1073741824 1073741824 capacity limit h
validate_capacity_lem (some range) capacity limit h =
    check_range-IsAnswer range.required_bytes range.limit_bytes capacity limit h

check_range_complete :
    (required limit m : ℕ)
    → required < 9223372036854775808
    → limit < 9223372036854775808
    → m % default_extent_size ≡ 0
    → m ≢ 0
    → m < 9223372036854775808
    → required ≤ m
    → (limit ≢ 0 → m ≤ limit)
    → (limit ≡ 0 → required ≢ 0)
    → (c : ℕ) × (check_range required limit default_extent_size ≡ ok (c, limit))
unfolding check_range round_capacity raised
check_range_complete required limit m h₁ h₂ h₃ h₄ h₅ h₆ h₇ h₈ =
    elim (Bool-cases (nat_beq required 0)) [
      | inl nothing ↦ (limit / default_extent_size * default_extent_size, ground arith)
      | inr something ↦ (
        raised required default_extent_size / default_extent_size * default_extent_size,
        ground arith,
      )
    ]

-- If a request asks for a size or gives a limit, its numbers are not negative and below 2 ^ 63, and
-- some positive whole number of extents below 2 ^ 63 is at least the size and at most the limit, if
-- there is one, the request is accepted. A request with neither is not spoken of.
pub validate_capacity_complete :
    (range : CapacityRange) (m : ℕ)
    → range.required_bytes < 9223372036854775808
    → range.limit_bytes < 9223372036854775808
    → m % default_extent_size ≡ 0
    → m ≢ 0
    → m < 9223372036854775808
    → range.required_bytes ≤ m
    → (range.limit_bytes ≢ 0 → m ≤ range.limit_bytes)
    → (range.limit_bytes ≡ 0 → range.required_bytes ≢ 0)
    → (c : ℕ) × (validate_capacity (some range) default_extent_size ≡ ok (c, range.limit_bytes))
unfolding validate_capacity
validate_capacity_complete range m h₁ h₂ h₃ h₄ h₅ h₆ h₇ h₈ =
    check_range_complete range.required_bytes range.limit_bytes m h₁ h₂ h₃ h₄ h₅ h₆ h₇ h₈
