-- ===== src/Blobs/Sizes.antt =====
-- What `createThinLv` asks of a pool: the entry of one thin LV, and its size.
use kubesan.Prelude.{
  ℕ, String, List, [], ◌∷◌, ◌++◌, Option, none, some, Bool, true, false, string_eq, if◌then◌else◌,
  ◌≡◌, ◌≢◌, ◌⊎◌, inl, inr, refl, arith, eq_iff, ltb, ◌<◌, ◌≤◌,
}
use kubesan.Api.{
  ThinPoolLv, ThinLvSpec, ThinLvStatus, ThinLvSpecStateName, ThinLvContents, ThinLvContentsType,
  find_spec, modify_spec, find_thin_lv_spec, find_thin_lv_status, with_thin_lv_spec,
}
use kubesan.ThinPool.Entries.{find_spec-modify}
use kubesan.Blobs.{request_thin_lv, request_entry, new_thin_lv, is_snapshot, is_larger}

find_spec-append :
    (lvs : List ThinLvSpec) (lv : ThinLvSpec)
    → find_spec lvs lv.name ≡ none
    → find_spec (lvs ++ lv ∷ []) lv.name ≡ some lv
unfolding find_spec
find_spec-append [] lv h = ground (arith, eq_iff lv.name lv.name)
find_spec-append (l ∷ lvs) lv h = ground (arith, find_spec-append lvs lv)

find_spec-append_other :
    (lvs : List ThinLvSpec) (lv : ThinLvSpec) (other : String)
    → lv.name ≢ other
    → find_spec (lvs ++ lv ∷ []) other ≡ find_spec lvs other
unfolding find_spec
find_spec-append_other [] lv other h = ground (arith, eq_iff lv.name other)
find_spec-append_other (l ∷ lvs) lv other h = ground (arith, find_spec-append_other lvs lv other h)

find_spec-modify_other :
    (lvs : List ThinLvSpec) (name other : String) (f : ThinLvSpec → ThinLvSpec)
    → ((l : ThinLvSpec) → (f l).name ≡ l.name)
    → name ≢ other
    → find_spec (modify_spec lvs name f) other ≡ find_spec lvs other
unfolding find_spec modify_spec
find_spec-modify_other [] name other f keeps h = refl
find_spec-modify_other (l ∷ lvs) name other f keeps h = ground (
  arith,
  find_spec-modify_other lvs name other f keeps h,
  keeps l,
  eq_iff l.name name,
  eq_iff l.name other,
  eq_iff (f l).name other,
)

-- the entry of a thin LV that the pool did not list
pub record IsNewEntry (name binding : String) (size : ℕ) (contents : ThinLvContents)
    (lv : ThinLvSpec) : Type 0 where
  pub named : lv.name ≡ name
  pub bound : lv.binding ≡ binding
  pub sized : lv.size_bytes ≡ size
  pub filled : lv.contents ≡ contents
  pub inactive : lv.state ≡ ThinLvSpecStateName.inactive
  pub of_snapshot : contents.contents_type ≡ ThinLvContentsType.snapshot → lv.read_only ≡ true
  pub of_other : contents.contents_type ≢ ThinLvContentsType.snapshot → lv.read_only ≡ false

-- the entry that the pool had, by the status of the thin LV: the size is the one asked for if there is
-- no status or a smaller size in it, and nothing else changes
abbrev pub IsResized : ThinLvSpec → Option ThinLvStatus → ℕ → ThinLvSpec → Type 0
IsResized old none size lv = lv ≡ record old { size_bytes = size }
IsResized old (some status) size lv =
    (status.size_bytes < size → lv ≡ record old { size_bytes = size })
    × (size ≤ status.size_bytes → lv ≡ old)

-- the entry after the request
abbrev pub IsRequested : ThinPoolLv → String → String → ℕ → ThinLvContents → ThinLvSpec → Type 0
IsRequested pool name binding size contents lv =
    ((find_thin_lv_spec pool name ≡ none) × IsNewEntry name binding size contents lv)
    ⊎ ((old : ThinLvSpec) × (find_thin_lv_spec pool name ≡ some old)
        × IsResized old (find_thin_lv_status pool name) size lv)

new_thin_lv-IsNewEntry :
    (name binding : String) (size : ℕ) (contents : ThinLvContents)
    → IsNewEntry name binding size contents
        (new_thin_lv name binding size contents (is_snapshot contents.contents_type))
unfolding is_snapshot
new_thin_lv-IsNewEntry name binding size contents = record {
  named = refl;
  bound = refl;
  sized = refl;
  filled = refl;
  inactive = refl;
  of_snapshot = snapshot_reads contents.contents_type;
  of_other = other_writes contents.contents_type;
}
  where
    snapshot_reads :
        (type : ThinLvContentsType) → type ≡ ThinLvContentsType.snapshot → is_snapshot type ≡ true
    snapshot_reads type h = rw h refl

    other_writes :
        (type : ThinLvContentsType) → type ≢ ThinLvContentsType.snapshot → is_snapshot type ≡ false
    other_writes ThinLvContentsType.snapshot h = absurd (h refl)
    other_writes ThinLvContentsType.empty h = refl
    other_writes ThinLvContentsType.other h = refl

is_larger-IsResized :
    (old : ThinLvSpec) (found : Option ThinLvStatus) (size : ℕ)
    → IsResized old found size
        (record old { size_bytes = if is_larger size found then size else old.size_bytes })
unfolding is_larger
is_larger-IsResized old none size = refl
is_larger-IsResized old (some status) size = (
  λ smaller. let larger : ltb status.size_bytes size ≡ true = ground arith in rw larger refl,
  λ enough. let same : ltb status.size_bytes size ≡ false = ground arith in rw same refl,
)

abbrev set_size : ℕ → ThinLvSpec → ThinLvSpec
set_size size l = record l { size_bytes = size }

module _ (pool : ThinPoolLv) (name binding : String) (size : ℕ) (contents : ThinLvContents) where
  expanded_entry :
      (old : ThinLvSpec) (larger : Bool)
      → find_thin_lv_spec pool name ≡ some old
      → find_thin_lv_spec
          (if larger then with_thin_lv_spec pool name (set_size size) else pool)
          name
        ≡ some (record old { size_bytes = if larger then size else old.size_bytes })
  expanded_entry old true found =
      find_spec-modify pool.spec.thin_lvs name (set_size size) old (λ l. refl) found
  expanded_entry old false found = found

  expanded_others :
      (other : String) (larger : Bool)
      → name ≢ other
      → find_thin_lv_spec
          (if larger then with_thin_lv_spec pool name (set_size size) else pool)
          other
        ≡ find_thin_lv_spec pool other
  expanded_others other true differ =
      find_spec-modify_other pool.spec.thin_lvs name other (set_size size) (λ l. refl) differ
  expanded_others other false differ = refl

  request_entry-IsRequested :
      (found : Option ThinLvSpec)
      → find_thin_lv_spec pool name ≡ found
      → (lv : ThinLvSpec) × (find_thin_lv_spec
            (request_entry pool name binding size contents found)
            name
          ≡ some lv)
        × IsRequested pool name binding size contents lv
  unfolding request_entry
  request_entry-IsRequested none missing = (
    _,
    find_spec-append pool.spec.thin_lvs _ missing,
    inl (missing, new_thin_lv-IsNewEntry name binding size contents),
  )
  request_entry-IsRequested (some old) found =
      (_, expanded_entry old _ found, inr (old, found, is_larger-IsResized old _ size))

  request_entry-others :
      (other : String) (found : Option ThinLvSpec)
      → name ≢ other
      → find_thin_lv_spec (request_entry pool name binding size contents found) other
        ≡ find_thin_lv_spec pool other
  unfolding request_entry
  request_entry-others other none differ = find_spec-append_other pool.spec.thin_lvs _ other differ
  request_entry-others other (some old) differ = expanded_others other _ differ

  -- The pool that `createThinLv` asks for lists the thin LV: as a new, inactive entry with the binding,
  -- the size and the contents asked for, read-only exactly if it is a snapshot, if the pool did not
  -- list it, and otherwise as the entry that it had, whose size becomes the one asked for if there is
  -- no status yet or the status has a smaller size, and which is the same if the status has a size
  -- that is enough. Every other thin LV keeps its entry.
  pub request_thin_lv_lem :
      ((lv : ThinLvSpec) × (find_thin_lv_spec (request_thin_lv pool name binding size contents) name
          ≡ some lv)
        × IsRequested pool name binding size contents lv)
      × ((other : String)
          → name ≢ other
          → find_thin_lv_spec (request_thin_lv pool name binding size contents) other
            ≡ find_thin_lv_spec pool other)
  unfolding request_thin_lv
  request_thin_lv_lem =
      (request_entry-IsRequested _ refl, λ other differ. request_entry-others other _ differ)
