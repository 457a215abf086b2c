-- ===== src/Csi/Listing.antt =====
-- internal/csi/controller/volume.go: `ListVolumes` and `ControllerGetVolume`. An `int` has 64 bits.
pub mod Pages
use Prim.Native.String.{◌++◌ as ◌<>◌}
use kubesan.Prelude.{
  ℕ, zero, suc, ◌+◌, ◌-◌, String, List, [], ◌∷◌, Option, none, some, Bool, true, false, not, ◌&&◌,
  ◌||◌, ◌==◌, string_eq, ltb, leb, nat_beq, length, if◌then◌else◌,
}
use kubesan.Prelude.Int.{ℤ, pos, negsuc}
use kubesan.Prelude.Text.{parse_int, decimal}
use kubesan.Slices.{get_elem?}
use kubesan.Api.{Volume, Condition, ConditionStatus, condition_true}
use kubesan.Exec.{
  Code, invalid_argument, absent, aborted, Err, rpc, not_found, panicked, Result, ok, err, Env,
  Exec, pure, throw, lift, try, ask, get_volume, list_volumes, ◌>>=◌, ◌>>◌,
}
use kubesan.Csi.Names.{validate_id}

-- csi.Volume and its VolumeStatus
pub record VolumeEntry : Type 0 where
  pub capacity_bytes : ℕ
  pub volume_id : String
  pub abnormal : Bool
  pub message : String
  pub published_node_ids : List String

is_true : ConditionStatus → Bool
is_true condition_true = true
is_true _ = false

-- what `cond` makes of `abnormal` and `message`
health : Option Condition → Bool × String
unfolding is_true
health none = (false, "Volume is operational")
health (some cond) =
    if is_true cond.status then (true, cond.message) else (false, "Volume is operational")

unfoldable pub volume_entry : Env → Volume → VolumeEntry
unfolding health
volume_entry env volume =
    let (abnormal, message) =
      health (env.find_status_condition volume.status.conditions "Abnormal") in
    record {
      capacity_bytes = volume.status.size_bytes;
      volume_id = volume.metadata.name;
      abnormal = abnormal;
      message = message;
      published_node_ids = volume.status.attached_to_nodes;
    }

unfoldable pub start_of : String → Option ℤ → Result ℕ
start_of token (some (pos n)) = ok n
start_of token _ =
    if token == ""
    then ok 0
    else err (rpc aborted "StartingToken does not match a token returned by an earlier call")

-- startingToken: `Atoi` of "" fails and yields 0
unfoldable pub starting_token : String → String → ℕ → Result ℕ
starting_token kind token count = elim (start_of token (parse_int token)) [
  | err e ↦ err e
  | ok start ↦
      if leb count start && not (nat_beq count 0)
      then err (rpc aborted ("No " <> (kind <> " at StartingToken")))
      else ok start
]

unfoldable pub max_entries : ℤ → ℕ → Result ℕ
max_entries (negsuc n) count = err (rpc invalid_argument "MaxEntries cannot be negative")
max_entries (pos n) count = ok (if nat_beq n 0 then count else n)

module _ {A : Type 0} where
  -- the loop from `i` on, of `rounds` rounds; `none` is an index that the loop does not reach
  unfoldable pub page_loop : (Volume → A) → List Volume → ℕ → ℕ → List A
  page_loop entry items zero i = []
  page_loop entry items (suc rounds) i =
      let rest = page_loop entry items rounds (suc i) in
      elim (get_elem? items i) [ none ↦ [] | some volume ↦ entry volume ∷ rest ]

-- The page, and the next token. `make` panics on the negative capacity that a start behind the end
-- gives, which the checks let pass when there are no volumes. A sum of 2 ^ 63 or more wraps to a
-- negative end: no round of the loop is run, and the end is the next token.
unfoldable pub page_of : Env → List Volume → ℕ → ℕ → Result (List VolumeEntry × String)
unfolding volume_entry
page_of env items start count =
    let total = length items in
    if leb 9223372036854775808 (start + count)
    then ok ([], "-" <> decimal (18446744073709551616 - (start + count)))
    else let end = if ltb (start + count) total then start + count else total in
      if ltb end start
      then err panicked
      else ok (
        page_loop (volume_entry env) items (end - start) start,
        if nat_beq end total then "" else decimal end,
      )

unfoldable pub controller_list_volumes : String → ℤ → Exec (List VolumeEntry × String)
controller_list_volumes token max = do
  items ← list_volumes
  start ← lift (starting_token "volume" token (length items))
  count ← lift (max_entries max (length items))
  env ← ask
  lift (page_of env items start count)

-- the errors of `Get` in `ControllerGetVolume`
unfoldable pub get_error : String → Result Volume → Result Volume
get_error id (err not_found) = err (rpc absent (id <> " does not exist"))
get_error id r = r

unfoldable pub controller_get_volume : String → Exec VolumeEntry
controller_get_volume id = do
  validate_id id "volume"
  read ← try (get_volume id)
  volume ← lift (get_error id read)
  env ← ask
  pure (volume_entry env volume)
