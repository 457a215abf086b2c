-- ===== src/Commands/Counter.antt =====
-- The counter of internal/common/commands/commands.go, kept as LVM tags `key=value`.
use Prim.Native.String.{◌++◌ as ◌<>◌}
use kubesan.Prelude.{
  suc, String, List, [], ◌∷◌, ◌≡◌, refl, Option, none, some, false, arith, Bool-cases, inl, inr,
  if◌then◌else◌,
}
use kubesan.Prelude.Int.{ℤ, pos, negsuc, ltb_ℤ}
use kubesan.Prelude.Text.{cut_prefix, parse_int, decimal}
use kubesan.Exec.{ok, Env, Trace, Exec, pure, try, ◌>>=◌, ◌>>◌}
use kubesan.Exec.Rules.{>>=-ok}
use kubesan.Commands.{lvm_lv_get_tags, lvm_lv_add_tag, lvm_lv_del_tag}

-- `%d` of an int64
abbrev pub decimal_int : ℤ → String
decimal_int (pos n) = decimal n
decimal_int (negsuc n) = "-" <> decimal (suc n)

-- What a tag says of the counter: nothing if it has another key, or `some none` if its value is no
-- number.
unfoldable pub candidate : String → String → Option (Option ℤ)
candidate key tag = elim (cut_prefix tag (key <> "=")) [
  | none ↦ none
  | some suffix ↦ some (parse_int suffix)
]

abbrev max_int : ℤ → ℤ → ℤ
max_int value c = if ltb_ℤ value c then c else value

-- the loop of `LvmLvGetCounter`
unfoldable pub counter_loop : String → List String → ℤ → ℤ
unfolding candidate
counter_loop key [] value = value
counter_loop key (tag ∷ tags) value = counter_loop key tags (elim (candidate key tag) [
  | none ↦ value
  | some none ↦ value
  | some (some c) ↦ if ltb_ℤ value c then c else value
])

unfoldable pub lvm_lv_get_counter : String → String → String → Exec ℤ
unfolding counter_loop ◌>>=◌
lvm_lv_get_counter vg_name lv_name key = do
  tags ← lvm_lv_get_tags vg_name lv_name
  pure (counter_loop key tags (pos 0))

-- `_ = LvmLvDelTag(...)`: whether the tag could be removed does not matter
unfoldable pub drop_tag : String → String → String → Exec (Unit {0})
unfolding try ◌>>=◌
drop_tag vg_name lv_name tag = do try (lvm_lv_del_tag vg_name lv_name tag); pure tt

-- one tag of the loop of `LvmLvUpdateCounterIfLower`: the new value
unfoldable pub prune_tag : String → String → String → ℤ → String → Option (Option ℤ) → Exec ℤ
unfolding drop_tag ◌>>=◌
prune_tag vg_name lv_name key value tag none = pure value
prune_tag vg_name lv_name key value tag (some none) = do drop_tag vg_name lv_name tag; pure value
prune_tag vg_name lv_name key value tag (some (some c)) =
    if ltb_ℤ value c
    then (do drop_tag vg_name lv_name (key <> ("=" <> decimal_int value)); pure c)
    else if ltb_ℤ c value
    then (do drop_tag vg_name lv_name tag; pure value)
    else pure value

unfoldable pub prune_loop : String → String → String → List String → ℤ → Exec ℤ
unfolding prune_tag candidate ◌>>=◌
prune_loop vg_name lv_name key [] value = pure value
prune_loop vg_name lv_name key (tag ∷ tags) value = do
  value' ← prune_tag vg_name lv_name key value tag (candidate key tag)
  prune_loop vg_name lv_name key tags value'

unfoldable pub lvm_lv_update_counter_if_lower : String → String → String → ℤ → Exec ℤ
unfolding prune_loop ◌>>=◌
lvm_lv_update_counter_if_lower vg_name lv_name key value = do
  lvm_lv_add_tag vg_name lv_name (key <> ("=" <> decimal_int value))
  tags ← lvm_lv_get_tags vg_name lv_name
  prune_loop vg_name lv_name key tags (pos 0)

drop_tag_lem :
    (vg_name lv_name tag : String) (env : Env) (t : Trace)
    → (drop_tag vg_name lv_name tag env t).0 ≡ ok tt
unfolding drop_tag ◌>>=◌
drop_tag_lem vg_name lv_name tag env t = refl

abbrev next_value : ℤ → Option (Option ℤ) → ℤ
next_value value none = value
next_value value (some none) = value
next_value value (some (some c)) = if ltb_ℤ value c then c else value

prune_tag-value :
    (vg_name lv_name key : String) (value : ℤ) (tag : String) (o : Option (Option ℤ)) (env : Env)
    (t : Trace)
    → (prune_tag vg_name lv_name key value tag o env t).0 ≡ ok (next_value value o)
unfolding prune_tag drop_tag ◌>>=◌
prune_tag-value vg_name lv_name key value tag none env t = refl
prune_tag-value vg_name lv_name key value tag (some none) env t = refl
prune_tag-value vg_name lv_name key value tag (some (some c)) env t =
    elim (Bool-cases (ltb_ℤ value c)) [
      | inl higher ↦ rw higher
      | inr other ↦ elim (Bool-cases (ltb_ℤ c value)) [
        | inl lower ↦ rw (other, lower)
        | inr same ↦ rw (other, same)
      ]
    ]

counter_loop-step :
    (key tag : String) (tags : List String) (value : ℤ)
    → counter_loop key (tag ∷ tags) value
      ≡ counter_loop key tags (next_value value (candidate key tag))
unfolding counter_loop
counter_loop-step key tag tags value = ground arith

-- Whatever the environment answers to the removals of stale tags, the pruning loop ends with the
-- value that `LvmLvGetCounter` computes from the same tags.
pub prune_loop-counter_loop :
    (vg_name lv_name key : String) (tags : List String) (value : ℤ) (env : Env) (t : Trace)
    → (prune_loop vg_name lv_name key tags value env t).0 ≡ ok (counter_loop key tags value)
unfolding prune_loop
prune_loop-counter_loop vg_name lv_name key [] value env t = unfold counter_loop ◌>>=◌ in refl
prune_loop-counter_loop vg_name lv_name key (tag ∷ tags) value env t =
    rw
      (>>=-ok (prune_tag vg_name lv_name key value tag (candidate key tag))
        (prune_loop vg_name lv_name key tags) env t (next_value value (candidate key tag))
        (prune_tag-value vg_name lv_name key value tag (candidate key tag) env t))
      (rw counter_loop-step (
        prune_loop-counter_loop vg_name lv_name key tags (next_value value (candidate key tag)) env
          (prune_tag vg_name lv_name key value tag (candidate key tag) env t).1))

counter_loop-ge-start :
    (key : String) (tags : List String) (value : ℤ)
    → ltb_ℤ (counter_loop key tags value) value ≡ false
counter_loop-ge-start key [] value = unfold counter_loop in ground arith
counter_loop-ge-start key (tag ∷ tags) value =
    rw counter_loop-step
      (ground (arith, counter_loop-ge-start key tags (next_value value (candidate key tag))))
