-- ===== src/Commands/Tagging.antt =====
-- What reading and writing LVM tags, counters and sizes adds to the record of calls: commands.
use kubesan.Prelude.{String, List, [], ◌∷◌, Option, none, some}
use kubesan.Prelude.Int.{ℤ, pos, negsuc}
use kubesan.Exec.{Env, Trace, ran, parse_failed}
use kubesan.Exec.Rules.{Keeps, Keeps-bind, Keeps-pure, Keeps-throw, keeps_rules}
use kubesan.Commands.{
  must, lvm, parsed_size, lvm_size, lvm_lv_get_tags, lvm_lv_add_tag, lvm_lv_del_tag,
}
use kubesan.Commands.Traces.{must-Keeps, lvm-Keeps}
use kubesan.Commands.Counter.{
  candidate, drop_tag, prune_tag, prune_loop, lvm_lv_get_counter, lvm_lv_update_counter_if_lower,
}

module _ {env : Env} {P : Trace → Type 0}
    (step : (c : List String) (t : Trace) → P t → P (ran c (env.run_command t c) ∷ t)) where
  pub must_lvm-Keeps : (args : List String) → Keeps env P (must (lvm args))
  must_lvm-Keeps args = must-Keeps (lvm args) (lvm-Keeps step args)

  parsed_size-Keeps : (z : Option ℤ) → Keeps env P (parsed_size z)
  unfolding parsed_size
  parsed_size-Keeps none = Keeps-throw parse_failed
  parsed_size-Keeps (some (pos n)) = Keeps-pure n
  parsed_size-Keeps (some (negsuc n)) = Keeps-throw parse_failed

  pub lvm_size-Keeps : (vg n : String) → Keeps env P (lvm_size vg n)
  unfolding lvm_size
  lvm_size-Keeps vg n = Keeps-bind _ _ (must_lvm-Keeps _) (λ o. parsed_size-Keeps _)

  get_tags-Keeps : (vg lv : String) → Keeps env P (lvm_lv_get_tags vg lv)
  unfolding lvm_lv_get_tags
  get_tags-Keeps vg lv =
      Keeps-bind (must (lvm _)) _ (must_lvm-Keeps _) (λ o. record { at = λ t h. h })

  add_tag-Keeps : (vg lv tag : String) → Keeps env P (lvm_lv_add_tag vg lv tag)
  unfolding lvm_lv_add_tag
  add_tag-Keeps vg lv tag = Keeps-bind (must (lvm _)) _ (must_lvm-Keeps _) (λ o. Keeps-pure tt)

  del_tag-Keeps : (vg lv tag : String) → Keeps env P (lvm_lv_del_tag vg lv tag)
  unfolding lvm_lv_del_tag
  del_tag-Keeps vg lv tag = Keeps-bind (must (lvm _)) _ (must_lvm-Keeps _) (λ o. Keeps-pure tt)

  pub get_counter-Keeps : (vg lv key : String) → Keeps env P (lvm_lv_get_counter vg lv key)
  unfolding lvm_lv_get_counter
  get_counter-Keeps vg lv key =
      Keeps-bind (lvm_lv_get_tags vg lv) _ (get_tags-Keeps vg lv) (λ tags. Keeps-pure _)

  drop_tag-Keeps : (vg lv tag : String) → Keeps env P (drop_tag vg lv tag)
  unfolding drop_tag
  drop_tag-Keeps vg lv tag = search (keeps_rules, del_tag-Keeps)

  prune_tag-Keeps :
      (vg lv key : String) (value : ℤ) (tag : String) (c : Option (Option ℤ))
      → Keeps env P (prune_tag vg lv key value tag c)
  unfolding prune_tag
  prune_tag-Keeps vg lv key value tag none = Keeps-pure value
  prune_tag-Keeps vg lv key value tag (some none) = search (keeps_rules, drop_tag-Keeps)
  prune_tag-Keeps vg lv key value tag (some (some c)) = search (keeps_rules, drop_tag-Keeps)

  prune_loop-Keeps :
      (vg lv key : String) (tags : List String) (value : ℤ)
      → Keeps env P (prune_loop vg lv key tags value)
  unfolding prune_loop
  prune_loop-Keeps vg lv key [] value = Keeps-pure value
  prune_loop-Keeps vg lv key (tag ∷ tags) value =
      Keeps-bind _ _ (prune_tag-Keeps vg lv key value tag (candidate key tag))
        (λ v. prune_loop-Keeps vg lv key tags v)

  pub update_counter-Keeps :
      (vg lv key : String) (value : ℤ)
      → Keeps env P (lvm_lv_update_counter_if_lower vg lv key value)
  unfolding lvm_lv_update_counter_if_lower
  update_counter-Keeps vg lv key value = Keeps-bind _ _ (add_tag-Keeps vg lv _) (λ u.
      Keeps-bind (lvm_lv_get_tags vg lv) _ (get_tags-Keeps vg lv)
        (λ tags. prune_loop-Keeps vg lv key tags (pos 0)))
