-- ===== src/Slices.antt =====
-- internal/common/slices/slices.go: the list helpers of the program, over any type with `==`.
-- `SetsEqual` and the loops read `slices.Contains` of Go's library, which is `contains` here.
pub mod Laws
use kubesan.Prelude.{
  ℕ, zero, suc, ◌+◌, List, [], ◌∷◌, ◌++◌, Bool, true, false, not, ◌&&◌, ◌||◌, Option, none, some,
  Comparable, ◌==◌, length, ltb, if◌then◌else◌,
}

module _ {ℓ} {A : Type ℓ} where
  unfoldable pub any : List A → (A → Bool) → Bool
  any [] predicate = false
  any (e ∷ list) predicate = if predicate e then true else any list predicate

  -- `filter_loop` carries `result`, to which the loop appends.
  filter_loop : List A → (A → Bool) → List A → List A
  filter_loop [] predicate result = result
  filter_loop (e ∷ list) predicate result =
      filter_loop list predicate (if predicate e then result ++ e ∷ [] else result)

  unfoldable pub filter : List A → (A → Bool) → List A
  unfolding filter_loop
  filter list predicate = filter_loop list predicate []

  -- Each value is nil (`none`) or not.
  count_non_nil_loop : List (Option A) → ℕ → ℕ
  count_non_nil_loop [] count = count
  count_non_nil_loop (none ∷ vs) count = count_non_nil_loop vs count
  count_non_nil_loop (some v ∷ vs) count = count_non_nil_loop vs (count + 1)

  unfoldable pub count_non_nil : List (Option A) → ℕ
  unfolding count_non_nil_loop
  count_non_nil vs = count_non_nil_loop vs 0

  -- list[i], and `slices.Delete(list, i, i+1)`, which shifts the rest down.
  abbrev pub get_elem? : List A → ℕ → Option A
  get_elem? [] i = none
  get_elem? (x ∷ xs) zero = some x
  get_elem? (x ∷ xs) (suc i) = get_elem? xs i

  abbrev pub erase_idx : List A → ℕ → List A
  erase_idx [] i = []
  erase_idx (x ∷ xs) zero = xs
  erase_idx (x ∷ xs) (suc i) = x ∷ erase_idx xs i

module _ {ℓ} {A : Type ℓ} ⦃e : Comparable A⦄ where
  unfoldable pub contains : (list : List A) (elem : A) → Bool
  contains [] elem = false
  contains (x ∷ list) elem = elem == x || contains list elem

  append_unique_loop : List A → List A → A → List A
  append_unique_loop list [] elem = list ++ elem ∷ []
  append_unique_loop list (x ∷ rest) elem =
      if x == elem then list else append_unique_loop list rest elem

  unfoldable pub append_unique : List A → A → List A
  unfolding append_unique_loop
  append_unique list elem = append_unique_loop list list elem

  -- The index loop of `RemoveAll`. A removal leaves `i` where it is (`i--`, then `i++`). Each round
  -- lowers `len(list) - i`, so `len(list) + 1` rounds are enough.
  remove_all_loop : ℕ → ℕ → List A → A → List A
  remove_all_loop zero i list elem = list
  remove_all_loop (suc fuel) i list elem =
      let removed = remove_all_loop fuel i (erase_idx list i) elem in
      let kept = remove_all_loop fuel (i + 1) list elem in
      elim (get_elem? list i) [ none ↦ list | some x ↦ if x == elem then removed else kept ]

  unfoldable pub remove_all : List A → A → List A
  unfolding remove_all_loop
  remove_all list elem = remove_all_loop (suc (length list)) 0 list elem

  all_in : List A → List A → Bool
  all_in [] b = true
  all_in (x ∷ a) b = if not (contains b x) then false else all_in a b

  unfoldable pub sets_equal : List A → List A → Bool
  unfolding all_in contains
  sets_equal a b = if not (all_in a b) then false else all_in b a

  deduplicate_loop : List A → List A → List A
  deduplicate_loop [] result = result
  deduplicate_loop (x ∷ list) result =
      deduplicate_loop list (if not (contains result x) then result ++ x ∷ [] else result)

  unfoldable pub deduplicate : List A → List A
  unfolding deduplicate_loop contains
  deduplicate list = deduplicate_loop list []
