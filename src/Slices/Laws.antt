-- ===== src/Slices/Laws.antt =====
-- What the list helpers promise: the loops against plain recursions, and membership.
use kubesan.Prelude.{
  ℕ, zero, suc, ◌≤◌, ◌≡◌, refl, sym, ◌↔◌, ◌∙◌, ap, List, [], ◌∷◌, ◌++◌, true, false, ◌||◌,
  Comparable, ◌==◌, length, length-append, Bool-cases, if◌then◌else◌, arith, inl, inr,
}
use mathlib.Core.List.{append_assoc}
use kubesan.Slices.{
  contains, append_unique, append_unique_loop, remove_all, remove_all_loop, get_elem?, erase_idx,
  deduplicate, deduplicate_loop, sets_equal, all_in,
}

module _ {ℓ} {A : Type ℓ} ⦃e : Comparable A⦄ where
  -- the members of a list other than `elem`, in order
  abbrev pub without : List A → A → List A
  without [] elem = []
  without (x ∷ xs) elem = if x == elem then without xs elem else x ∷ without xs elem

  abbrev pub Nodup : List A → Type 0
  Nodup [] = Unit
  Nodup (x ∷ xs) = (contains xs x ≡ false) × Nodup xs

  beq_refl : (x : A) → (x == x) ≡ true
  beq_refl x = (e.equals_iff x x).1 refl

  pub contains-append :
      (xs ys : List A) (a : A) → contains (xs ++ ys) a ≡ (contains xs a || contains ys a)
  unfolding contains
  contains-append [] ys a = refl
  contains-append (x ∷ xs) ys a = ground (arith, contains-append xs ys a)

  get_elem?-prefix : (xs ys : List A) → get_elem? (xs ++ ys) (length xs) ≡ get_elem? ys 0
  get_elem?-prefix [] ys = refl
  get_elem?-prefix (x ∷ xs) ys = get_elem?-prefix xs ys

  erase_idx-prefix : (xs ys : List A) → erase_idx (xs ++ ys) (length xs) ≡ xs ++ erase_idx ys 0
  erase_idx-prefix [] ys = refl
  erase_idx-prefix (x ∷ xs) ys = ap (λ l. x ∷ l) (erase_idx-prefix xs ys)

  -- the round of the loop at the end of `done`
  remove_all_loop-step :
      (fuel : ℕ) (done rest : List A) (x elem : A)
      → remove_all_loop (suc fuel) (length done) (done ++ x ∷ rest) elem ≡ (
          if x == elem
          then remove_all_loop fuel (length done) (done ++ rest) elem
          else remove_all_loop fuel (length (done ++ x ∷ [])) ((done ++ x ∷ []) ++ rest) elem)
  unfolding remove_all_loop
  remove_all_loop-step fuel done rest x elem =
      rw (get_elem?-prefix, remove_all_loop) (rw (erase_idx-prefix, append_assoc, length-append))

  remove_all_loop-without :
      (fuel : ℕ) (done rest : List A) (elem : A)
      → suc (length rest) ≤ fuel
      → remove_all_loop fuel (length done) (done ++ rest) elem ≡ done ++ without rest elem
  remove_all_loop-without zero done rest elem h = absurd (omega arith)
  remove_all_loop-without (suc fuel) done [] elem h =
      unfold remove_all_loop in rw (get_elem?-prefix, remove_all_loop)
  remove_all_loop-without (suc fuel) done (x ∷ rest) elem h =
      rw remove_all_loop-step (elim (Bool-cases (x == elem)) [
        | inl same ↦ rw same (remove_all_loop-without fuel done rest elem (omega arith))
        | inr other ↦ rw other (
            remove_all_loop-without fuel (done ++ x ∷ []) rest elem (omega arith)
            ∙ append_assoc done (x ∷ []) (without rest elem))
      ])

  pub remove_all-without : (list : List A) (elem : A) → remove_all list elem ≡ without list elem
  unfolding remove_all
  remove_all-without list elem =
      remove_all_loop-without (suc (length list)) [] list elem (omega arith)

  contains-without :
      (list : List A) (elem a : A)
      → contains (without list elem) a ≡ (if a == elem then false else contains list a)
  unfolding contains
  contains-without [] elem a = ground arith
  contains-without (x ∷ list) elem a = ground (
    arith,
    contains-without list elem a,
    e.equals_iff a elem,
    e.equals_iff x elem,
    e.equals_iff a x,
  )

  -- `RemoveAll` leaves no copy of `elem` and keeps the membership of everything else.
  pub contains-remove_all :
      (list : List A) (elem a : A)
      → contains (remove_all list elem) a ≡ (if a == elem then false else contains list a)
  contains-remove_all list elem a = rw remove_all-without (contains-without list elem a)

  append_unique_loop-eq :
      (list rest : List A) (elem : A)
      → append_unique_loop list rest elem ≡ (if contains rest elem then list else list ++ elem ∷ [])
  unfolding append_unique_loop contains
  append_unique_loop-eq list [] elem = refl
  append_unique_loop-eq list (x ∷ rest) elem =
      ground (arith, append_unique_loop-eq list rest elem, e.equals_iff x elem, e.equals_iff elem x)

  -- `AppendUnique` leaves a list that has `elem` as it is, and otherwise appends it.
  pub append_unique-eq :
      (list : List A) (elem : A)
      → append_unique list elem ≡ (if contains list elem then list else list ++ elem ∷ [])
  unfolding append_unique
  append_unique-eq list elem = append_unique_loop-eq list list elem

  pub Nodup-append_elem :
      (list : List A) (elem : A)
      → contains list elem ≡ false
      → Nodup list
      → Nodup (list ++ elem ∷ [])
  unfolding contains
  Nodup-append_elem [] elem new h = ground arith
  Nodup-append_elem (x ∷ list) elem new h =
      let tail : contains list elem ≡ false = ground arith in
      (
        rw contains-append
            (unfold contains in ground (arith, e.equals_iff x elem, e.equals_iff elem x)),
        Nodup-append_elem list elem tail h.1,
      )

  -- A node list stays free of duplicates, and has the node, when a node is added.
  pub append_unique-Nodup :
      (list : List A) (elem : A)
      → Nodup list
      → Nodup (append_unique list elem) × (contains (append_unique list elem) elem ≡ true)
  append_unique-Nodup list elem h = rw append_unique-eq (elim (Bool-cases (contains list elem)) [
    | inl old ↦ rw old (h, old)
    | inr new ↦ rw new (
      Nodup-append_elem list elem new h,
      rw (contains-append, new) (unfold contains in ground (arith, beq_refl elem)),
    )
  ])

  deduplicate_loop-members :
      (list result : List A) (a : A)
      → contains (deduplicate_loop list result) a ≡ (contains result a || contains list a)
  unfolding deduplicate_loop contains
  deduplicate_loop-members [] result a = ground arith
  deduplicate_loop-members (x ∷ list) result a = elim (Bool-cases (contains result x)) [
    | inl old ↦ rw old (ground (arith, deduplicate_loop-members list result a, e.equals_iff a x))
    | inr new ↦ rw new (
        ground (
          arith,
          deduplicate_loop-members list (result ++ x ∷ []) a,
          contains-append result (x ∷ []) a,
        ))
  ]

  deduplicate_loop-Nodup :
      (list result : List A) → Nodup result → Nodup (deduplicate_loop list result)
  unfolding deduplicate_loop
  deduplicate_loop-Nodup [] result h = h
  deduplicate_loop-Nodup (x ∷ list) result h = elim (Bool-cases (contains result x)) [
    | inl old ↦ rw old (deduplicate_loop-Nodup list result h)
    | inr new ↦
        rw new (deduplicate_loop-Nodup list (result ++ x ∷ []) (Nodup-append_elem result x new h))
  ]

  -- `Deduplicate` gives a list without duplicates that has exactly the members of its argument.
  pub deduplicate_lem :
      (list : List A)
      → Nodup (deduplicate list) × ((a : A) → contains (deduplicate list) a ≡ contains list a)
  unfolding deduplicate
  deduplicate_lem list = (
    deduplicate_loop-Nodup list [] tt,
    λ a. deduplicate_loop-members list [] a ∙ unfold contains in refl,
  )

  all_in_lem :
      (a b : List A) → all_in a b ≡ true → (x : A) → contains a x ≡ true → contains b x ≡ true
  unfolding all_in contains
  all_in_lem [] b h x m = cc
  all_in_lem (y ∷ a) b h x m = elim (Bool-cases (x == y)) [
    | inl same ↦ rw ((e.equals_iff x y).0 same) (ground arith)
    | inr other ↦ all_in_lem a b (ground arith) x (ground arith)
  ]

  all_in_of :
      (a b : List A) → ((x : A) → contains a x ≡ true → contains b x ≡ true) → all_in a b ≡ true
  unfolding all_in contains
  all_in_of [] b h = refl
  all_in_of (y ∷ a) b h = ground (arith, h y, beq_refl y, all_in_of a b (λ x m. h x (ground arith)))

  -- `SetsEqual` answers true exactly when the two lists have the same members.
  pub sets_equal_iff :
      (a b : List A) → (sets_equal a b ≡ true) ↔ ((x : A) → contains a x ≡ contains b x)
  unfolding sets_equal
  sets_equal_iff a b = (
    λ h x. ground (arith, all_in_lem a b (ground arith) x, all_in_lem b a (ground arith) x),
    λ same.
        ground (arith, all_in_of a b (λ x m. sym (same x) ∙ m), all_in_of b a (λ x m. same x ∙ m)),
  )
