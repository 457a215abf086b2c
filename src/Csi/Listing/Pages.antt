-- ===== src/Csi/Listing/Pages.antt =====
-- The pages of `ListVolumes`, and the volumes that they hold.
use kubesan.Prelude.{
  ℕ, zero, suc, ◌+◌, ◌-◌, ◌<◌, ◌≤◌, String, List, [], ◌∷◌, ◌++◌, some, true, false, ◌≡◌, refl, sym,
  ap, inl, inr, ◌∙◌, length, take, drop, map, ltb, leb, nat_beq, arith, Bool-cases, length-drop,
  ◌==◌, string_eq, if◌then◌else◌,
}
use kubesan.Prelude.Text.{decimal}
use kubesan.Prelude.Text.Decimal.{parse_int-decimal}
use kubesan.Slices.{get_elem?}
use kubesan.Api.{Volume}
use kubesan.Exec.{panicked, unavailable, Result, ok, err, Env}
use kubesan.Csi.Listing.{volume_entry, VolumeEntry, page_loop, page_of, start_of, starting_token}

module _ {A : Type 0} (entry : Volume → A) where
  get_elem?-drop :
      (items : List Volume) (i : ℕ)
      → i < length items
      → (v : Volume) × (get_elem? items i ≡ some v) × (drop i items ≡ v ∷ drop (suc i) items)
  get_elem?-drop [] i h = absurd (omega arith)
  get_elem?-drop (v ∷ items) zero h = (v, refl, refl)
  get_elem?-drop (v ∷ items) (suc i) h = get_elem?-drop items i (omega arith)

  page_loop-drop :
      (items : List Volume) (rounds i : ℕ)
      → rounds + i ≤ length items
      → page_loop entry items rounds i ≡ map entry (take rounds (drop i items))
  unfolding page_loop
  page_loop-drop items zero i h = refl
  page_loop-drop items (suc rounds) i h =
      let (v, e, d) = get_elem?-drop items i (omega arith) in
      let ih = page_loop-drop items rounds (suc i) (omega arith) in
      rw (e, d, page_loop) (ap (λ l. entry v ∷ l) ih)

module _ {A : Type 0} where
  take-all : (xs : List A) (n : ℕ) → length xs ≤ n → take n xs ≡ xs
  take-all [] zero h = refl
  take-all [] (suc n) h = refl
  take-all (x ∷ xs) zero h = absurd (omega arith)
  take-all (x ∷ xs) (suc n) h = ap (λ l. x ∷ l) (take-all xs n (omega arith))

  nothing : List A
  nothing = []

module _ (env : Env) (items : List Volume) where
  -- the page that reaches the end
  rest_of_page :
      (start count : ℕ)
      → start ≤ length items
      → length items ≤ start + count
      → page_loop (volume_entry env) items (length items - start) start
        ≡ map (volume_entry env) (take count (drop start items))
  rest_of_page start count low high =
      let left : List Volume = drop start items in
      let whole = take-all left (length items - start) (omega (arith, length-drop start items)) in
      let same = take-all left count (omega (arith, length-drop start items)) in
      page_loop-drop (volume_entry env) items (length items - start) start (omega arith)
      ∙ ap (map (volume_entry env)) (whole ∙ sym same)

  -- A page from `start` on holds the next `count` volumes, as far as there are that many, and names
  -- the place behind it unless it is the last.
  pub page_of-eq :
      (start count : ℕ)
      → start ≤ length items
      → start + count < 9223372036854775808
      → page_of env items start count
        ≡ ok (
          map (volume_entry env) (take count (drop start items)),
          if ltb (start + count) (length items) then decimal (start + count) else "",
        )
  unfolding page_of
  page_of-eq start count low high = elim (Bool-cases (ltb (start + count) (length items))) [
    | inl more ↦
        let small : leb 9223372036854775808 (start + count) ≡ false = ground arith in
        let ordered : ltb (start + count) start ≡ false = ground arith in
        let differ : nat_beq (start + count) (length items) ≡ false = ground arith in
        let size : start + count - start ≡ count = omega arith in
        rw (small, more, ordered, differ, size)
          (ap (λ es. ok (es, decimal (start + count)))
            (page_loop-drop (volume_entry env) items count start (ground arith)))
    | inr last ↦
        let small : leb 9223372036854775808 (start + count) ≡ false = ground arith in
        let ordered : ltb (length items) start ≡ false = ground arith in
        let same : nat_beq (length items) (length items) ≡ true = ground arith in
        rw (small, last, ordered, same)
          (ap (λ es. ok (es, "")) (rest_of_page start count low (ground arith)))
  ]

-- A client that asks for pages of `count` volumes until a page names no next one.
unfoldable pub read_pages : ℕ → Env → List Volume → ℕ → String → Result (List VolumeEntry)
read_pages zero env items count token = err (unavailable "pages")
read_pages (suc pages) env items count token = elim (starting_token "volume" token (length items)) [
  | err e ↦ err e
  | ok start ↦ elim (page_of env items start count) [
    | err e ↦ err e
    | ok (entries, next) ↦
        if next == "" then ok entries else elim (read_pages pages env items count next) [
          | err e ↦ err e
          | ok more ↦ ok (entries ++ more)
        ]
  ]
]

-- Without any volumes, a token of a number above 0 and below 2 ^ 63 - 2 ^ 31 is accepted and makes
-- `ListVolumes` panic, whatever number of entries is asked for, up to 2 ^ 31.
pub page_of-panicked :
    (env : Env) (n count : ℕ)
    → 0 < n
    → n < 9223372034707292160
    → count ≤ 2147483648
    → (starting_token "volume" (decimal n) 0 ≡ ok n) × (page_of env [] n count ≡ err panicked)
unfolding starting_token start_of page_of
page_of-panicked env n count positive low small =
    (rw (parse_int-decimal n (omega arith), starting_token) (ground arith), ground arith)
