-- ===== src/ThinPool/Entries.antt =====
-- Looking up and changing the thin LVs of a pool by name.
use kubesan.Prelude.{
  String, List, [], ◌∷◌, Option, some, ◌≡◌, inl, inr, ◌==◌, string_eq, eq_iff, arith, Bool-cases,
}
use mathlib.Core.Path.{subst}
use kubesan.Api.{ThinLvSpec, ThinLvStatus, find_spec, find_status, modify_spec}
use kubesan.ThinPool.Activation.{IsSettled, AllSettled}

pub find_spec-name :
    (lvs : List ThinLvSpec) (name : String) (lv : ThinLvSpec)
    → find_spec lvs name ≡ some lv
    → lv.name ≡ name
unfolding find_spec
find_spec-name [] name lv h = cc
find_spec-name (l ∷ lvs) name lv h = ground (arith, find_spec-name lvs name lv, eq_iff l.name name)

pub AllSettled-find_spec :
    (lvs : List ThinLvSpec) (statuses : List ThinLvStatus) (name : String) (lv : ThinLvSpec)
    → AllSettled lvs statuses
    → find_spec lvs name ≡ some lv
    → IsSettled lv (find_status statuses lv.name)
unfolding find_spec
AllSettled-find_spec [] statuses name lv h f = cc
AllSettled-find_spec (l ∷ lvs) statuses name lv h f = elim (Bool-cases (l.name == name)) [
  | inl same ↦ subst (λ x. IsSettled x (find_status statuses x.name)) (some-inj (rw same at f)) h.0
  | inr other ↦ AllSettled-find_spec lvs statuses name lv h.1 (rw other at f)
]
  where
    some-inj : {a b : ThinLvSpec} → ◌≡◌ {A = Option ThinLvSpec} (some a) (some b) → a ≡ b
    some-inj h = cc

pub find_spec-modify :
    (lvs : List ThinLvSpec) (name : String) (f : ThinLvSpec → ThinLvSpec) (lv : ThinLvSpec)
    → ((l : ThinLvSpec) → (f l).name ≡ l.name)
    → find_spec lvs name ≡ some lv
    → find_spec (modify_spec lvs name f) name ≡ some (f lv)
unfolding find_spec modify_spec
find_spec-modify [] name f lv keeps h = cc
find_spec-modify (l ∷ lvs) name f lv keeps h =
    ground (arith, find_spec-modify lvs name f lv keeps, keeps l)
