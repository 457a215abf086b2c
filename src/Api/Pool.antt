-- ===== src/Api/Pool.antt =====
-- api/v1alpha1/thinpoollv_types.go
use native.Mathlib.Decide.{ℕ_discrete}
use kubesan.Prelude.{
  ℕ, String, List, [], ◌∷◌, ◌++◌, Option, none, some, Bool, ◌==◌, string_eq, String-discrete,
  if◌then◌else◌,
}
use kubesan.Api.Meta.{ObjectMeta, Condition}

pub data ThinLvSpecStateName : Type 0 where
  inactive active removed : ThinLvSpecStateName

pub data ThinLvStatusStateName : Type 0 where
  inactive active removed : ThinLvStatusStateName

pub data ThinLvContentsType : Type 0 where
  empty snapshot other : ThinLvContentsType

pub record ThinLvContents : Type 0 where
  pub contents_type : ThinLvContentsType
  -- Snapshot.SourceThinLvName
  pub source_thin_lv_name : Option String

pub record ThinLvSpec : Type 0 where
  pub name : String
  pub binding : String
  pub contents : ThinLvContents
  pub read_only : Bool
  pub size_bytes : ℕ
  pub state : ThinLvSpecStateName

pub record ThinPoolLvSpec : Type 0 where
  pub vg_name : String
  pub size_bytes : ℕ
  pub thin_lvs : List ThinLvSpec
  -- "" is no node
  pub active_on_node : String

pub record ThinLvStatusState : Type 0 where
  pub name : ThinLvStatusStateName
  -- Active.Path
  pub path : Option String

pub record ThinLvStatus : Type 0 where
  pub name : String
  pub state : ThinLvStatusState
  pub size_bytes : ℕ

pub record ThinPoolLvStatus : Type 0 where
  pub observed_generation : ℕ
  pub conditions : List Condition
  pub active_on_node : String
  pub thin_lvs : List ThinLvStatus

pub record ThinPoolLv : Type 0 where
  pub metadata : ObjectMeta
  pub spec : ThinPoolLvSpec
  pub status : ThinPoolLvStatus

-- The loops of `FindThinLv`, of the spec and of the status: the first entry with the name.
unfoldable pub find_spec : List ThinLvSpec → String → Option ThinLvSpec
find_spec [] name = none
find_spec (lv ∷ lvs) name = if lv.name == name then some lv else find_spec lvs name

unfoldable pub find_status : List ThinLvStatus → String → Option ThinLvStatus
find_status [] name = none
find_status (lv ∷ lvs) name = if lv.name == name then some lv else find_status lvs name

abbrev pub find_thin_lv_spec : ThinPoolLv → String → Option ThinLvSpec
find_thin_lv_spec pool name = find_spec pool.spec.thin_lvs name

abbrev pub find_thin_lv_status : ThinPoolLv → String → Option ThinLvStatus
find_thin_lv_status pool name = find_status pool.status.thin_lvs name

-- A write through the pointer that `FindThinLv` returns: it changes the first entry with the name.
unfoldable pub modify_spec : List ThinLvSpec → String → (ThinLvSpec → ThinLvSpec) → List ThinLvSpec
modify_spec [] name f = []
modify_spec (lv ∷ lvs) name f = if lv.name == name then f lv ∷ lvs else lv ∷ modify_spec lvs name f

unfoldable pub modify_status :
    List ThinLvStatus → String → (ThinLvStatus → ThinLvStatus) → List ThinLvStatus
modify_status [] name f = []
modify_status (lv ∷ lvs) name f =
    if lv.name == name then f lv ∷ lvs else lv ∷ modify_status lvs name f

abbrev pub with_thin_lv_spec : ThinPoolLv → String → (ThinLvSpec → ThinLvSpec) → ThinPoolLv
with_thin_lv_spec pool name f = record pool {
  spec = record pool.spec { thin_lvs = modify_spec pool.spec.thin_lvs name f };
}

abbrev pub with_thin_lv_status : ThinPoolLv → String → (ThinLvStatus → ThinLvStatus) → ThinPoolLv
with_thin_lv_status pool name f = record pool {
  status = record pool.status { thin_lvs = modify_status pool.status.thin_lvs name f };
}

pub record ThinLv : Type 0 where
  pub spec : Option ThinLvSpec
  pub status : Option ThinLvStatus

spec_entries : List ThinLvSpec → List ThinLvStatus → List ThinLv
spec_entries [] statuses = []
spec_entries (lv ∷ lvs) statuses =
    record { spec = some lv; status = find_status statuses lv.name } ∷ spec_entries lvs statuses

orphan_entries : List ThinLvSpec → List ThinLvStatus → List ThinLv
orphan_entries specs [] = []
orphan_entries specs (lv ∷ lvs) =
    let rest = orphan_entries specs lvs in
    elim (find_spec specs lv.name) [
      | none ↦ record { spec = none; status = some lv } ∷ rest
      | some s ↦ rest
    ]

-- `ThinLvs`: the entries with a spec, then the ones with a status only.
unfoldable pub thin_lvs : ThinPoolLv → List ThinLv
unfolding spec_entries orphan_entries
thin_lvs pool =
    spec_entries pool.spec.thin_lvs pool.status.thin_lvs
    ++ orphan_entries pool.spec.thin_lvs pool.status.thin_lvs

pub ThinPoolLv-discrete : Discrete ThinPoolLv
ThinPoolLv-discrete = hlevel (ℕ_discrete, String-discrete)
