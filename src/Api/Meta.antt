-- ===== src/Api/Meta.antt =====
-- The metadata and the conditions that every resource has (`metav1.ObjectMeta`, `metav1.Condition`).
-- The functions on them are parameters, in Env of Exec.
use kubesan.Prelude.{ℕ, String, List, Option}

pub data ConditionStatus : Type 0 where
  condition_true condition_false condition_unknown : ConditionStatus

pub record Condition : Type 0 where
  pub type : String
  pub status : ConditionStatus
  pub reason : String
  pub message : String
  pub last_transition_time : ℕ

pub record ObjectMeta : Type 0 where
  pub name : String
  pub labels : Option (List (String × String))
  pub finalizers : List String
  pub owner_references : List String
  pub deletion_timestamp : Option ℕ
  pub generation : ℕ
  pub resource_version : ℕ
