-- ===== src/VolumeController/Honesty.antt =====
-- What is said of a status that is written for a volume, and what the API server answers.
pub mod Lv
pub mod Population
pub mod Sources
pub mod Status
use kubesan.Prelude.{[], ◌∷◌, true, ◌≡◌, sym}
use mathlib.Core.Path.{subst}
use kubesan.Api.{Volume}
use kubesan.Exec.{Env, Trace, Verb, ok, update, update_status, wrote_volume, write_volume}
use kubesan.Exec.Rules.{Keeps}
use kubesan.Blobs.Quiet.{IgnoresBlobs}
use kubesan.VolumeController.{has_condition}

-- a volume that is available is filled
abbrev pub IsHonest : Env → Volume → Type 0
IsHonest env v =
    has_condition env v "Available" ≡ true → has_condition env v "DataSourceCompleted" ≡ true

-- each status that is written is honest
abbrev pub WritesHonest : Env → Trace → Type 0
WritesHonest env [] = Unit
WritesHonest env (wrote_volume update_status v r ∷ t) = IsHonest env v × WritesHonest env t
WritesHonest env (_ ∷ t) = WritesHonest env t

pub WritesHonest-IgnoresBlobs : (env : Env) → IgnoresBlobs (WritesHonest env)
WritesHonest-IgnoresBlobs env = record {
  on_get = λ n r t h. h;
  on_write = λ v p r t h. h;
  on_delete = λ p r t h. h;
  on_command = λ c e t h. h;
}

-- A volume that the API server answers a write with has the status of the volume that was sent.
pub record KeepsStatus (env : Env) : Type 0 where
  pub same :
      (t : Trace) (verb : Verb) (v v' : Volume)
      → env.write_volume t verb v ≡ ok v'
      → v'.status ≡ v.status

-- a status with the conditions of an honest volume is honest
pub IsHonest-status :
    (env : Env) (v w : Volume) → w.status ≡ v.status → IsHonest env v → IsHonest env w
IsHonest-status env v w same h =
    subst
      (λ s.
        env.is_status_condition_true s.conditions "Available" ≡ true
        → env.is_status_condition_true s.conditions "DataSourceCompleted" ≡ true)
      (sym same) h

module _ (env : Env) where
  pub update-Keeps : (v : Volume) → Keeps env (WritesHonest env) (write_volume update v)
  unfolding write_volume
  update-Keeps v = record { at = λ t h. h }
