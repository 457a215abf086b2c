-- ===== src/Dm/Traces.antt =====
-- What suspending a volume's devices adds to the record of calls.
use kubesan.Prelude.{String, List, ◌∷◌, Bool, false, not}
use kubesan.Exec.{Env, Trace, Result, stat, ran, stat_path, try, pure}
use kubesan.Exec.Rules.{Keeps, Keeps-bind, Keeps-pure, Keeps-try, Keeps-if, Keeps-elim_result}
use kubesan.Commands.{dmsetup, dmsetup_suspend_idempotent, path_exists_on_host}
use kubesan.Commands.Traces.{must-Keeps}
use kubesan.Dm.{device_exists, get_device_path, load_table, suspend}

module _ {env : Env} {P : Trace → Type 0}
    (on_command : (c : List String) (t : Trace) → P t → P (ran c (env.run_command t c) ∷ t))
    (on_stat : (p : String) (r : Result Bool) (t : Trace) → P t → P (stat p r ∷ t)) where
  dmsetup-Keeps : (args : List String) → Keeps env P (dmsetup args)
  unfolding dmsetup
  dmsetup-Keeps args = record { at = λ t h. on_command _ t h }

  suspended-Keeps : (args : List String) → Keeps env P (dmsetup_suspend_idempotent args)
  unfolding dmsetup_suspend_idempotent
  suspended-Keeps args = record { at = λ t h. on_command _ t h }

  load_table-Keeps : (device table : String) → Keeps env P (load_table device table)
  unfolding load_table
  load_table-Keeps device table =
      Keeps-bind _ _ (must-Keeps _ (dmsetup-Keeps _))
        (λ o. Keeps-bind _ _ (must-Keeps _ (dmsetup-Keeps _)) (λ o'. Keeps-pure tt))

  path_exists-Keeps : (p : String) → Keeps env P (path_exists_on_host p)
  unfolding path_exists_on_host stat_path
  path_exists-Keeps p = record { at = λ t h. on_stat _ _ t h }

  device_exists-Keeps : (name : String) → Keeps env P (device_exists name)
  unfolding device_exists
  device_exists-Keeps name =
      Keeps-bind (try (path_exists_on_host (get_device_path name))) _
        (Keeps-try _ (path_exists-Keeps _))
        (λ r.
          Keeps-elim_result r pure (λ x. pure false) (λ b e. Keeps-pure b)
            (λ x e. Keeps-pure false))

  pub suspend-Keeps : (name : String) (skip_sync : Bool) → Keeps env P (suspend name skip_sync)
  unfolding suspend
  suspend-Keeps name skip_sync =
      Keeps-bind (device_exists name) _ (device_exists-Keeps name) (λ found.
        Keeps-if (not found) _ _ (λ e. Keeps-pure tt)
          (λ e.
            Keeps-bind _ _ (must-Keeps _ (suspended-Keeps _)) (λ o.
              Keeps-bind _ _ (must-Keeps _ (suspended-Keeps _)) (λ o'. load_table-Keeps _ _))))
