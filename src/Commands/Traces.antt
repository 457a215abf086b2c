-- ===== src/Commands/Traces.antt =====
-- What a command adds to the record of calls.
use kubesan.Prelude.{String, List, ◌∷◌, none, some, true, ◌≡◌, refl, ◌⊎◌, inl, arith}
use kubesan.Prelude.Text.{contains_text}
use kubesan.Exec.{ok, Exit, Env, Trace, Exec, ran}
use kubesan.Exec.Rules.{>>=-trace, Keeps, Keeps-bind, Keeps-pure, Keeps-throw}
use kubesan.Commands.{
  Output, Outcome, output_of, check_error, must, lvm, dmsetup, suppress, lvm_lv_remove_idempotent,
  lvm_lv_create_idempotent,
}

-- a command as it is run on the host
abbrev pub on_host : List String → List String
on_host command = "nsenter" ∷ "--target" ∷ "1" ∷ "--all" ∷ command

-- a command makes one call, whatever comes of it
pub lvm-trace :
    (args : List String) (env : Env) (t : Trace)
    → (lvm args env t).1
      ≡ ran (on_host ("lvm" ∷ args)) (env.run_command t (on_host ("lvm" ∷ args))) ∷ t
unfolding lvm
lvm-trace args env t = refl

pub lvm-result :
    (args : List String) (env : Env) (t : Trace)
    → (lvm args env t).0 ≡ ok (output_of (env.run_command t (on_host ("lvm" ∷ args))))
unfolding lvm
lvm-result args env t = refl

pub dmsetup-trace :
    (args : List String) (env : Env) (t : Trace)
    → (dmsetup args env t).1
      ≡ ran (on_host ("dmsetup" ∷ args)) (env.run_command t (on_host ("dmsetup" ∷ args))) ∷ t
unfolding dmsetup
dmsetup-trace args env t = refl

check_error-trace : (o : Outcome) (env : Env) (t : Trace) → (check_error o env t).1 ≡ t
unfolding check_error
check_error-trace (output, none) env t = refl
check_error-trace (output, some e) env t = refl

-- to look at the error of a command calls nothing
pub must-trace : (m : Exec Outcome) (env : Env) (t : Trace) → (must m env t).1 ≡ (m env t).1
unfolding must
must-trace m env t = >>=-trace m check_error env t (λ o. check_error-trace o env (m env t).1)

check_error-Keeps : {env : Env} {P : Trace → Type 0} (o : Outcome) → Keeps env P (check_error o)
unfolding check_error
check_error-Keeps (output, none) = Keeps-pure output
check_error-Keeps (output, some e) = Keeps-throw e

pub must-Keeps :
    {env : Env} {P : Trace → Type 0} (m : Exec Outcome) → Keeps env P m → Keeps env P (must m)
unfolding must
must-Keeps m k = Keeps-bind m check_error k check_error-Keeps

module _ {env : Env} {P : Trace → Type 0}
    (step : (c : List String) (t : Trace) → P t → P (ran c (env.run_command t c) ∷ t)) where
  pub lvm-Keeps : (args : List String) → Keeps env P (lvm args)
  unfolding lvm
  lvm-Keeps args = record { at = λ t h. step (on_host ("lvm" ∷ args)) t h }

  pub lvm_lv_remove_idempotent-Keeps :
      (args : List String) → Keeps env P (lvm_lv_remove_idempotent args)
  unfolding lvm_lv_remove_idempotent
  lvm_lv_remove_idempotent-Keeps args = record {
    at = λ t h. step (on_host ("lvm" ∷ "lvremove" ∷ args)) t h;
  }

  pub lvm_lv_create_idempotent-Keeps :
      (binding : String) (args : List String) → Keeps env P (lvm_lv_create_idempotent binding args)
  unfolding lvm_lv_create_idempotent
  lvm_lv_create_idempotent-Keeps binding args = record { at = λ t h. step _ t h }

-- A removal that is accepted: the command ended well, or said that there is nothing to remove.
abbrev pub IsGone : Exit → Type 0
IsGone exit =
    ((output_of exit).1 ≡ none) ⊎ (contains_text (output_of exit).0.combined "ailed to find" ≡ true)

suppress-IsGone :
    (o : Outcome)
    → (suppress (λ s. contains_text s "ailed to find") o).1 ≡ none
    → (o.1 ≡ none) ⊎ (contains_text o.0.combined "ailed to find" ≡ true)
unfolding suppress
suppress-IsGone (output, none) h = inl refl
suppress-IsGone (output, some e) h = ground arith

check_error-eq-ok :
    (o : Outcome) (env : Env) (t : Trace) (output : Output)
    → (check_error o env t).0 ≡ ok output
    → o.1 ≡ none
unfolding check_error
check_error-eq-ok (x, none) env t output h = refl
check_error-eq-ok (x, some e) env t output h = cc

-- `lvremove` passes only if the LV is gone.
pub lvremove-IsGone :
    (args : List String) (env : Env) (t : Trace) (output : Output)
    → (must (lvm_lv_remove_idempotent args) env t).0 ≡ ok output
    → (exit : Exit) × ((must (lvm_lv_remove_idempotent args) env t).1
        ≡ ran (on_host ("lvm" ∷ "lvremove" ∷ args)) exit ∷ t)
      × IsGone exit
unfolding must lvm_lv_remove_idempotent
lvremove-IsGone args env t output h =
    let exit : Exit = env.run_command t (on_host ("lvm" ∷ "lvremove" ∷ args)) in
    let o : Outcome = suppress (λ s. contains_text s "ailed to find") (output_of exit) in
    let t' : Trace = ran (on_host ("lvm" ∷ "lvremove" ∷ args)) exit ∷ t in
    (
      exit,
      check_error-trace o env t',
      suppress-IsGone (output_of exit) (check_error-eq-ok o env t' output h),
    )
