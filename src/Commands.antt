-- ===== src/Commands.antt =====
-- internal/common/commands/commands.go: the host's commands, with the errors that mean "already
-- done" taken out, and a counter kept in LVM tags. `path.Join` of an absolute clean path is `<>`.
pub mod Counter
pub mod Munge
pub mod Nbd
pub mod Tagging
pub mod Traces
use Prim.Native.String.{◌++◌ as ◌<>◌}
use kubesan.Prelude.{
  ℕ, zero, suc, String, List, [], ◌∷◌, ◌++◌, Option, none, some, Bool, true, false, ◌||◌, ◌==◌,
  string_eq, not, if◌then◌else◌,
}
use kubesan.Prelude.Int.{ℤ, pos, negsuc}
use kubesan.Prelude.Text.{contains_text, cut_prefix, trim_space, split_on, parse_int, decimal}
use kubesan.Commands.Munge.{munge}
use kubesan.Exec.{
  Err, command_failed, parse_failed, Result, ok, err, Exit, exited, failed, Exec, pure, throw, lift,
  try, ask, run_command, stat_path, ◌>>=◌, ◌>>◌,
}

-- `none` is the exit code -1 of a command that could not run
pub record Output : Type 0 where
  pub exit_code : Option ℕ
  pub combined : String

-- Go's (Output, error)
abbrev pub Outcome : Type 0
Outcome = Output × Option Err

unfoldable pub output_of : Exit → Outcome
output_of (exited zero combined) = (record { exit_code = some 0; combined = combined }, none)
output_of (exited (suc n) combined) =
    (record { exit_code = some (suc n); combined = combined }, some command_failed)
output_of (failed combined) =
    (record { exit_code = none; combined = combined }, some command_failed)

unfoldable pub run_in_container : List String → Exec Outcome
unfolding output_of ◌>>=◌ run_command
run_in_container command = do exit ← run_command command; pure (output_of exit)

unfoldable pub run_on_host : List String → Exec Outcome
unfolding run_in_container
run_on_host command = run_in_container ("nsenter" ∷ "--target" ∷ "1" ∷ "--all" ∷ command)

unfoldable pub path_exists_on_host : String → Exec Bool
unfolding stat_path
path_exists_on_host host_path = stat_path ("/proc/1/root" <> host_path)

unfoldable pub dmsetup : List String → Exec Outcome
unfolding run_on_host
dmsetup args = run_on_host ("dmsetup" ∷ args)

unfoldable pub lvm : List String → Exec Outcome
unfolding run_on_host
lvm args = run_on_host ("lvm" ∷ args)

-- `if err != nil { return err }` behind a command
unfoldable pub check_error : Outcome → Exec Output
unfolding throw pure
check_error (output, none) = pure output
check_error (output, some e) = throw e

unfoldable pub must : Exec Outcome → Exec Output
unfolding check_error ◌>>=◌
must m = do outcome ← m; check_error outcome

-- drops an error whose output has the text
unfoldable pub suppress : (String → Bool) → Outcome → Outcome
suppress harmless (output, none) = (output, none)
suppress harmless (output, some e) =
    if harmless output.combined then (output, none) else (output, some e)

abbrev no_device : String → Bool
no_device s = contains_text s "No such device or address"

unfoldable pub dmsetup_create_idempotent : List String → Exec Outcome
unfolding dmsetup suppress ◌>>=◌
dmsetup_create_idempotent args = do
  outcome ← dmsetup ("create" ∷ args)
  pure (suppress (λ s. contains_text s "resource busy") outcome)

unfoldable pub dmsetup_suspend_idempotent : List String → Exec Outcome
unfolding dmsetup suppress ◌>>=◌
dmsetup_suspend_idempotent args = do
  outcome ← dmsetup ("suspend" ∷ args)
  pure (suppress no_device outcome)

unfoldable pub dmsetup_remove_idempotent : List String → Exec Outcome
unfolding dmsetup suppress ◌>>=◌
dmsetup_remove_idempotent args = do
  outcome ← dmsetup ("remove" ∷ args)
  pure (suppress no_device outcome)

unfoldable pub lvm_lv_create_idempotent : String → List String → Exec Outcome
unfolding lvm suppress ◌>>=◌ munge
lvm_lv_create_idempotent binding args = do
  env ← ask
  let prefix_args =
      if binding == ""
      then "lvcreate" ∷ []
      else "lvcreate" ∷ "--addtag" ∷ (env.domain <> ("/binding=" <> munge binding)) ∷ []
  outcome ← lvm (prefix_args ++ args)
  pure (suppress (λ s. contains_text s "already exists") outcome)

unfoldable pub lvm_lv_remove_idempotent : List String → Exec Outcome
unfolding lvm suppress ◌>>=◌
lvm_lv_remove_idempotent args = do
  outcome ← lvm ("lvremove" ∷ args)
  pure (suppress (λ s. contains_text s "ailed to find") outcome)

unfoldable pub lvm_lv_extend_idempotent : List String → Exec Outcome
unfolding lvm suppress ◌>>=◌
lvm_lv_extend_idempotent args = do
  outcome ← lvm ("lvextend" ∷ args)
  pure (
      suppress
        (λ s.
          contains_text s "matches existing size"
          || contains_text s "not larger than existing size")
        outcome)

qualified : String → String → String
qualified vg_name lv_name = vg_name <> ("/" <> lv_name)

-- `lvs` prints something only if the tag is there.
unfoldable pub lvm_lv_has_tag : String → String → String → Exec Bool
unfolding lvm must qualified ◌>>=◌
lvm_lv_has_tag vg_name lv_name tag = do
  output ← must (
      lvm (
        "lvs"
        ∷ "--devicesfile"
        ∷ vg_name
        ∷ "--select"
        ∷ ("lv_tags = {\"" <> (tag <> "\"}"))
        ∷ qualified vg_name lv_name
        ∷ []))
  pure (not (output.combined == ""))

unfoldable pub lvm_lv_add_tag : String → String → String → Exec (Unit {0})
unfolding lvm must qualified ◌>>=◌
lvm_lv_add_tag vg_name lv_name tag = do
  must (
      lvm (
        "lvchange" ∷ "--devicesfile" ∷ vg_name ∷ "--addtag" ∷ tag ∷ qualified vg_name lv_name ∷ []))
  pure tt

unfoldable pub lvm_lv_del_tag : String → String → String → Exec (Unit {0})
unfolding lvm must qualified ◌>>=◌
lvm_lv_del_tag vg_name lv_name tag = do
  must (
      lvm (
        "lvchange" ∷ "--devicesfile" ∷ vg_name ∷ "--deltag" ∷ tag ∷ qualified vg_name lv_name ∷ []))
  pure tt

unfoldable pub lvm_lv_get_tags : String → String → Exec (List String)
unfolding lvm must qualified ◌>>=◌ trim_space split_on
lvm_lv_get_tags vg_name lv_name = do
  output ← must (
      lvm (
        "lvs"
        ∷ "--devicesfile"
        ∷ vg_name
        ∷ "--options"
        ∷ "lv_tags"
        ∷ "--noheadings"
        ∷ qualified vg_name lv_name
        ∷ []))
  pure (split_on b',' (trim_space output.combined))

-- a size that is no number is an error of `ParseInt`
unfoldable pub parsed_size : Option ℤ → Exec ℕ
unfolding throw pure
parsed_size none = throw parse_failed
parsed_size (some (pos n)) = pure n
parsed_size (some (negsuc n)) = throw parse_failed

-- LVM prints no negative size; the model answers one with an error, where the code would hand it on.
unfoldable pub lvm_size : String → String → Exec ℕ
unfolding lvm must qualified ◌>>=◌ trim_space parse_int parsed_size
lvm_size vg_name lv_name = do
  output ← must (
      lvm (
        "lvs"
        ∷ "--devicesfile"
        ∷ vg_name
        ∷ "--options"
        ∷ "lv_size"
        ∷ "--units"
        ∷ "b"
        ∷ "--no-headings"
        ∷ "--no-suffix"
        ∷ qualified vg_name lv_name
        ∷ []))
  parsed_size (parse_int (trim_space output.combined))
