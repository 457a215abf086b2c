-- ===== src/Dm.antt =====
-- internal/common/dm/dm.go: the two device-mapper layers of a thin volume.
pub mod Traces
use Prim.Native.String.{◌++◌ as ◌<>◌}
use kubesan.Prelude.{
  ℕ, String, List, [], ◌∷◌, none, some, Bool, false, not, ◌==◌, string_eq, ◌*◌, ◌/◌, if◌then◌else◌,
}
use kubesan.Prelude.Int.{pos, negsuc}
use kubesan.Prelude.Text.{parse_int, split_on, decimal}
use kubesan.Exec.{bad_request, parse_failed, ok, err, Exec, pure, throw, lift, try, ◌>>=◌, ◌>>◌}
use kubesan.Commands.{
  must, dmsetup, dmsetup_create_idempotent, dmsetup_suspend_idempotent, dmsetup_remove_idempotent,
  path_exists_on_host,
}

abbrev pub lower_name : String → String
lower_name name = "kubesan-lower-" <> name

abbrev pub upper_name : String → String
upper_name name = "kubesan-upper-" <> name

abbrev pub get_device_path : String → String
get_device_path name = "/dev/mapper/" <> upper_name name

-- sizes are in sectors of 512 bytes
unfoldable pub zero_table : ℕ → String
zero_table size_bytes = "0 " <> (decimal (size_bytes / 512) <> " zero")

unfoldable pub lower_table : ℕ → String → String
lower_table size_bytes device =
    "0 " <> (decimal (size_bytes / 512) <> (" linear " <> (device <> " 0")))

unfoldable pub upper_table : ℕ → String → String
upper_table size_bytes name =
    "0 " <> (decimal (size_bytes / 512) <> (" linear /dev/mapper/" <> (lower_name name <> " 0")))

unfoldable pub load_table : String → String → Exec (Unit {0})
unfolding must dmsetup ◌>>=◌
load_table device table = do
  must (dmsetup ("load" ∷ device ∷ "--table" ∷ table ∷ []))
  must (dmsetup ("resume" ∷ "--noflush" ∷ "--nolockfs" ∷ device ∷ []))
  pure tt

unfoldable pub remove : String → Exec (Unit {0})
unfolding must dmsetup_remove_idempotent ◌>>=◌
remove name = do
  must (dmsetup_remove_idempotent ("--force" ∷ upper_name name ∷ []))
  must (dmsetup_remove_idempotent (lower_name name ∷ []))
  pure tt

-- an error undoes what was made before, and is handed on whatever comes of that
or_undo : {A : Type 0} → Exec A → Exec (Unit {0}) → Exec A
unfolding try lift ◌>>=◌
or_undo m undo = do r ← try m; elim r [ ok a ↦ lift (ok a) | err e ↦ (do try undo; throw e) ]

remove_lower : String → Exec (Unit {0})
unfolding dmsetup_remove_idempotent ◌>>=◌
remove_lower name = do dmsetup_remove_idempotent (lower_name name ∷ []); pure tt

check_device_path : String → Exec (Unit {0})
unfolding path_exists_on_host ◌>>=◌
check_device_path name = do
  found ← path_exists_on_host (get_device_path name)
  if found then pure tt else throw (bad_request "missing expected dm mapper path")

unfoldable pub create : String → ℕ → Exec (Unit {0})
unfolding must dmsetup dmsetup_create_idempotent zero_table upper_table or_undo remove remove_lower
    check_device_path ◌>>=◌
create name size_bytes = do
  must (
      dmsetup_create_idempotent (
        "--uuid"
        ∷ lower_name name
        ∷ "--table"
        ∷ zero_table size_bytes
        ∷ "--addnodeoncreate"
        ∷ lower_name name
        ∷ []))
  or_undo
      (must (
        dmsetup_create_idempotent (
          "--uuid"
          ∷ upper_name name
          ∷ "--table"
          ∷ upper_table size_bytes name
          ∷ "--noudevsync"
          ∷ upper_name name
          ∷ [])))
      (remove_lower name)
  or_undo (must (dmsetup ("mknodes" ∷ upper_name name ∷ []))) (remove name)
  or_undo (check_device_path name) (remove name)

-- an error of the look-up counts as "not there"
device_exists : String → Exec Bool
unfolding try path_exists_on_host ◌>>=◌
device_exists name = do
  r ← try (path_exists_on_host (get_device_path name))
  elim r [ ok found ↦ pure found | err e ↦ pure false ]

unfoldable pub suspend : String → Bool → Exec (Unit {0})
unfolding must dmsetup_suspend_idempotent zero_table load_table device_exists ◌>>=◌
suspend name skip_sync = do
  found ← device_exists name
  if not found then pure tt else do
    must (dmsetup_suspend_idempotent (upper_name name ∷ "--noflush" ∷ "--nolockfs" ∷ []))
    must (
        dmsetup_suspend_idempotent
          (if skip_sync then lower_name name ∷ "--nolockfs" ∷ [] else lower_name name ∷ []))
    load_table (lower_name name) (zero_table 512)

unfoldable pub resume : String → ℕ → String → Exec (Unit {0})
unfolding lower_table upper_table load_table ◌>>=◌
resume name size_bytes dev_path = do
  load_table (lower_name name) (lower_table size_bytes dev_path)
  load_table (upper_name name) (upper_table size_bytes name)

-- the second word of `dmsetup table`, in sectors; a negative number of sectors is never printed
size_of_words : List String → Exec ℕ
unfolding throw pure parse_int
size_of_words [] = throw (bad_request "dm table parse failed")
size_of_words (w ∷ []) = throw (bad_request "dm table parse failed")
size_of_words (w ∷ sectors ∷ ws) = elim (parse_int sectors) [
  | none ↦ throw parse_failed
  | some (pos n) ↦ pure (512 * n)
  | some (negsuc n) ↦ throw parse_failed
]

unfoldable pub get_size : String → Exec ℕ
unfolding must dmsetup split_on size_of_words ◌>>=◌
get_size name = do
  output ← must (dmsetup ("table" ∷ upper_name name ∷ []))
  size_of_words (split_on b' ' output.combined)

unfoldable pub is_lvm_active : String → String → Exec Bool
unfolding must dmsetup ◌>>=◌
is_lvm_active vg_name lv_name = do
  output ← must (
      dmsetup (
        "info"
        ∷ "--select"
        ∷ ("vg_name=" <> (vg_name <> (" && lv_name=" <> lv_name)))
        ∷ "--columns"
        ∷ "--noheadings"
        ∷ []))
  pure (not (output.combined == ""))
