-- ===== src/Prelude/Dict.antt =====
-- Go's maps with texts as keys, as association lists.
use Prim.Native.String.{String}
use mathlib.Core.Path.{◌≡◌, refl}
use mathlib.Core.Option.{Option, none, some}
use mathlib.Core.List.{List, [], ◌∷◌}
use native.Mathlib.Omega.{arith}
use text.Mathlib.TextEquality.{eq_iff}
use kubesan.Prelude.Tests.{if◌then◌else◌}
use kubesan.Prelude.Equality.{◌==◌, string_eq}

-- a map whose values have the type
abbrev pub Dict {ℓ} : Type ℓ → Type ℓ
Dict V = List (String × V)

unfoldable pub lookup {ℓ} : {V : Type ℓ} → String → Dict V → Option V
lookup key [] = none
lookup key (entry ∷ entries) =
    let rest = lookup key entries in if entry.0 == key then some entry.1 else rest

-- m[key] = value
unfoldable pub insert {ℓ} : {V : Type ℓ} → String → V → Dict V → Dict V
insert key value [] = (key, value) ∷ []
insert key value (entry ∷ entries) =
    let rest = insert key value entries in
    if entry.0 == key then (key, value) ∷ entries else entry ∷ rest

-- delete(m, key)
unfoldable pub delete {ℓ} : {V : Type ℓ} → String → Dict V → Dict V
delete key [] = []
delete key (entry ∷ entries) =
    let rest = delete key entries in if entry.0 == key then rest else entry ∷ rest

module _ {ℓ} {V : Type ℓ} where
  -- an assignment changes what is found under its key, and nothing else
  pub lookup-insert :
      (key other : String) (value : V) (dict : Dict V)
      → lookup other (insert key value dict)
        ≡ (if key == other then some value else lookup other dict)
  unfolding lookup insert
  lookup-insert key other value [] = refl
  lookup-insert key other value (entry ∷ dict) =
      let rest = lookup-insert key other value dict in
      ground (arith, rest, eq_iff entry.0 other, eq_iff entry.0 key, eq_iff key other)

  -- and so does a deletion
  pub lookup-delete :
      (key other : String) (dict : Dict V)
      → lookup other (delete key dict) ≡ (if key == other then none else lookup other dict)
  unfolding lookup delete
  lookup-delete key other [] = ground arith
  lookup-delete key other (entry ∷ dict) =
      let rest = lookup-delete key other dict in
      ground (arith, rest, eq_iff entry.0 other, eq_iff entry.0 key, eq_iff key other)
