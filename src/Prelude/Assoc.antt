-- ===== src/Prelude/Assoc.antt =====
-- Go maps with string keys, as association lists that hold a key at most once.
use mathlib.Core.Path.{◌≡◌, refl}
use mathlib.Core.Option.{Option, none, some}
use mathlib.Core.List.{List, [], ◌∷◌}
use native.Mathlib.Omega.{arith}
use wxf_im.Prelude.Tests.{if◌then◌else◌}
use wxf_im.Prelude.Strings.{Bytes, bytes_eq, bytes_eq_iff}

abbrev pub Assoc {ℓ} : Type ℓ → Type ℓ
Assoc V = List (Bytes × V)

module _ {ℓ} {V : Type ℓ} where
  -- `v, found := entries[key]`
  unfoldable pub lookup : Bytes → Assoc V → Option V
  lookup key ((k, v) ∷ rest) = if bytes_eq k key then some v else lookup key rest
  lookup key [] = none

  -- `entries[key] = value`
  unfoldable pub insert : Bytes → V → Assoc V → Assoc V
  insert key value ((k, v) ∷ rest) =
      let others = insert key value rest in
      if bytes_eq k key then (k, value) ∷ rest else (k, v) ∷ others
  insert key value [] = (key, value) ∷ []

  -- `delete(entries, key)`
  unfoldable pub delete : Bytes → Assoc V → Assoc V
  delete key ((k, v) ∷ rest) =
      let others = delete key rest in if bytes_eq k key then others else (k, v) ∷ others
  delete key [] = []

  pub lookup-insert :
      (key asked : Bytes) (value : V) (entries : Assoc V)
      → lookup asked (insert key value entries)
        ≡ (if bytes_eq key asked then some value else lookup asked entries)
  unfolding lookup insert
  lookup-insert key asked value ((k, v) ∷ rest) = ground (
    arith,
    lookup-insert key asked value rest,
    bytes_eq_iff k asked,
    bytes_eq_iff k key,
    bytes_eq_iff key asked,
  )
  lookup-insert key asked value [] = refl

  pub lookup-delete :
      (key asked : Bytes) (entries : Assoc V)
      → lookup asked (delete key entries)
        ≡ (if bytes_eq key asked then none else lookup asked entries)
  unfolding lookup delete
  lookup-delete key asked ((k, v) ∷ rest) = ground (
    arith,
    lookup-delete key asked rest,
    bytes_eq_iff k asked,
    bytes_eq_iff k key,
    bytes_eq_iff key asked,
  )
  lookup-delete key asked [] = ground arith
