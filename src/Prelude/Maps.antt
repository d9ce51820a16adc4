-- ===== src/Prelude/Maps.antt =====
-- A `HashMap` keyed by fixed-size byte arrays, as the function that `get` is. The code never
-- iterates over a map and never asks for its size.
use mathlib.Core.Bool.{Bool, true, false}
use mathlib.Core.Option.{Option, none, some}
use atlas_faucet.Prelude.Tests.{if◌then◌else◌}
use atlas_faucet.Prelude.Lists.{Bytes, bytes_eq}

abbrev pub Map {ℓ} : Type ℓ → Type ℓ
Map V = Bytes → Option V

module _ {ℓ} {V : Type ℓ} where
  unfoldable pub empty_map : Map V
  empty_map k = none

  unfoldable pub insert : Bytes → V → Map V → Map V
  insert k v m j = if bytes_eq k j then some v else m j

  unfoldable pub remove : Bytes → Map V → Map V
  remove k m j = if bytes_eq k j then none else m j

  unfoldable pub retain : (V → Bool) → Map V → Map V
  retain keep m j = elim (m j) [ none ↦ none | some v ↦ if keep v then some v else none ]

  unfoldable pub contains_key : Bytes → Map V → Bool
  contains_key k m = elim (m k) [ none ↦ false | some v ↦ true ]
