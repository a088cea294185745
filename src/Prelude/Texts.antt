-- ===== src/Prelude/Texts.antt =====
-- Texts joined, and dictionaries with texts for keys.
use Prim.Native.String
use Prim.Native.String.{String}
use mathlib.Core.Path.{◌≡◌, refl}
use mathlib.Core.Option.{Option, none, some}
use mathlib.Core.List.{List, [], ◌∷◌}
use native.Mathlib.Omega.{arith}
use text.Mathlib.Text.{◌==◌}
use text.Mathlib.TextEquality.{eq_iff}
use kimo.Prelude.Tests.{if◌then◌else◌}

-- Go's `+` on texts.
infixr 66 ◌<>◌
abbrev pub ◌<>◌ : String → String → String
s <> t = String.◌++◌ s t

-- A Go map: an entry for each key, a write replaces the entry of its key.
abbrev pub Map {ℓ} : Type ℓ → Type ℓ
Map V = List (String × V)

module _ {ℓ} {V : Type ℓ} where
  unfoldable pub lookup : String → Map V → Option V
  lookup k [] = none
  lookup k ((j, v) ∷ m) = if j == k then some v else lookup k m

  unfoldable pub insert : String → V → Map V → Map V
  insert k v [] = (k, v) ∷ []
  insert k v ((j, w) ∷ m) = if j == k then (k, v) ∷ m else (j, w) ∷ insert k v m

  unfoldable pub delete : String → Map V → Map V
  delete k [] = []
  delete k ((j, v) ∷ m) = if j == k then delete k m else (j, v) ∷ delete k m

  pub lookup-insert :
      (written read : String) (value : V) (map : Map V)
      → lookup read (insert written value map)
        ≡ (if written == read then some value else lookup read map)
  unfolding lookup insert
  lookup-insert written read value [] = refl
  lookup-insert written read value ((key, other) ∷ rest) =
      let below = lookup-insert written read value rest in
      ground (arith, below, eq_iff key written, eq_iff key read, eq_iff written read)

  pub lookup-delete :
      (gone read : String) (map : Map V)
      → lookup read (delete gone map) ≡ (if gone == read then none else lookup read map)
  unfolding lookup delete
  lookup-delete gone read [] = ground arith
  lookup-delete gone read ((key, other) ∷ rest) =
      let below = lookup-delete gone read rest in
      ground (arith, below, eq_iff key gone, eq_iff key read, eq_iff gone read)
