-- ===== src/Common/Maps.antt =====
-- A Go map with string keys, as an association list: a read of a missing key gives `none`, a write
-- replaces the entry in place or adds one at the end. `range` visits the entries in list order, and
-- since the theorems hold for every list they hold for every order that Go may choose.
use Prim.Native.String.{String}
use mathlib.Core.Path.{◌≡◌, refl}
use mathlib.Core.List.{List, [], ◌∷◌, map}
use mathlib.Core.Option
use mathlib.Core.Option.{Option, none, some}
use native.Mathlib.Omega.{arith}
use text.Mathlib.Text.{◌==◌}
use text.Mathlib.TextEquality.{eq_iff}
use text.Mathlib.TextPositions.{eq_refl}
use mini_gateway.Common.Tests.{if◌then◌else◌}

abbrev pub Dict {ℓ} : Type ℓ → Type ℓ
Dict V = List (String × V)

module _ {ℓ} {V : Type ℓ} where
  unfoldable pub lookup : String → Dict V → Option V
  lookup key [] = none
  lookup key (entry ∷ rest) = if entry.0 == key then some entry.1 else lookup key rest

  unfoldable pub insert : String → V → Dict V → Dict V
  insert key value [] = (key, value) ∷ []
  insert key value (entry ∷ rest) =
      if entry.0 == key then (key, value) ∷ rest else entry ∷ insert key value rest

  unfoldable pub delete : String → Dict V → Dict V
  delete key [] = []
  delete key (entry ∷ rest) =
      let others = delete key rest in if entry.0 == key then others else entry ∷ others

  -- A write is seen at its own key only.
  pub lookup-insert :
      (key other : String) (value : V) (dict : Dict V)
      → lookup other (insert key value dict)
        ≡ (if key == other then some value else lookup other dict)
  unfolding lookup insert
  lookup-insert key other value [] = refl
  lookup-insert key other value (entry ∷ rest) =
      let ih = lookup-insert key other value rest in
      ground (arith, ih, eq_iff entry.0 key, eq_iff entry.0 other, eq_iff key other)

  pub lookup-insert_self :
      (key : String) (value : V) (dict : Dict V) → lookup key (insert key value dict) ≡ some value
  lookup-insert_self key value dict = simp (eq_refl, lookup-insert)

  pub lookup-delete :
      (key other : String) (dict : Dict V)
      → lookup other (delete key dict) ≡ (if key == other then none else lookup other dict)
  unfolding lookup delete
  lookup-delete key other [] = ground arith
  lookup-delete key other (entry ∷ rest) =
      let ih = lookup-delete key other rest in
      ground (arith, ih, eq_iff entry.0 key, eq_iff entry.0 other, eq_iff key other)

module _ {ℓ κ} {V : Type ℓ} {W : Type κ} where
  pub lookup-map :
      (f : V → W) (k : String) (m : Dict V)
      → lookup k (map (λ e. (e.0, f e.1)) m) ≡ Option.map f (lookup k m)
  unfolding lookup
  lookup-map f k [] = refl
  lookup-map f k (e ∷ m) = ground (arith, lookup-map f k m)
