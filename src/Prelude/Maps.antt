-- ===== src/Prelude/Maps.antt =====
-- Go maps with string keys, as association lists: the newest entry for a key is the one in force.
use mathlib.Core.Path.{◌≡◌}
use mathlib.Core.Option.{Option, none, some}
use mathlib.Core.List.{List, [], ◌∷◌}
use Prim.Native.String.{String}
use native.Mathlib.Omega.{arith}
use summer_project.Prelude.Tests.{if◌then◌else◌}
use summer_project.Prelude.Text.{str_eq, eq_iff, eq_refl}

abbrev pub Map {ℓ} : Type ℓ → Type ℓ
Map V = List (String × V)

module _ {ℓ} {V : Type ℓ} where
  unfoldable pub lookup : String → Map V → Option V
  lookup key [] = none
  lookup key ((name, held) ∷ rest) = if str_eq key name then some held else lookup key rest

  unfoldable pub delete : String → Map V → Map V
  delete key [] = []
  delete key ((name, held) ∷ rest) =
      let kept = delete key rest in if str_eq key name then kept else (name, held) ∷ kept

  -- A present key keeps its place.
  unfoldable pub insert : String → V → Map V → Map V
  insert key new [] = (key, new) ∷ []
  insert key new ((name, held) ∷ rest) =
      if str_eq key name then (name, new) ∷ rest else (name, held) ∷ insert key new rest

  pub lookup-delete :
      (key other : String) (m : Map V)
      → lookup other (delete key m) ≡ (if str_eq key other then none else lookup other m)
  unfolding lookup delete
  lookup-delete key other [] = ground arith
  lookup-delete key other ((name, held) ∷ rest) =
      ground
        (arith, lookup-delete key other rest, eq_iff key name, eq_iff other name, eq_iff key other)

  pub lookup-insert :
      (key other : String) (new : V) (m : Map V)
      → lookup other (insert key new m) ≡ (if str_eq key other then some new else lookup other m)
  unfolding lookup insert
  lookup-insert key other new [] = ground (arith, eq_iff key other, eq_iff other key)
  lookup-insert key other new ((name, held) ∷ rest) = ground (
    arith,
    lookup-insert key other new rest,
    eq_iff key name,
    eq_iff other name,
    eq_iff key other,
  )

  pub lookup-insert_self :
      (key : String) (new : V) (m : Map V) → lookup key (insert key new m) ≡ some new
  lookup-insert_self key new m = simp (lookup-insert, eq_refl)
