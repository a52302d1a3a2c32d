-- ===== src/Prelude/Maps.antt =====
-- Go's `map[string]V`, as the function from a key to the value stored under it. The program never
-- observes the order or the number of the entries of the maps that are modelled so.
use Prim.Native.String.{String}
use mathlib.Core.Path.{◌≡◌}
use mathlib.Core.Logic.{◌≢◌}
use mathlib.Core.Option.{Option, none, some}
use text.Mathlib.Text.{◌==◌}
use text.Mathlib.TextPositions.{eq_refl}
use insight_collector.Prelude.Tests.{if◌then◌else◌, eq-false_of_ne}

abbrev pub GoMap {ℓ} : Type ℓ → Type ℓ
GoMap V = String → Option V

module _ {ℓ} {V : Type ℓ} where
  -- `make(map[string]V)`
  abbrev pub empty : GoMap V
  empty k = none

  -- `m[key] = v`
  abbrev pub insert : String → V → GoMap V → GoMap V
  insert key v m k = if key == k then some v else m k

  -- `delete(m, key)`
  abbrev pub delete : String → GoMap V → GoMap V
  delete key m k = if key == k then none else m k

  pub insert_self : (key : String) (v : V) (m : GoMap V) → insert key v m key ≡ some v
  insert_self key v m = rw (eq_refl key)

  pub insert_ne : (key k : String) (v : V) (m : GoMap V) → key ≢ k → insert key v m k ≡ m k
  insert_ne key k v m h = rw (eq-false_of_ne key k h)

  pub delete_self : (key : String) (m : GoMap V) → delete key m key ≡ none
  delete_self key m = rw (eq_refl key)

  pub delete_ne : (key k : String) (m : GoMap V) → key ≢ k → delete key m k ≡ m k
  delete_ne key k m h = rw (eq-false_of_ne key k h)
