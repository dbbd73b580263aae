-- ===== src/Prelude/GoMap.antt =====
-- Go's `map[string]V`: a function from keys to values, where a missing key has `none`. Code that
-- ranges over a map takes the order in which Go visits it as a list.
use mathlib.Core.Option.{Option, none, some}
use Prim.Native.String.{String}
use ruriko.Prelude.Tests.{if◌then◌else◌, ◌==◌, string_eq}

abbrev pub GoMap {ℓ} : Type ℓ → Type ℓ
GoMap V = String → Option V

module _ {ℓ} {V : Type ℓ} where
  -- make(map[string]V)
  abbrev pub empty : GoMap V
  empty k = none

  -- m[k] = v
  abbrev pub put : GoMap V → String → V → GoMap V
  put m k v = λ j. if k == j then some v else m j

  -- delete(m, k)
  abbrev pub delete : GoMap V → String → GoMap V
  delete m k = λ j. if k == j then none else m j
