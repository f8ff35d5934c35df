-- ===== src/Prelude/Dict.antt =====
-- A Go map with numbers as keys, as an association list. The order of the list stands for the
-- order, left open by Go, in which a `range` loop meets the keys.
use Prim.Native.Nat.{ℕ}
use mathlib.Core.Path.{◌≡◌, refl}
use mathlib.Core.Bool.{Bool, false}
use mathlib.Core.List.{List, [], ◌∷◌}
use mathlib.Core.Option.{Option, none, some}
use native.Mathlib.Omega.{arith}
use cpu_manager_go.Prelude.Lists.{member}
use cpu_manager_go.Prelude.Tests.{◌==◌, if◌then◌else◌}

abbrev pub Dict {ℓ} : Type ℓ → Type ℓ
Dict V = List (ℕ × V)

module _ {ℓ} {V : Type ℓ} where
  abbrev pub lookup : ℕ → Dict V → Option V
  lookup k [] = none
  lookup k ((j, v) ∷ d) = if k == j then some v else lookup k d

  -- `d[k] = v`
  abbrev pub put : ℕ → V → Dict V → Dict V
  put k v [] = (k, v) ∷ []
  put k v ((j, w) ∷ d) = let rest = put k v d in if k == j then (k, v) ∷ d else (j, w) ∷ rest

  -- `delete(d, k)`
  abbrev pub delete : ℕ → Dict V → Dict V
  delete k [] = []
  delete k ((j, w) ∷ d) = let rest = delete k d in if k == j then rest else (j, w) ∷ rest

  -- A `range` loop that deletes the entries that fail a test.
  abbrev pub keep : (ℕ → V → Bool) → Dict V → Dict V
  keep p [] = []
  keep p ((j, w) ∷ d) = let rest = keep p d in if p j w then (j, w) ∷ rest else rest

  -- The keys, in the order of a `range` loop.
  abbrev pub keys : Dict V → List ℕ
  keys [] = []
  keys ((j, w) ∷ d) = j ∷ keys d

  pub lookup-put :
      (j k : ℕ) (v : V) (d : Dict V)
      → lookup j (put k v d) ≡ (if j == k then some v else lookup j d)
  lookup-put j k v [] = refl
  lookup-put j k v ((i, w) ∷ d) = ground (arith, lookup-put j k v d)

  pub lookup-delete :
      (j k : ℕ) (d : Dict V) → lookup j (delete k d) ≡ (if j == k then none else lookup j d)
  lookup-delete j k [] = ground arith
  lookup-delete j k ((i, w) ∷ d) = ground (arith, lookup-delete j k d)

  pub lookup_missing : (k : ℕ) (d : Dict V) → member k (keys d) ≡ false → lookup k d ≡ none
  lookup_missing k [] h = refl
  lookup_missing k ((j, v) ∷ d) h = ground (arith, lookup_missing k d)
