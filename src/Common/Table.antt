-- ===== src/Common/Table.antt =====
-- `std::unordered_map<std::string, V>`: entries in no particular order.
use Prim.Native.Nat.{ℕ}
use mathlib.Core.Path.{◌≡◌, refl}
use mathlib.Core.Option.{Option, none, some}
use mathlib.Core.List.{List, [], ◌∷◌}
use native.Mathlib.Omega.{arith}
use hydrogen_web.Common.Tests.{if◌then◌else◌}
use hydrogen_web.Common.Bytes.{Bytes, bytes_eq, bytes_eq_iff}

abbrev pub Table {ℓ} : Type ℓ → Type ℓ
Table V = List (Bytes × V)

module _ {ℓ} {V : Type ℓ} where
  -- `map.find(k)`
  unfoldable pub find : Bytes → Table V → Option V
  find k [] = none
  find k ((j, w) ∷ m) = if bytes_eq j k then some w else find k m

  -- `map[k] = v`
  unfoldable pub assign : Bytes → V → Table V → Table V
  assign k v [] = (k, v) ∷ []
  assign k v ((j, w) ∷ m) =
      let rest = assign k v m in if bytes_eq j k then (j, v) ∷ m else (j, w) ∷ rest

  -- `map.erase(k)`: the number of entries removed, and what is left.
  unfoldable pub erase : Bytes → Table V → ℕ × Table V
  erase k [] = (0, [])
  erase k ((j, w) ∷ m) =
      let rest = erase k m in if bytes_eq j k then (1, m) else (rest.0, (j, w) ∷ rest.1)

  -- No key is there twice.
  abbrev pub IsUnique : Table V → Type ℓ
  IsUnique [] = Unit
  IsUnique ((k, v) ∷ m) = (find k m ≡ none) × IsUnique m

  pub find-assign :
      (j k : Bytes) (v : V) (m : Table V)
      → find j (assign k v m) ≡ (if bytes_eq k j then some v else find j m)
  unfolding find assign
  find-assign j k v [] = refl
  find-assign j k v ((i, w) ∷ m) =
      ground (arith, find-assign j k v m, bytes_eq_iff i k, bytes_eq_iff i j, bytes_eq_iff k j)

  pub find-erase :
      (j k : Bytes) (m : Table V)
      → IsUnique m
      → find j (erase k m).1 ≡ (if bytes_eq k j then none else find j m)
  unfolding find erase
  find-erase j k [] u = ground arith
  find-erase j k ((i, w) ∷ m) u =
      ground (arith, find-erase j k m u.1, bytes_eq_iff i k, bytes_eq_iff i j, bytes_eq_iff k j)

  -- What is there is removed, and counted.
  pub erase_count : (k : Bytes) (m : Table V) (v : V) → find k m ≡ some v → (erase k m).0 ≡ 1
  unfolding find erase
  erase_count k [] v h = cc
  erase_count k ((j, w) ∷ m) v h = ground (arith, erase_count k m v)

  -- What is not there is not counted.
  pub erase_absent : (k : Bytes) (m : Table V) → find k m ≡ none → (erase k m).0 ≡ 0
  unfolding find erase
  erase_absent k [] h = refl
  erase_absent k ((j, w) ∷ m) h = ground (arith, erase_absent k m)

  pub assign-IsUnique : (k : Bytes) (v : V) (m : Table V) → IsUnique m → IsUnique (assign k v m)
  unfolding find assign
  assign-IsUnique k v [] u = (refl, tt)
  assign-IsUnique k v ((i, w) ∷ m) u =
      ground
        (arith, assign-IsUnique k v m u.1, find-assign i k v m, bytes_eq_iff i k, bytes_eq_iff k i)

  pub erase-IsUnique : (k : Bytes) (m : Table V) → IsUnique m → IsUnique (erase k m).1
  unfolding find erase
  erase-IsUnique k [] u = tt
  erase-IsUnique k ((i, w) ∷ m) u =
      ground
        (arith, erase-IsUnique k m u.1, find-erase i k m u.1, bytes_eq_iff i k, bytes_eq_iff k i)
