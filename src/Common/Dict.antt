-- ===== src/Common/Dict.antt =====
-- `std::map<std::string, std::string>`: the entries in the order of their keys.
use Prim.Native.Nat.{Ordering}
use mathlib.Core.Path.{◌≡◌, refl}
use mathlib.Core.Logic.{◌≢◌}
use mathlib.Core.Option.{Option, none, some}
use mathlib.Core.List.{List, [], ◌∷◌}
use native.Mathlib.Omega.{arith}
use hydrogen_web.Common.Tests.{if◌then◌else◌}
use hydrogen_web.Common.Bytes.{
  Bytes, compare_bytes, bytes_eq, eq_of_compare, bytes_eq_iff, lt_of_gt, compare_bytes_self,
}

abbrev pub Dict : Type 0
Dict = List (Bytes × Bytes)

-- `map.find(k)`
unfoldable pub lookup : Bytes → Dict → Option Bytes
lookup k [] = none
lookup k ((j, w) ∷ m) = if bytes_eq j k then some w else lookup k m

-- Where a new entry goes, by the order of its key and the first key of the map.
abbrev pub place : Ordering → Bytes × Bytes → Bytes × Bytes → Dict → Dict → Dict
place Ordering.lt e d m rest = e ∷ d ∷ m
place Ordering.eq e d m rest = e ∷ m
place Ordering.gt e d m rest = d ∷ rest

-- `map[k] = v`
unfoldable pub insert : Bytes → Bytes → Dict → Dict
unfolding compare_bytes
insert k v [] = (k, v) ∷ []
insert k v ((j, w) ∷ m) = place (compare_bytes k j) (k, v) (j, w) m (insert k v m)

ne_of_gt : (xs ys : Bytes) → compare_bytes xs ys ≡ Ordering.gt → xs ≢ ys
ne_of_gt xs ys h e = cc (compare_bytes_self xs)

lookup-place :
    (o : Ordering) (k j v i w : Bytes) (m rest : Dict)
    → compare_bytes k i ≡ o
    → lookup j rest ≡ (if bytes_eq k j then some v else lookup j m)
    → lookup j (place o (k, v) (i, w) m rest)
      ≡ (if bytes_eq k j then some v else lookup j ((i, w) ∷ m))
unfolding lookup
lookup-place Ordering.lt k j v i w m rest o h = refl
lookup-place Ordering.eq k j v i w m rest o h =
    ground (arith, eq_of_compare k i, bytes_eq_iff i j, bytes_eq_iff k j)
lookup-place Ordering.gt k j v i w m rest o h =
    ground (arith, ne_of_gt k i, bytes_eq_iff i j, bytes_eq_iff k j)

pub lookup-insert :
    (key other value : Bytes) (d : Dict)
    → lookup other (insert key value d)
      ≡ (if bytes_eq key other then some value else lookup other d)
unfolding lookup insert
lookup-insert key other value [] = refl
lookup-insert key other value ((head, w) ∷ rest) =
    lookup-place (compare_bytes key head) key other value head w rest (insert key value rest) refl
      (lookup-insert key other value rest)

-- The keys rise along the map, so no key is there twice.
abbrev pub Above : Bytes → Dict → Type 0
Above k [] = Unit {0}
Above k ((j, w) ∷ m) = (compare_bytes k j ≡ Ordering.lt) × Above j m

abbrev pub IsSorted : Dict → Type 0
IsSorted [] = Unit {0}
IsSorted ((k, w) ∷ m) = Above k m

place-Above :
    (o : Ordering) (i k v j w : Bytes) (m rest : Dict)
    → compare_bytes k j ≡ o
    → compare_bytes i k ≡ Ordering.lt
    → Above i ((j, w) ∷ m)
    → (o ≡ Ordering.gt → Above j rest)
    → Above i (place o (k, v) (j, w) m rest)
place-Above Ordering.lt i k v j w m rest o h a r = (h, (o, a.1))
place-Above Ordering.eq i k v j w m rest o h a r = (h, rw (eq_of_compare k j o) a.1)
place-Above Ordering.gt i k v j w m rest o h a r = (a.0, r refl)

insert-Above :
    (i k v : Bytes) (m : Dict)
    → compare_bytes i k ≡ Ordering.lt
    → Above i m
    → Above i (insert k v m)
unfolding insert
insert-Above i k v [] h a = (h, tt)
insert-Above i k v ((j, w) ∷ m) h a =
    place-Above (compare_bytes k j) i k v j w m (insert k v m) refl h a
      (λ e. insert-Above j k v m (lt_of_gt k j e) a.1)

place-IsSorted :
    (o : Ordering) (k v j w : Bytes) (m rest : Dict)
    → compare_bytes k j ≡ o
    → Above j m
    → (o ≡ Ordering.gt → Above j rest)
    → IsSorted (place o (k, v) (j, w) m rest)
place-IsSorted Ordering.lt k v j w m rest o a r = (o, a)
place-IsSorted Ordering.eq k v j w m rest o a r = rw (eq_of_compare k j o) a
place-IsSorted Ordering.gt k v j w m rest o a r = r refl

pub insert-IsSorted : (k v : Bytes) (m : Dict) → IsSorted m → IsSorted (insert k v m)
unfolding insert
insert-IsSorted k v [] h = tt
insert-IsSorted k v ((j, w) ∷ m) h =
    place-IsSorted (compare_bytes k j) k v j w m (insert k v m) refl h
      (λ e. insert-Above j k v m (lt_of_gt k j e) h)
