-- ===== src/Timing/Order.antt =====
-- TimerQueue: the set of timers stays in order, and `getExpiration` takes out the expired ones.
use hydrogen_web.Common.{
  ℕ, ◌≤◌, ◌<◌, ◌≡◌, refl, ap, true, false, List, [], ◌∷◌, ◌++◌, arith, leb, leb→le, Bool-cases, inl,
  inr,
}
use hydrogen_web.Timing.{Timer, before, same, place, get_expiration}

-- Every timer of the list comes behind `s`.
abbrev pub Behind : Timer → List Timer → Type 0
Behind s [] = Unit {0}
Behind s (t ∷ ts) = (before s t ≡ true) × Behind t ts

abbrev pub IsOrdered : List Timer → Type 0
IsOrdered [] = Unit {0}
IsOrdered (t ∷ ts) = Behind t ts

before_total : (t u : Timer) → before t u ≡ false → same t u ≡ false → before u t ≡ true
before_total t u h k = ground arith

place-Behind :
    (s t : Timer) (ts : List Timer) → before s t ≡ true → Behind s ts → Behind s (place t ts).0
unfolding place
place-Behind s t [] h b = (h, tt)
place-Behind s t (u ∷ ts) h b = elim (Bool-cases (before t u)) [
  | inl e ↦ rw (e) (h, (e, b.1))
  | inr e ↦ elim (Bool-cases (same t u)) [
    | inl e' ↦ rw (e, e') b
    | inr e' ↦ rw (e, e') (b.0, place-Behind u t ts (before_total t u e e') b.1)
  ]
]

-- A timer goes into the set at its place: the set stays in the order of times and addresses, which
-- allows no entry twice.
pub place-IsOrdered : (t : Timer) (ts : List Timer) → IsOrdered ts → IsOrdered (place t ts).0
unfolding place
place-IsOrdered t [] h = tt
place-IsOrdered t (u ∷ ts) h = elim (Bool-cases (before t u)) [
  | inl e ↦ rw (e) (e, h)
  | inr e ↦ elim (Bool-cases (same t u)) [
    | inl e' ↦ rw (e, e') h
    | inr e' ↦ rw (e, e') (place-Behind u t ts (before_total t u e e') h)
  ]
]

-- Every timer of the list is due at `now`, and none is.
abbrev pub AllDue : ℕ → List Timer → Type 0
AllDue now [] = Unit {0}
AllDue now (t ∷ ts) = (t.end_time ≤ now) × AllDue now ts

abbrev pub NoneDue : ℕ → List Timer → Type 0
NoneDue now [] = Unit {0}
NoneDue now (t ∷ ts) = (now < t.end_time) × NoneDue now ts

before→le : (s t : Timer) → before s t ≡ true → s.end_time ≤ t.end_time
before→le s t h = ground arith

none-Behind :
    (now : ℕ) (s : Timer) (ts : List Timer) → now < s.end_time → Behind s ts → NoneDue now ts
none-Behind now s [] h b = tt
none-Behind now s (t ∷ ts) h b =
    let le : s.end_time ≤ t.end_time = before→le s t b.0 in
    let later : now < t.end_time = omega arith in (later, none-Behind now t ts later b.1)

Behind-IsOrdered : (s : Timer) (ts : List Timer) → Behind s ts → IsOrdered ts
Behind-IsOrdered s [] b = tt
Behind-IsOrdered s (t ∷ ts) b = b.1

-- From a set in order, `getExpiration` takes out exactly the timers that are due, in their order: what
-- it takes and what it leaves are the set, all of the first are due and none of the others.
pub get_expiration_lem :
    (now : ℕ) (ts : List Timer)
    → IsOrdered ts
    → ((get_expiration now ts).0 ++ (get_expiration now ts).1 ≡ ts)
      × AllDue now (get_expiration now ts).0
      × NoneDue now (get_expiration now ts).1
unfolding get_expiration
get_expiration_lem now [] h = (refl, tt, tt)
get_expiration_lem now (t ∷ ts) h = elim (Bool-cases (leb t.end_time now)) [
  | inl e ↦
      let (eq, due, none) = get_expiration_lem now ts (Behind-IsOrdered t ts h) in
      rw (e) (ap (λ r. t ∷ r) eq, (leb→le t.end_time now e, due), none)
  | inr e ↦
      let later : now < t.end_time = ground arith in
      rw (e) (refl, tt, (later, none-Behind now t ts later h))
]
