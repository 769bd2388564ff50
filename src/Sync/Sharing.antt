-- ===== src/Sync/Sharing.antt =====
-- SharedBuf: any number of threads that insert and remove, in any order. The buffer is a bounded queue.
use hydrogen_web.Common.{
  ℕ, ◌≤◌, ◌<◌, ◌≡◌, refl, ap, ◌⊎◌, arith, List, [], ◌∷◌, ◌++◌, length, inl, inr,
}
use hydrogen_web.Common.Fault.{ok}
use hydrogen_web.Sync.{pop_from, pop_front}
use hydrogen_web.Sync.Threads.{Room, new_room, Reach}
use hydrogen_web.Sync.Balance.{Reach-IsBalanced}

nil_or_cons {ℓ} :
    {A : Type ℓ} (xs : List A) → (xs ≡ []) ⊎ ((x : A) × (rest : List A) × (xs ≡ x ∷ rest))
nil_or_cons [] = inl refl
nil_or_cons (x ∷ xs) = inr (x, xs, refl)

module _ {ℓ} {A : Type ℓ} where
  -- In every run of threads that insert and remove, items leave the buffer in the order in which they
  -- came, none is lost or doubled, and there are never more than `n` of them.
  pub Reach-queue :
      {n : ℕ} {w : Room A}
      → Reach (new_room n) w
      → (w.inserted ≡ w.removed ++ w.shared.buf) × (length w.shared.buf ≤ n)
  Reach-queue r = let i = Reach-IsBalanced r in (i.order, omega (arith, i.places, i.filled))

  -- In every run, a thread that has come through `items.wait()` finds an item: `front` is never called on
  -- an empty buffer.
  pub Reach-pop_front :
      {n : ℕ} {w : Room A}
      → Reach (new_room n) w
      → 0 < w.taking
      → (item : A) × (rest : List A) × (pop_front w.shared
          ≡ ok (item, record w.shared { buf = rest }))
  unfolding pop_front
  Reach-pop_front {w = w} r h =
      let i = Reach-IsBalanced r in
      elim (nil_or_cons w.shared.buf) [
        | inl e ↦ absurd (omega (arith, i.filled, ap length e))
        | inr (item, rest, e) ↦ (item, rest, ap (pop_from w.shared) e)
      ]

  -- In every run, when no thread is on its way between the locks, a thread sleeps in `remove` only if the
  -- buffer is empty.
  pub Reach-items :
      {n : ℕ} {w : Room A}
      → Reach (new_room n) w
      → w.posting ≡ 0
      → w.taking ≡ 0
      → w.shared.items.woken ≡ 0
      → 0 < w.shared.items.asleep
      → length w.shared.buf ≡ 0
  Reach-items r p t k h =
      let i = Reach-IsBalanced r in let c = i.items_served h in omega (arith, i.filled)

  -- In every run, when no thread is on its way between the locks, a thread sleeps in `insert` only if the
  -- buffer is full.
  pub Reach-slots :
      {n : ℕ} {w : Room A}
      → Reach (new_room n) w
      → w.pushing ≡ 0
      → w.freeing ≡ 0
      → w.shared.slots.woken ≡ 0
      → 0 < w.shared.slots.asleep
      → length w.shared.buf ≡ n
  Reach-slots r p f k h =
      let i = Reach-IsBalanced r in let c = i.slots_served h in omega (arith, i.filled, i.places)
