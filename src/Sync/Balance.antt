-- ===== src/Sync/Balance.antt =====
-- SharedBuf: each step of its threads keeps the invariant.
use hydrogen_web.Common.{
  ℕ, suc, ◌+◌, ◌<◌, ◌≡◌, refl, sym, ap, ◌∙◌, subst, Bool, if◌then◌else◌, arith, List, [], ◌∷◌, ◌++◌,
  length, length-append, append_assoc,
}
use hydrogen_web.Common.Fault.{ok, ok-injective}
use hydrogen_web.Sync.{Sem, try_wait, wait_again, notify_one, post, SharedBuf, pop_from, pop_front}
use hydrogen_web.Sync.Waking.{IsServed}
use hydrogen_web.Sync.Threads.{
  Room, new_room, waited_slots, waited_items, Step, insert_waits, insert_resumes, insert_pushes,
  insert_posts, remove_waits, remove_resumes, remove_pops, remove_posts, slots_stirs, items_stirs,
  Reach, here, next, IsBalanced,
}

-- What a pass through the lock does to the count.
try_wait-counts :
    (s : Sem)
    → ((try_wait s).1.count + (if (try_wait s).0 then 1 else 0) ≡ s.count)
      × (IsServed s → IsServed (try_wait s).1)
unfolding try_wait
try_wait-counts s = ground arith

wait_again-counts :
    (s : Sem)
    → 0 < s.woken
    → ((wait_again s).1.count + (if (wait_again s).0 then 1 else 0) ≡ s.count)
      × (IsServed s → IsServed (wait_again s).1)
unfolding try_wait
wait_again-counts s h = ground arith

post-counts : (s : Sem) → ((post s).count ≡ s.count + 1) × (IsServed s → IsServed (post s))
unfolding post
post-counts s = ground arith

notify_one-counts :
    (s : Sem) → ((notify_one s).count ≡ s.count) × (IsServed s → IsServed (notify_one s))
notify_one-counts s = ground arith

module _ {ℓ} {A : Type ℓ} where
  waited_slots-IsBalanced :
      {n : ℕ} (w : Room A) (r : Bool × Sem)
      → (r.1.count + (if r.0 then 1 else 0) ≡ w.shared.slots.count)
        × (IsServed w.shared.slots → IsServed r.1)
      → IsBalanced n w
      → IsBalanced n (waited_slots w r)
  waited_slots-IsBalanced w r c i = record {
    same = i.same;
    places = ground (arith, c.0, i.places);
    filled = i.filled;
    order = i.order;
    slots_served = c.1 i.slots_served;
    items_served = i.items_served;
  }

  waited_items-IsBalanced :
      {n : ℕ} (w : Room A) (r : Bool × Sem)
      → (r.1.count + (if r.0 then 1 else 0) ≡ w.shared.items.count)
        × (IsServed w.shared.items → IsServed r.1)
      → IsBalanced n w
      → IsBalanced n (waited_items w r)
  waited_items-IsBalanced w r c i = record {
    same = i.same;
    places = ground (arith, c.0, i.places);
    filled = ground (arith, c.0, i.filled);
    order = i.order;
    slots_served = i.slots_served;
    items_served = c.1 i.items_served;
  }

  -- What `remove` pops is the oldest item.
  pop_from-eq-ok :
      (b b' : SharedBuf A) (xs : List A) (item : A)
      → pop_from b xs ≡ ok (item, b')
      → (xs ≡ item ∷ b'.buf) × (record b { buf = b'.buf } ≡ b')
  pop_from-eq-ok b b' [] item h = cc
  pop_from-eq-ok b b' (x ∷ xs) item h =
      let e = ok-injective h in
      (ap (λ r. r.0 ∷ r.1.buf) e, ap (λ r. record b { buf = r.1.buf }) (sym e) ∙ ap (λ r. r.1) e)

  pops-IsBalanced :
      {n : ℕ} (w : Room A) (m : ℕ) (item : A) (rest : List A)
      → w.taking ≡ suc m
      → w.shared.buf ≡ item ∷ rest
      → IsBalanced n w
      → IsBalanced n (record w {
        shared = record w.shared { buf = rest };
        taking = m;
        freeing = w.freeing + 1;
        removed = w.removed ++ item ∷ [];
      })
  pops-IsBalanced w m item rest h e i = record {
    same = i.same;
    places = omega (arith, i.places);
    filled = omega (arith, i.filled, ap length e);
    order = i.order ∙ ap (λ l. w.removed ++ l) e ∙ sym (append_assoc w.removed (item ∷ []) rest);
    slots_served = i.slots_served;
    items_served = i.items_served;
  }

  Step-IsBalanced : {n : ℕ} {w x : Room A} → Step w x → IsBalanced n w → IsBalanced n x
  unfolding pop_front
  Step-IsBalanced (insert_waits w) i =
      waited_slots-IsBalanced w (try_wait w.shared.slots) (try_wait-counts w.shared.slots) i
  Step-IsBalanced (insert_resumes w h) i =
      waited_slots-IsBalanced w (wait_again w.shared.slots) (wait_again-counts w.shared.slots h) i
  Step-IsBalanced (insert_pushes w m item h) i = record {
    same = i.same;
    places = omega (arith, i.places);
    filled = omega (arith, i.filled, length-append w.shared.buf (item ∷ []));
    order = ap (λ l. l ++ item ∷ []) i.order ∙ append_assoc w.removed w.shared.buf (item ∷ []);
    slots_served = i.slots_served;
    items_served = i.items_served;
  }
  Step-IsBalanced (insert_posts w m h) i =
      let (c, k) = post-counts w.shared.items in
      record {
        same = i.same;
        places = omega (arith, i.places);
        filled = omega (arith, i.filled);
        order = i.order;
        slots_served = i.slots_served;
        items_served = k i.items_served;
      }
  Step-IsBalanced (remove_waits w) i =
      waited_items-IsBalanced w (try_wait w.shared.items) (try_wait-counts w.shared.items) i
  Step-IsBalanced (remove_resumes w h) i =
      waited_items-IsBalanced w (wait_again w.shared.items) (wait_again-counts w.shared.items h) i
  Step-IsBalanced {n} (remove_pops w m item b h p) i =
      let (e, f) = pop_from-eq-ok w.shared b w.shared.buf item p in
      subst
        (λ c. IsBalanced n (record w {
          shared = c;
          taking = m;
          freeing = w.freeing + 1;
          removed = w.removed ++ item ∷ [];
        }))
        f (pops-IsBalanced w m item b.buf h e i)
  Step-IsBalanced (remove_posts w m h) i =
      let (c, k) = post-counts w.shared.slots in
      record {
        same = i.same;
        places = omega (arith, i.places);
        filled = i.filled;
        order = i.order;
        slots_served = k i.slots_served;
        items_served = i.items_served;
      }
  Step-IsBalanced (slots_stirs w) i =
      let (c, k) = notify_one-counts w.shared.slots in
      record {
        same = i.same;
        places = omega (arith, c, i.places);
        filled = i.filled;
        order = i.order;
        slots_served = k i.slots_served;
        items_served = i.items_served;
      }
  Step-IsBalanced (items_stirs w) i =
      let (c, k) = notify_one-counts w.shared.items in
      record {
        same = i.same;
        places = omega (arith, c, i.places);
        filled = omega (arith, c, i.filled);
        order = i.order;
        slots_served = i.slots_served;
        items_served = k i.items_served;
      }

  pub Reach-IsBalanced : {n : ℕ} {w : Room A} → Reach (new_room n) w → IsBalanced n w
  Reach-IsBalanced {n} here = record {
    same = refl;
    places = omega arith;
    filled = refl;
    order = refl;
    slots_served = λ h. absurd (omega arith);
    items_served = λ h. absurd (omega arith);
  }
  Reach-IsBalanced (next r t) = Step-IsBalanced t (Reach-IsBalanced r)
