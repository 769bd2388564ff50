-- ===== src/Sync/Threads.antt =====
-- SharedBuf: the threads inside its operations, and the invariant of their runs.
use hydrogen_web.Common.{ℕ, suc, ◌+◌, ◌<◌, ◌≡◌, Bool, if◌then◌else◌, List, [], ◌∷◌, ◌++◌, length}
use hydrogen_web.Common.Fault.{ok}
use hydrogen_web.Sync.{
  Sem, try_wait, wait_again, notify_one, post, SharedBuf, new_buf, push_back, pop_front,
}
use hydrogen_web.Sync.Waking.{IsServed}

-- A buffer with the threads inside its operations: `pushing` have a slot and have not pushed, `posting`
-- have pushed and not posted to `items`; `taking` have an item's count and have not popped, `freeing` have
-- popped and not posted to `slots`. `inserted` and `removed` are the items pushed and popped, in order.
pub record Room {ℓ} (A : Type ℓ) : Type ℓ where
  pub shared : SharedBuf A
  pub pushing : ℕ
  pub posting : ℕ
  pub taking : ℕ
  pub freeing : ℕ
  pub inserted : List A
  pub removed : List A

abbrev pub counted : Bool → ℕ → ℕ
counted b n = if b then n + 1 else n

module _ {ℓ} {A : Type ℓ} where
  abbrev pub new_room : ℕ → Room A
  new_room n = record {
    shared = new_buf n;
    pushing = 0;
    posting = 0;
    taking = 0;
    freeing = 0;
    inserted = [];
    removed = [];
  }

  -- What a pass through `slots.wait()` with the given outcome leaves, and through `items.wait()`.
  abbrev pub waited_slots : Room A → Bool × Sem → Room A
  waited_slots w r = record w {
    shared = record w.shared { slots = r.1 };
    pushing = counted r.0 w.pushing;
  }

  abbrev pub waited_items : Room A → Bool × Sem → Room A
  waited_items w r = record w {
    shared = record w.shared { items = r.1 };
    taking = counted r.0 w.taking;
  }

  -- A thread's way from one lock to the next.
  pub data Step : Room A → Room A → Type ℓ where
    insert_waits : (w : Room A) → Step w (waited_slots w (try_wait w.shared.slots))
    insert_resumes :
        (w : Room A)
        → 0 < w.shared.slots.woken
        → Step w (waited_slots w (wait_again w.shared.slots))
    insert_pushes :
        (w : Room A) (n : ℕ) (item : A)
        → w.pushing ≡ suc n
        → Step w (record w {
          shared = push_back item w.shared;
          pushing = n;
          posting = w.posting + 1;
          inserted = w.inserted ++ item ∷ [];
        })
    insert_posts :
        (w : Room A) (n : ℕ)
        → w.posting ≡ suc n
        → Step w
            (record w { shared = record w.shared { items = post w.shared.items }; posting = n })
    remove_waits : (w : Room A) → Step w (waited_items w (try_wait w.shared.items))
    remove_resumes :
        (w : Room A)
        → 0 < w.shared.items.woken
        → Step w (waited_items w (wait_again w.shared.items))
    remove_pops :
        (w : Room A) (n : ℕ) (item : A) (b : SharedBuf A)
        → w.taking ≡ suc n
        → pop_front w.shared ≡ ok (item, b)
        → Step w (record w {
          shared = b;
          taking = n;
          freeing = w.freeing + 1;
          removed = w.removed ++ item ∷ [];
        })
    remove_posts :
        (w : Room A) (n : ℕ)
        → w.freeing ≡ suc n
        → Step w
            (record w { shared = record w.shared { slots = post w.shared.slots }; freeing = n })
    slots_stirs :
        (w : Room A)
        → Step w (record w { shared = record w.shared { slots = notify_one w.shared.slots } })
    items_stirs :
        (w : Room A)
        → Step w (record w { shared = record w.shared { items = notify_one w.shared.items } })

  pub data Reach (v : Room A) : Room A → Type ℓ where
    here : Reach v v
    next : {w x : Room A} → Reach v w → Step w x → Reach v x

  -- The counts of both semaphores, with the threads between them, account for the capacity and for the
  -- items in the buffer.
  pub record IsBalanced (n : ℕ) (w : Room A) : Type ℓ where
    pub same : w.shared.capacity ≡ n
    pub places :
        w.shared.slots.count + w.pushing + w.posting + w.shared.items.count + w.taking + w.freeing
        ≡ n
    pub filled : length w.shared.buf ≡ w.posting + w.shared.items.count + w.taking
    pub order : w.inserted ≡ w.removed ++ w.shared.buf
    pub slots_served : IsServed w.shared.slots
    pub items_served : IsServed w.shared.items
