-- ===== src/Tests/Sharing.antt =====
-- Tests of src/sem.cpp, src/sharedBuf.cpp and src/sio.cpp.
use hydrogen_web.Common.{
  ℕ, ◌≤◌, ◌≡◌, refl, arith, Option, some, List, [], ◌∷◌, ◌++◌, length, replicate,
}
use hydrogen_web.Common.Bytes.{Bytes, codes}
use hydrogen_web.Common.Decimal.{decimal, digits_onto}
use hydrogen_web.Common.Int.{negsuc}
use hydrogen_web.Common.Fault.{ok}
use hydrogen_web.Sync.{Sem, new_sem, try_wait, post, pop_front}
use hydrogen_web.Sync.Waking
use hydrogen_web.Sync.Waking.{Reach-woken}
use hydrogen_web.Sync.Threads.{
  Room, new_room, Reach, here, next, insert_waits, insert_pushes, insert_posts, remove_waits,
}
use hydrogen_web.Sync.Sharing.{Reach-queue, Reach-pop_front, Reach-items}
use hydrogen_web.Sio.{printl}
use hydrogen_web.Sio.Printing.{printl-text_of}

-- Two threads wait, and one posts.
abbrev one_posted : Sem
one_posted = record { count = 1; asleep = 1; woken = 1 }

run_to_post : Waking.Reach (new_sem 0) one_posted
unfolding try_wait post
run_to_post =
    Waking.next
      (Waking.next (Waking.next Waking.here (Waking.waits (new_sem 0)))
        (Waking.waits (record { count = 0; asleep = 1; woken = 0 })))
      (Waking.posts (record { count = 0; asleep = 2; woken = 0 }))

Reach-woken_example : 1 ≤ 1
Reach-woken_example = Reach-woken run_to_post (omega arith)

abbrev sem : ℕ → ℕ → Sem
sem count asleep = record { count = count; asleep = asleep; woken = 0 }

-- A room for two items, with one item in it and a thread about to take it.
abbrev room : ℕ → ℕ → ℕ → ℕ → ℕ → Room ℕ
room items pushing posting taking slots = record {
  shared = record { buf = 7 ∷ []; capacity = 2; slots = sem slots 0; items = sem items 0 };
  pushing = pushing;
  posting = posting;
  taking = taking;
  freeing = 0;
  inserted = 7 ∷ [];
  removed = [];
}

run_to_item : Reach (new_room 2) (room 0 0 0 1 1)
unfolding try_wait post
run_to_item =
    next
      (next
        (next (next here (insert_waits (new_room 2))) (
          insert_pushes
            (record (new_room 2) {
              shared = record (new_room {A = ℕ} 2).shared { slots = sem 1 0 };
              pushing = 1;
            })
            0 7 refl))
        (insert_posts (room 0 0 1 0 1) 0 refl))
      (remove_waits (room 1 0 0 0 1))

abbrev one_item : List ℕ
one_item = 7 ∷ []

Reach-queue_example : (one_item ≡ [] ++ one_item) × (length one_item ≤ 2)
Reach-queue_example = Reach-queue run_to_item

Reach-pop_front_example :
    (item : ℕ) × (rest : List ℕ) × (pop_front (room 0 0 0 1 1).shared
      ≡ ok (item, record (room 0 0 0 1 1).shared { buf = rest }))
Reach-pop_front_example = Reach-pop_front run_to_item (omega arith)

-- A thread that finds no item sleeps.
run_to_sleep :
    Reach
      (new_room {A = ℕ} 2)
      (record (new_room 2) { shared = record (new_room {A = ℕ} 2).shared { items = sem 0 1 } })
unfolding try_wait
run_to_sleep = next here (remove_waits (new_room 2))

Reach-items_example : length {A = ℕ} [] ≡ 0
Reach-items_example = Reach-items run_to_sleep refl refl refl (omega arith)

-- A file that takes each text.
abbrev write_all : Bytes → Bytes → Option ℕ × Bytes
write_all text written = (some (length text), written ++ text)

printl-text_of_example :
    printl write_all (negsuc 41) (replicate 128 0) (codes "x=") ≡ ok (some 3, codes "x=-42")
unfolding decimal digits_onto
printl-text_of_example =
    printl-text_of write_all (negsuc 41) (replicate 128 0) (codes "x=") (omega arith) refl
