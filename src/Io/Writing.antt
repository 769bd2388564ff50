-- ===== src/Io/Writing.antt =====
-- src/robustio.cpp: `Rio::writen` writes everything, whatever the kernel splits or interrupts.
use hydrogen_web.Common.{
  ℕ, zero, suc, ◌+◌, ◌≤◌, ◌<◌, ◌≡◌, refl, sym, ap, ◌∙◌, Bool, true, false, Option, none, some, [],
  ◌∷◌, ◌++◌, arith, take, drop, length, length-drop, append_assoc, append-nil, take-append-drop,
  ◌⊎◌, inl, inr, if◌then◌else◌,
}
use hydrogen_web.Common.Bytes.{Bytes}
use hydrogen_web.Common.Fault.{Result, ok}
use hydrogen_web.Io.{WriteReply, wrote, refused, writen_loop, writen}

-- What `write` documents of a descriptor that has taken the bytes `written`: an answer takes its bytes
-- from the front of those offered, and no more than there are, and an error takes none. Interruptions,
-- and answers of 0 for some bytes, end at some point: `patience` bounds those still to come.
pub record IsSink {ℓ} {World : Type ℓ} (write : Bytes → World → WriteReply × World)
    (written : World → Bytes) (patience : World → ℕ) : Type ℓ where
  pub takes :
      (bs : Bytes) (w w' : World) (k : ℕ)
      → write bs w ≡ (wrote k, w')
      → (written w' ≡ written w ++ take k bs) × (k ≤ length bs) × (patience w' ≤ patience w)
  pub idles :
      (b : ℕ) (bs : Bytes) (w w' : World)
      → write (b ∷ bs) w ≡ (wrote 0, w')
      → patience w' < patience w
  pub keeps :
      (bs : Bytes) (w w' : World) (again : Bool)
      → write bs w ≡ (refused again, w')
      → written w' ≡ written w
  pub tires :
      (bs : Bytes) (w w' : World) → write bs w ≡ (refused true, w') → patience w' < patience w

module _ {ℓ} {World : Type ℓ} (write : Bytes → World → WriteReply × World)
    (written : World → Bytes) where
  -- The last answer of the kernel was an error other than EINTR, or a 0.
  abbrev pub Refused : World → Type ℓ
  Refused w' =
      (bs : Bytes) × (w : World) × ((write bs w ≡ (refused false, w'))
        ⊎ (write bs w ≡ (wrote 0, w')))

  -- What a finished `writen` of `bytes` means, from the state `w`.
  pub data Writes (bytes : Bytes) (w : World) : Result (Option ℕ × World) → Type ℓ where
    all :
        (w' : World)
        → written w' ≡ written w ++ bytes
        → Writes bytes w (ok (some (length bytes), w'))
    gave_up :
        (w' : World) (done left : Bytes)
        → bytes ≡ done ++ left
        → written w' ≡ written w ++ done
        → Refused w'
        → Writes bytes w (ok (none, w'))

  loop_idle :
      (n fuel : ℕ) (i : Bool) (b : ℕ) (bs : Bytes) (w w' : World)
      → write (b ∷ bs) w ≡ (wrote 0, w')
      → writen_loop write n (suc fuel) i (b ∷ bs) w
        ≡ (if i then writen_loop write n fuel true (b ∷ bs) w' else ok (none, w'))
  unfolding writen_loop
  loop_idle n fuel true b bs w w' h =
      rw (h, writen_loop) (ap (λ r. writen_loop write n fuel true (b ∷ bs) r.1) h)
  loop_idle n fuel false b bs w w' h = rw (h, writen_loop) (ap (λ r. ok (none, r.1)) h)

  loop_wrote :
      (n fuel : ℕ) (i : Bool) (b : ℕ) (bs : Bytes) (w w' : World) (j : ℕ)
      → write (b ∷ bs) w ≡ (wrote (suc j), w')
      → writen_loop write n (suc fuel) i (b ∷ bs) w
        ≡ writen_loop write n fuel i (drop (suc j) (b ∷ bs)) w'
  unfolding writen_loop
  loop_wrote n fuel i b bs w w' j h =
      rw (h, writen_loop) (ap (λ r. writen_loop write n fuel i (drop (suc j) (b ∷ bs)) r.1) h)

  loop_again :
      (n fuel : ℕ) (i : Bool) (b : ℕ) (bs : Bytes) (w w' : World)
      → write (b ∷ bs) w ≡ (refused true, w')
      → writen_loop write n (suc fuel) i (b ∷ bs) w ≡ writen_loop write n fuel true (b ∷ bs) w'
  unfolding writen_loop
  loop_again n fuel i b bs w w' h =
      rw (h, writen_loop) (ap (λ r. writen_loop write n fuel true (b ∷ bs) r.1) h)

  loop_refused :
      (n fuel : ℕ) (i : Bool) (b : ℕ) (bs : Bytes) (w w' : World)
      → write (b ∷ bs) w ≡ (refused false, w')
      → writen_loop write n (suc fuel) i (b ∷ bs) w ≡ ok (none, w')
  unfolding writen_loop
  loop_refused n fuel i b bs w w' h = rw (h, writen_loop) (ap (λ r. ok (none, r.1)) h)

  module _ (patience : World → ℕ) (sink : IsSink write written patience) (bytes : Bytes)
      (start : World) where
    -- What the loop does on fuel `fuel`, where `done` has been written and `left` has not.
    abbrev Loops : ℕ → Type ℓ
    Loops fuel =
        (i : Bool) (done left : Bytes) (w : World)
        → length left + patience w ≤ fuel
        → bytes ≡ done ++ left
        → written w ≡ written start ++ done
        → Writes bytes start (writen_loop write (length bytes) fuel i left w)

    after :
        (fuel : ℕ) (i : Bool) (done : Bytes) (b : ℕ) (bs : Bytes) (w : World) (reply : WriteReply)
        (w' : World)
        → Loops fuel
        → write (b ∷ bs) w ≡ (reply, w')
        → suc (length bs) + patience w ≤ suc fuel
        → bytes ≡ done ++ b ∷ bs
        → written w ≡ written start ++ done
        → Writes bytes start (writen_loop write (length bytes) (suc fuel) i (b ∷ bs) w)
    after fuel true done b bs w (wrote zero) w' again h f e s =
        let less = sink.idles b bs w w' h in
        let (t, _, _) = sink.takes (b ∷ bs) w w' 0 h in
        rw (loop_idle (length bytes) fuel true b bs w w' h)
          (again true done (b ∷ bs) w' (omega arith) e (t ∙ append-nil (written w) ∙ s))
    after fuel false done b bs w (wrote zero) w' again h f e s =
        let (t, _, _) = sink.takes (b ∷ bs) w w' 0 h in
        rw (loop_idle (length bytes) fuel false b bs w w' h)
          (gave_up w' done (b ∷ bs) e (t ∙ append-nil (written w) ∙ s) (b ∷ bs, w, inr h))
    after fuel i done b bs w (wrote (suc j)) w' again h f e s =
        let (t, k, p) = sink.takes (b ∷ bs) w w' (suc j) h in
        rw (loop_wrote (length bytes) fuel i b bs w w' j h) (
          again i (done ++ take (suc j) (b ∷ bs)) (drop (suc j) (b ∷ bs)) w'
            (omega (arith, length-drop j bs))
            (e
              ∙ ap (λ l. done ++ l) (sym (take-append-drop (suc j) (b ∷ bs)))
              ∙ sym (append_assoc done (take (suc j) (b ∷ bs)) (drop (suc j) (b ∷ bs))))
            (t
              ∙ ap (λ l. l ++ take (suc j) (b ∷ bs)) s
              ∙ append_assoc (written start) done (take (suc j) (b ∷ bs))))
    after fuel i done b bs w (refused true) w' again h f e s =
        let less = sink.tires (b ∷ bs) w w' h in
        rw (loop_again (length bytes) fuel i b bs w w' h)
          (again true done (b ∷ bs) w' (omega arith) e (sink.keeps (b ∷ bs) w w' true h ∙ s))
    after fuel i done b bs w (refused false) w' again h f e s =
        rw (loop_refused (length bytes) fuel i b bs w w' h)
          (gave_up w' done (b ∷ bs) e (sink.keeps (b ∷ bs) w w' false h ∙ s) (b ∷ bs, w, inl h))

    loop_lem : (fuel : ℕ) → Loops fuel
    unfolding writen_loop
    loop_lem fuel i done [] w f e s =
        all w (s ∙ ap (λ l. written start ++ l) (sym (e ∙ append-nil done)))
    loop_lem zero i done (b ∷ bs) w f e s = absurd (omega arith)
    loop_lem (suc fuel) i done (b ∷ bs) w f e s =
        after fuel i done b bs w (write (b ∷ bs) w).0 (write (b ∷ bs) w).1 (loop_lem fuel) refl f e
          s

    -- `writen` ends, however the kernel splits and interrupts the writes: with all of the bytes written,
    -- once and in order, and their number, or, only where the kernel answers 0 or an error other than
    -- EINTR, with -1 behind some first part of them.
    pub writen-Writes :
        (fuel : ℕ) (interrupted : Bool)
        → length bytes + patience start ≤ fuel
        → Writes bytes start (writen write fuel interrupted bytes start)
    writen-Writes fuel interrupted f =
        loop_lem fuel interrupted [] bytes start f refl (sym (append-nil (written start)))
