-- ===== src/Io/Reading.antt =====
-- src/robustio.cpp: `readn` and `writen` transfer everything, whatever the kernel splits or interrupts.
use hydrogen_web.Common.{
  ℕ, zero, suc, ◌+◌, ◌-◌, ◌≤◌, ◌<◌, ◌≡◌, refl, sym, ap, ◌∙◌, Bool, true, false, none, some, [], ◌∷◌,
  ◌++◌, arith, ◌⊎◌, inl, inr, length, length-append, append_assoc,
}
use hydrogen_web.Common.Bytes.{Bytes}
use hydrogen_web.Common.Fault.{Result, ok}
use hydrogen_web.Io.{Reply, arrived, failed, Done, readn_loop, readn}

-- What `read` documents of a descriptor whose bytes still to come are `stream`: an answer takes its
-- bytes from the front and no more than were asked for, an answer without bytes means that none are
-- left, and interruptions end at some point.
pub record IsFile {ℓ} {World : Type ℓ} (read : ℕ → World → Reply × World) (stream : World → Bytes)
    (patience : World → ℕ) : Type ℓ where
  pub takes :
      (n : ℕ) (w w' : World) (bs : Bytes) → read n w ≡ (arrived bs, w') → stream w ≡ bs ++ stream w'
  pub bounded : (n : ℕ) (w w' : World) (bs : Bytes) → read n w ≡ (arrived bs, w') → length bs ≤ n
  pub calm :
      (n : ℕ) (w w' : World) (bs : Bytes) → read n w ≡ (arrived bs, w') → patience w' ≤ patience w
  pub ends : (n : ℕ) (w w' : World) → read (suc n) w ≡ (arrived [], w') → stream w' ≡ []
  pub keeps :
      (n : ℕ) (w w' : World) (again : Bool) → read n w ≡ (failed again, w') → stream w ≡ stream w'
  pub tires : (n : ℕ) (w w' : World) → read n w ≡ (failed true, w') → patience w' < patience w

module _ {ℓ} {World : Type ℓ} (read : ℕ → World → Reply × World) (stream : World → Bytes) where
  -- The last answer of the kernel was an error other than EINTR.
  abbrev pub Refused : World → Type ℓ
  Refused w' = (n : ℕ) × (w : World) × (read n w ≡ (failed false, w'))

  -- What a finished `readn` of `n` bytes means, from the file `w`: the bytes stored are the next ones
  -- of the file, and fewer than `n` only at its end. An interruption is no reason for -1: it comes from
  -- another error of the kernel alone, and nothing is lost then either.
  pub data Reads : ℕ → World → Result (Done World) → Type ℓ where
    whole :
        {n : ℕ} {w : World} (d : Done World)
        → d.value ≡ some (length d.stored)
        → stream w ≡ d.stored ++ stream d.rest
        → length d.stored ≤ n
        → (length d.stored ≡ n) ⊎ (stream d.rest ≡ [])
        → Reads n w (ok d)
    gave_up :
        {n : ℕ} {w : World} (d : Done World)
        → d.value ≡ none
        → stream w ≡ d.stored ++ stream d.rest
        → Refused d.rest
        → Reads n w (ok d)

  loop_data :
      (n fuel l : ℕ) (st : Bytes) (w w' : World) (b : ℕ) (bs : Bytes)
      → read (suc l) w ≡ (arrived (b ∷ bs), w')
      → readn_loop read n (suc fuel) (suc l) st w
        ≡ readn_loop read n fuel (suc l - suc (length bs)) (st ++ b ∷ bs) w'
  unfolding readn_loop
  loop_data n fuel l st w w' b bs h =
      rw (h, readn_loop)
        (ap (λ r. readn_loop read n fuel (suc l - suc (length bs)) (st ++ b ∷ bs) r.1) h)

  loop_end :
      (n fuel l : ℕ) (st : Bytes) (w w' : World)
      → read (suc l) w ≡ (arrived [], w')
      → readn_loop read n (suc fuel) (suc l) st w
        ≡ ok (record { value = some (n - suc l); stored = st; rest = w' })
  unfolding readn_loop
  loop_end n fuel l st w w' h =
      rw (h, readn_loop)
        (ap (λ r. ok (record { value = some (n - suc l); stored = st; rest = r.1 })) h)

  loop_again :
      (n fuel l : ℕ) (st : Bytes) (w w' : World)
      → read (suc l) w ≡ (failed true, w')
      → readn_loop read n (suc fuel) (suc l) st w ≡ readn_loop read n fuel (suc l) st w'
  unfolding readn_loop
  loop_again n fuel l st w w' h =
      rw (h, readn_loop) (ap (λ r. readn_loop read n fuel (suc l) st r.1) h)

  loop_failed :
      (n fuel l : ℕ) (st : Bytes) (w w' : World)
      → read (suc l) w ≡ (failed false, w')
      → readn_loop read n (suc fuel) (suc l) st w
        ≡ ok (record { value = none; stored = st; rest = w' })
  unfolding readn_loop
  loop_failed n fuel l st w w' h =
      rw (h, readn_loop) (ap (λ r. ok (record { value = none; stored = st; rest = r.1 })) h)

  module _ (patience : World → ℕ) (file : IsFile read stream patience) where
    -- What the loop does on fuel `fuel`.
    abbrev Loops : ℕ → ℕ → World → Type ℓ
    Loops n fuel start =
        (nleft : ℕ) (st : Bytes) (w : World)
        → nleft + patience w ≤ fuel
        → length st + nleft ≡ n
        → stream start ≡ st ++ stream w
        → Reads n start (readn_loop read n fuel nleft st w)

    after :
        (n fuel l : ℕ) (st : Bytes) (start w : World) (reply : Reply) (w' : World)
        → Loops n fuel start
        → read (suc l) w ≡ (reply, w')
        → suc l + patience w ≤ suc fuel
        → length st + suc l ≡ n
        → stream start ≡ st ++ stream w
        → Reads n start (readn_loop read n (suc fuel) (suc l) st w)
    after n fuel l st start w (arrived []) w' again h f len s = rw (loop_end n fuel l st w w' h) (
        whole _ (ap some (omega arith)) (s ∙ ap (λ t. st ++ t) (file.takes (suc l) w w' [] h))
          (omega arith) (inr (file.ends l w w' h)))
    after n fuel l st start w (arrived (b ∷ bs)) w' again h f len s =
        let room : suc (length bs) ≤ suc l = file.bounded (suc l) w w' (b ∷ bs) h in
        let calm : patience w' ≤ patience w = file.calm (suc l) w w' (b ∷ bs) h in
        let long : length (st ++ b ∷ bs) ≡ length st + suc (length bs) =
          length-append st (b ∷ bs) in
        rw (loop_data n fuel l st w w' b bs h) (
          again (suc l - suc (length bs)) (st ++ b ∷ bs) w' (omega arith) (omega arith) (
            s
            ∙ ap (λ t. st ++ t) (file.takes (suc l) w w' (b ∷ bs) h)
            ∙ sym (append_assoc st (b ∷ bs) (stream w'))))
    after n fuel l st start w (failed true) w' again h f len s =
        let less : patience w' < patience w = file.tires (suc l) w w' h in
        rw (loop_again n fuel l st w w' h) (
          again (suc l) st w' (omega arith) len
            (s ∙ ap (λ t. st ++ t) (file.keeps (suc l) w w' true h)))
    after n fuel l st start w (failed false) w' again h f len s =
        rw (loop_failed n fuel l st w w' h)
          (gave_up _ refl (s ∙ ap (λ t. st ++ t) (file.keeps (suc l) w w' false h)) (suc l, w, h))

    loop_lem : (n fuel : ℕ) (start : World) → Loops n fuel start
    unfolding readn_loop
    loop_lem n fuel start zero st w f len s =
        whole _ (ap some (omega arith)) s (omega arith) (inl (omega arith))
    loop_lem n zero start (suc l) st w f len s = absurd (omega arith)
    loop_lem n (suc fuel) start (suc l) st w f len s =
        after n fuel l st start w (read (suc l) w).0 (read (suc l) w).1 (loop_lem n fuel start) refl
          f len s

    -- `readn` of `n` bytes ends, however the kernel splits and interrupts the reads, with the next `n`
    -- bytes of the file, or with all that were left, or, only where the kernel answers an error other than
    -- EINTR, with -1 and what it read behind `usrbuf`.
    pub readn-Reads :
        (n fuel : ℕ) (w : World) → n + patience w ≤ fuel → Reads n w (readn read fuel n w)
    readn-Reads n fuel w f = loop_lem n fuel w n [] w f (omega arith) refl
