-- ===== src/Net/Poller/Consistent.antt =====
-- Poller: the map of channels, their indices and the array of descriptors agree, whatever is removed.
use hydrogen_web.Common.{
  ℕ, zero, suc, ◌-◌, ◌<◌, ◌≡◌, ◌≢◌, refl, sym, ap, ◌∙◌, Option, none, some, List, [], ◌∷◌, ◌==◌,
  ==_iff, length, get_elem?, set, take, arith, Bool-cases, inl, inr, ◌⊎◌, get_elem?-set_self,
  get_elem?-set_ne,
}
use hydrogen_web.Net.Poller.{slot_fd, PollFd, Channel, Poller, update}
use hydrogen_web.Net.Poller.Update.{update_self, update_ne, get_elem?-lt}

-- Each entry is that of a channel that the map leads to and that knows its place, and each channel of the
-- map has an entry.
pub record IsConsistent (p : Poller) : Type 0 where
  pub entries :
      (i : ℕ) (e : PollFd)
      → get_elem? p.fds i ≡ some e
      → (id : ℕ) × (p.channels (slot_fd e.slot) ≡ some id)
        × ((p.store id).index ≡ some i)
        × ((p.store id).fd ≡ slot_fd e.slot)
  pub mapped :
      (fd id : ℕ)
      → p.channels fd ≡ some id
      → ((p.store id).fd ≡ fd)
        × (i : ℕ) × (e : PollFd) × ((p.store id).index ≡ some i)
        × (get_elem? p.fds i ≡ some e)
        × (slot_fd e.slot ≡ fd)

get_elem?-take :
    {A : Type 0} (n : ℕ) (xs : List A) (i : ℕ) → i < n → get_elem? (take n xs) i ≡ get_elem? xs i
get_elem?-take zero xs i h = absurd (omega arith)
get_elem?-take (suc n) [] i h = refl
get_elem?-take (suc n) (x ∷ xs) zero h = refl
get_elem?-take (suc n) (x ∷ xs) (suc i) h = get_elem?-take n xs i (omega arith)

get_elem?-take_lt :
    {A : Type 0} (n : ℕ) (xs : List A) (i : ℕ) {a : A}
    → get_elem? (take n xs) i ≡ some a
    → (i < n) × (get_elem? xs i ≡ some a)
get_elem?-take_lt zero xs i h = cc
get_elem?-take_lt (suc n) [] i h = cc
get_elem?-take_lt (suc n) (x ∷ xs) zero h = (omega arith, h)
get_elem?-take_lt (suc n) (x ∷ xs) (suc i) h =
    let (l, e) = get_elem?-take_lt n xs i h in (omega arith, e)

-- A channel that is in the map, with its entry.
module _ (p : Poller) (c : IsConsistent p) (id i : ℕ) (pfd : PollFd)
    (m : p.channels (p.store id).fd ≡ some id) (k : (p.store id).index ≡ some i)
    (at : get_elem? p.fds i ≡ some pfd) (f : slot_fd pfd.slot ≡ (p.store id).fd) where
  abbrev gone : ℕ → Option ℕ
  gone = update p.channels (p.store id).fd none

  -- Another entry is that of another channel.
  other_entry :
      (j : ℕ) (e : PollFd) → j ≢ i → get_elem? p.fds j ≡ some e → (slot_fd e.slot ≢ (p.store id).fd)
  other_entry j e ne h same =
      let (id', m', k', _) = c.entries j e h in
      let q : id' ≡ id = (let u : some id' ≡ some id = sym m' ∙ ap p.channels same ∙ m in cc) in
      ne (let u : some j ≡ some i = sym k' ∙ ap (λ x. (p.store x).index) q ∙ k in cc)

  -- Another channel of the map has another entry.
  other_mapped :
      (fd id' : ℕ) → gone fd ≡ some id' → (fd ≢ (p.store id).fd) × (p.channels fd ≡ some id')
  other_mapped fd id' h = elim (Bool-cases (fd == (p.store id).fd)) [
    | inl e ↦ (let u : gone fd ≡ none = rw (e) refl in cc)
    | inr e ↦ (
      (λ q. ground arith),
      sym (update_ne p.channels (p.store id).fd fd none (λ q. ground arith)) ∙ h,
    )
  ]

  away_from :
      (j : ℕ) (e : PollFd) (fd : ℕ)
      → fd ≢ (p.store id).fd
      → get_elem? p.fds j ≡ some e
      → slot_fd e.slot ≡ fd
      → j ≢ i
  away_from j e fd ne h s q =
      let u : some e ≡ some pfd = sym h ∙ ap (get_elem? p.fds) q ∙ at in
      let same : e ≡ pfd = cc in ne (sym s ∙ ap (λ (x : PollFd). slot_fd x.slot) same ∙ f)

  -- The entry is the last one.
  pub popped-IsConsistent :
      i ≡ length p.fds - 1
      → IsConsistent (record p { fds = take (length p.fds - 1) p.fds; channels = gone })
  popped-IsConsistent last = record {
    entries = λ j e h.
        let (l, h') = get_elem?-take_lt (length p.fds - 1) p.fds j h in
        let (id', m', k', f') = c.entries j e h' in
        (
          id',
          update_ne p.channels (p.store id).fd (slot_fd e.slot) none
                (other_entry j e (omega arith) h')
              ∙ m',
          k',
          f',
        );
    mapped = λ fd id' h.
        let (ne, m') = other_mapped fd id' h in
        let (f', j, e, k', h', s) = c.mapped fd id' m' in
        let away : j ≢ i = away_from j e fd ne h' s in
        (
          f',
          j,
          e,
          k',
          get_elem?-take (length p.fds - 1) p.fds j (omega (arith, get_elem?-lt p.fds j h')) ∙ h',
          s,
        );
  }

  -- The entry is exchanged with the last one.
  module _ (back : PollFd) (last : ℕ) (away : i ≢ length p.fds - 1)
      (end : get_elem? p.fds (length p.fds - 1) ≡ some back)
      (moved : gone (slot_fd back.slot) ≡ some last) where
    abbrev swapped : Poller
    swapped = record {
      fds = take (length p.fds - 1) (set p.fds i back);
      channels = gone;
      store = update p.store last (record (p.store last) { index = some i });
    }

    last_lem :
        ((p.store last).index ≡ some (length p.fds - 1)) × ((p.store last).fd ≡ slot_fd back.slot)
    last_lem =
        let (id', m', k', f') = c.entries (length p.fds - 1) back end in
        let (_, m'') = other_mapped (slot_fd back.slot) last moved in
        let q : id' ≡ last = (let u : some id' ≡ some last = sym m' ∙ m'' in cc) in
        (ap (λ x. (p.store x).index) (sym q) ∙ k', ap (λ x. (p.store x).fd) (sym q) ∙ f')

    inside : i < length p.fds - 1
    inside = omega (arith, get_elem?-lt p.fds i at)

    same_or_not : (a b : ℕ) → (a ≡ b) ⊎ (a ≢ b)
    same_or_not a b = elim (Bool-cases (a == b)) [
      | inl e ↦ inl ((==_iff a b).0 e)
      | inr e ↦ inr (λ q. ground arith)
    ]

    stored_last : swapped.store last ≡ record (p.store last) { index = some i }
    stored_last = update_self p.store last (record (p.store last) { index = some i })

    swapped_entries :
        (j : ℕ) (e : PollFd)
        → get_elem? swapped.fds j ≡ some e
        → (id' : ℕ) × (gone (slot_fd e.slot) ≡ some id')
          × ((swapped.store id').index ≡ some j)
          × ((swapped.store id').fd ≡ slot_fd e.slot)
    swapped_entries j e h =
        let (l, h') = get_elem?-take_lt (length p.fds - 1) (set p.fds i back) j h in
        elim (same_or_not j i) [
          | inl q ↦
              let u : some e ≡ some back =
                sym h'
                ∙ ap (get_elem? (set p.fds i back)) q
                ∙ get_elem?-set_self p.fds i back (get_elem?-lt p.fds i at) in
              let same : e ≡ back = cc in
              let slot : slot_fd e.slot ≡ slot_fd back.slot =
                ap (λ (x : PollFd). slot_fd x.slot) same in
              (
                last,
                ap gone slot ∙ moved,
                ap (λ (x : Channel). x.index) stored_last ∙ ap some (sym q),
                ap (λ (x : Channel). x.fd) stored_last ∙ last_lem.1 ∙ sym slot,
              )
          | inr ne ↦
              let g : get_elem? p.fds j ≡ some e =
                sym (get_elem?-set_ne p.fds back (λ q. ne (sym q))) ∙ h' in
              let (id', m', k', f') = c.entries j e g in
              let other : id' ≢ last = λ q.
                (let u : some j ≡ some (length p.fds - 1) =
                    sym k' ∙ ap (λ x. (p.store x).index) q ∙ last_lem.0 in
                  let w : j ≡ length p.fds - 1 = cc in absurd (omega arith)) in
              let stored =
                update_ne p.store last id' (record (p.store last) { index = some i }) other in
              (
                id',
                update_ne p.channels (p.store id).fd (slot_fd e.slot) none (other_entry j e ne g)
                    ∙ m',
                ap (λ (x : Channel). x.index) stored ∙ k',
                ap (λ (x : Channel). x.fd) stored ∙ f',
              )
        ]

    swapped_mapped :
        (fd id' : ℕ)
        → gone fd ≡ some id'
        → ((swapped.store id').fd ≡ fd)
          × (j : ℕ) × (e : PollFd) × ((swapped.store id').index ≡ some j)
          × (get_elem? swapped.fds j ≡ some e)
          × (slot_fd e.slot ≡ fd)
    swapped_mapped fd id' h =
        let (ne, m') = other_mapped fd id' h in
        let (f', j, e, k', h', s) = c.mapped fd id' m' in
        elim (same_or_not id' last) [
          | inl q ↦
              let stored = ap swapped.store q ∙ stored_last in
              (
                ap (λ (x : Channel). x.fd) stored ∙ ap (λ x. (p.store x).fd) (sym q) ∙ f',
                i,
                back,
                ap (λ (x : Channel). x.index) stored,
                get_elem?-take (length p.fds - 1) (set p.fds i back) i inside
                    ∙ get_elem?-set_self p.fds i back (get_elem?-lt p.fds i at),
                sym last_lem.1 ∙ ap (λ x. (p.store x).fd) (sym q) ∙ f',
              )
          | inr other ↦
              let stored =
                update_ne p.store last id' (record (p.store last) { index = some i }) other in
              let far : j ≢ length p.fds - 1 = λ q.
                (let u : some e ≡ some back = sym h' ∙ ap (get_elem? p.fds) q ∙ end in
                  let same : e ≡ back = cc in
                  let slot : slot_fd back.slot ≡ fd =
                    ap (λ (x : PollFd). slot_fd x.slot) (sym same) ∙ s in
                  let w : some last ≡ some id' = sym moved ∙ ap gone slot ∙ h in other cc) in
              (
                ap (λ (x : Channel). x.fd) stored ∙ f',
                j,
                e,
                ap (λ (x : Channel). x.index) stored ∙ k',
                get_elem?-take (length p.fds - 1) (set p.fds i back) j
                      (omega (arith, get_elem?-lt p.fds j h'))
                    ∙ get_elem?-set_ne p.fds back (λ q. away_from j e fd ne h' s (sym q))
                    ∙ h',
                s,
              )
        ]

    pub swapped-IsConsistent : IsConsistent swapped
    swapped-IsConsistent = record { entries = swapped_entries; mapped = swapped_mapped }
