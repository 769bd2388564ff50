-- ===== src/Net/Poller/Registration.antt =====
-- Poller: `updateChannel` keeps the map, the indices and the array in agreement.
use hydrogen_web.Common.{
  ℕ, zero, suc, ◌≡◌, ◌≢◌, refl, sym, ap, ◌∙◌, subst, true, Option, none, some, List, [], ◌∷◌, ◌++◌,
  ◌==◌, ==_iff, length, get_elem?, set, arith, Option-cases, Bool-cases, inl, inr, ◌⊎◌,
  get_elem?-set_self, get_elem?-set_ne,
}
use hydrogen_web.Common.Fault.{ok, guard-eq-ok, ok-injective}
use hydrogen_web.Net.Poller.{
  watched, slot_fd, PollFd, Channel, Poller, update, is_none, refreshed, add_channel,
  update_channel,
}
use hydrogen_web.Net.Poller.Update.{
  update_self, update_ne, get_elem?-lt, update_channel_new, update_channel_known,
  refresh_channel-ok, slot_fd-refreshed, get_elem?-append, get_elem?-length,
}
use hydrogen_web.Net.Poller.Consistent.{IsConsistent}

same_or_not : (a b : ℕ) → (a ≡ b) ⊎ (a ≢ b)
same_or_not a b = elim (Bool-cases (a == b)) [
  | inl e ↦ inl ((==_iff a b).0 e)
  | inr e ↦ inr (λ q. ground arith)
]

get_elem?-append_cases :
    {A : Type 0} (xs : List A) (a : A) (j : ℕ) {b : A}
    → get_elem? (xs ++ a ∷ []) j ≡ some b
    → (get_elem? xs j ≡ some b) ⊎ ((j ≡ length xs) × (a ≡ b))
get_elem?-append_cases [] a zero h = inr (refl, cc)
get_elem?-append_cases [] a (suc j) h = cc
get_elem?-append_cases (x ∷ xs) a zero h = inl h
get_elem?-append_cases (x ∷ xs) a (suc j) h = elim (get_elem?-append_cases xs a j h) [
  | inl e ↦ inl e
  | inr (e, q) ↦ inr (ap suc e, q)
]

refreshed-IsConsistent :
    (p : Poller) (id i : ℕ) (pfd : PollFd)
    → IsConsistent p
    → get_elem? p.fds i ≡ some pfd
    → slot_fd pfd.slot ≡ (p.store id).fd
    → IsConsistent (record p { fds = set p.fds i (refreshed pfd (p.store id)) })
refreshed-IsConsistent p id i pfd c at f =
    let new = refreshed pfd (p.store id) in
    let fd_same : slot_fd new.slot ≡ slot_fd pfd.slot =
      slot_fd-refreshed pfd (p.store id) f ∙ sym f in
    let self : get_elem? (set p.fds i new) i ≡ some new =
      get_elem?-set_self p.fds i new (get_elem?-lt p.fds i at) in
    record {
      entries = λ j e h. elim (same_or_not j i) [
        | inl q ↦
            let (id', m', k', f') = c.entries i pfd at in
            let u : some e ≡ some new = sym h ∙ ap (get_elem? (set p.fds i new)) q ∙ self in
            let same : e ≡ new = cc in
            let slot : slot_fd e.slot ≡ slot_fd pfd.slot =
              ap (λ (x : PollFd). slot_fd x.slot) same ∙ fd_same in
            (id', ap p.channels slot ∙ m', k' ∙ ap some (sym q), f' ∙ sym slot)
        | inr ne ↦ c.entries j e (sym (get_elem?-set_ne p.fds new (λ q. ne (sym q))) ∙ h)
      ];
      mapped = λ fd id' h.
          let (f', j, e, k', h', s) = c.mapped fd id' h in
          elim (same_or_not j i) [
            | inl q ↦
                let u : some e ≡ some pfd = sym h' ∙ ap (get_elem? p.fds) q ∙ at in
                let same : e ≡ pfd = cc in
                (
                  f',
                  i,
                  new,
                  k' ∙ ap some q,
                  self,
                  fd_same ∙ ap (λ (x : PollFd). slot_fd x.slot) (sym same) ∙ s,
                )
            | inr ne ↦ (f', j, e, k', get_elem?-set_ne p.fds new (λ q. ne (sym q)) ∙ h', s)
          ];
    }

module _ (p : Poller) (id : ℕ) (c : IsConsistent p) (k : (p.store id).index ≡ none)
    (m : p.channels (p.store id).fd ≡ none) where
  abbrev entry : PollFd
  entry = record { slot = watched (p.store id).fd; events = (p.store id).events; revents = 0 }

  abbrev placed : Channel
  placed = record (p.store id) { index = some (length p.fds) }

  abbrev added : Poller
  added = record {
    fds = p.fds ++ entry ∷ [];
    channels = update p.channels (p.store id).fd (some id);
    store = update p.store id placed;
  }

  -- A channel with an index is another one.
  other_channel :
      (id' j : ℕ) → (p.store id').index ≡ some j → update p.store id placed id' ≡ p.store id'
  other_channel id' j h =
      update_ne p.store id id' placed
        (λ q. (let u : some j ≡ none = sym h ∙ ap (λ x. (p.store x).index) q ∙ k in cc))

  added_entries :
      (j : ℕ) (e : PollFd)
      → get_elem? added.fds j ≡ some e
      → (id' : ℕ) × (added.channels (slot_fd e.slot) ≡ some id')
        × ((added.store id').index ≡ some j)
        × ((added.store id').fd ≡ slot_fd e.slot)
  added_entries j e h = elim (get_elem?-append_cases p.fds entry j h) [
    | inl g ↦
        let (id', m', k', f') = c.entries j e g in
        let stored = other_channel id' j k' in
        (
          id',
          update_ne p.channels (p.store id).fd (slot_fd e.slot) (some id)
                (λ q. (let u : some id' ≡ none = sym m' ∙ ap p.channels q ∙ m in cc))
              ∙ m',
          ap (λ (x : Channel). x.index) stored ∙ k',
          ap (λ (x : Channel). x.fd) stored ∙ f',
        )
    | inr (q, same) ↦
        let slot : (p.store id).fd ≡ slot_fd e.slot = ap (λ (x : PollFd). slot_fd x.slot) same in
        let stored = update_self p.store id placed in
        (
          id,
          ap added.channels (sym slot) ∙ update_self p.channels (p.store id).fd (some id),
          ap (λ (x : Channel). x.index) stored ∙ ap some (sym q),
          ap (λ (x : Channel). x.fd) stored ∙ slot,
        )
  ]

  added_mapped :
      (fd id' : ℕ)
      → added.channels fd ≡ some id'
      → ((added.store id').fd ≡ fd)
        × (j : ℕ) × (e : PollFd) × ((added.store id').index ≡ some j)
        × (get_elem? added.fds j ≡ some e)
        × (slot_fd e.slot ≡ fd)
  added_mapped fd id' h = elim (same_or_not fd (p.store id).fd) [
    | inl q ↦
        let u : some id' ≡ some id =
          sym h ∙ ap added.channels q ∙ update_self p.channels (p.store id).fd (some id) in
        let same : id' ≡ id = cc in
        let stored = ap added.store same ∙ update_self p.store id placed in
        (
          ap (λ (x : Channel). x.fd) stored ∙ sym q,
          length p.fds,
          entry,
          ap (λ (x : Channel). x.index) stored,
          get_elem?-length p.fds entry,
          sym q,
        )
    | inr ne ↦
        let (f', j, e, k', h', s) =
          c.mapped fd id' (sym (update_ne p.channels (p.store id).fd fd (some id) ne) ∙ h) in
        let stored = other_channel id' j k' in
        (
          ap (λ (x : Channel). x.fd) stored ∙ f',
          j,
          e,
          ap (λ (x : Channel). x.index) stored ∙ k',
          get_elem?-append p.fds (entry ∷ []) j h',
          s,
        )
  ]

  added-IsConsistent : IsConsistent added
  added-IsConsistent = record { entries = added_entries; mapped = added_mapped }

is_none_iff : {A : Type 0} (o : Option A) → is_none o ≡ true → o ≡ none
is_none_iff none h = refl
is_none_iff (some a) h = cc

add_channel-IsConsistent :
    (p : Poller) (id : ℕ) {p' : Poller}
    → IsConsistent p
    → (p.store id).index ≡ none
    → add_channel p id ≡ ok p'
    → IsConsistent p'
unfolding add_channel
add_channel-IsConsistent p id c k h =
    let (t, e) = guard-eq-ok (is_none (p.channels (p.store id).fd)) _ _ h in
    subst IsConsistent (ok-injective e)
      (added-IsConsistent p id c k (is_none_iff (p.channels (p.store id).fd) t))

-- `updateChannel` keeps the agreement, for a channel that is new and for one that it knows.
pub update_channel-IsConsistent :
    (p : Poller) (id : ℕ) {p' : Poller}
    → IsConsistent p
    → update_channel p id ≡ ok p'
    → IsConsistent p'
update_channel-IsConsistent p id c h = elim (Option-cases (p.store id).index) [
  | inl e ↦ add_channel-IsConsistent p id c e (sym (update_channel_new p id e) ∙ h)
  | inr (i, e) ↦
      let (m, pfd, at, f, eq) =
        refresh_channel-ok p id i (sym (update_channel_known p id i e) ∙ h) in
      subst IsConsistent eq (refreshed-IsConsistent p id i pfd c at f)
]
