-- ===== src/Net/Poller/Runs.antt =====
-- Poller: the runs of a poller whose channels are updated and removed in any order.
use hydrogen_web.Common.{
  ℕ, ◌≡◌, refl, sym, ap, ◌∙◌, some, Bool-cases, inl, inr, ◌==◌, ==_iff, get_elem?,
}
use hydrogen_web.Common.Fault.{ok}
use hydrogen_web.Net.Channel.{Events}
use hydrogen_web.Net.Poller.{
  slot_fd, PollFd, Channel, Poller, update, new_poller, update_channel, remove_channel,
}
use hydrogen_web.Net.Poller.Update.{IsRegistered}
use hydrogen_web.Net.Poller.Consistent.{IsConsistent}
use hydrogen_web.Net.Poller.Removal.{remove_channel-IsConsistent, new_poller-IsConsistent}
use hydrogen_web.Net.Poller.Registration.{update_channel-IsConsistent}

-- A channel asks for other events or has some reported, in the object that the poller shares.
abbrev pub with_events : Poller → ℕ → Events → ℕ → Poller
with_events p id events revents = record p {
  store = update p.store id (record (p.store id) { events = events; revents = revents });
}

pub data Step (p : Poller) : Poller → Type 0 where
  asks : (id : ℕ) (events : Events) (revents : ℕ) → Step p (with_events p id events revents)
  updates : (id : ℕ) {p' : Poller} → update_channel p id ≡ ok p' → Step p p'
  removes : (id : ℕ) {p' : Poller} → remove_channel p id ≡ ok p' → Step p p'

pub data Reach (p : Poller) : Poller → Type 0 where
  here : Reach p p
  next : {q r : Poller} → Reach p q → Step q r → Reach p r

same_channel :
    (p : Poller) (id : ℕ) (events : Events) (revents i : ℕ)
    → (((with_events p id events revents).store i).index ≡ (p.store i).index)
      × (((with_events p id events revents).store i).fd ≡ (p.store i).fd)
same_channel p id events revents i = elim (Bool-cases (i == id)) [
  | inl e ↦
      let q : i ≡ id = (==_iff i id).0 e in
      rw (e) (ap (λ x. (p.store x).index) (sym q), ap (λ x. (p.store x).fd) (sym q))
  | inr e ↦ rw (e) (refl, refl)
]

with_events-IsConsistent :
    (p : Poller) (id : ℕ) (events : Events) (revents : ℕ)
    → IsConsistent p
    → IsConsistent (with_events p id events revents)
with_events-IsConsistent p id events revents c = record {
  entries = λ i e h.
      let (j, m, k, f) = c.entries i e h in
      let (x, y) = same_channel p id events revents j in (j, m, x ∙ k, y ∙ f);
  mapped = λ fd j h.
      let (f, i, e, k, g, s) = c.mapped fd j h in
      let (x, y) = same_channel p id events revents j in (y ∙ f, i, e, x ∙ k, g, s);
}

Reach-IsConsistent :
    (store : ℕ → Channel) {p : Poller} → Reach (new_poller store) p → IsConsistent p
Reach-IsConsistent store here = new_poller-IsConsistent store
Reach-IsConsistent store (next r (asks id events revents)) =
    with_events-IsConsistent _ id events revents (Reach-IsConsistent store r)
Reach-IsConsistent store (next r (updates id h)) =
    update_channel-IsConsistent _ id (Reach-IsConsistent store r) h
Reach-IsConsistent store (next r (removes id h)) =
    remove_channel-IsConsistent _ id (Reach-IsConsistent store r) h

-- In every run of updates and removals, each channel that the map leads to is registered: it has the
-- descriptor of the map and knows the place of its entry in the array, wherever removals have moved it; and
-- each entry of the array is that of such a channel.
pub Reach-IsRegistered :
    (store : ℕ → Channel) {p : Poller}
    → Reach (new_poller store) p
    → ((fd id : ℕ) → p.channels fd ≡ some id → ((p.store id).fd ≡ fd) × IsRegistered p id)
      × ((i : ℕ) (e : PollFd)
          → get_elem? p.fds i ≡ some e
          → (id : ℕ) × (p.channels (slot_fd e.slot) ≡ some id) × ((p.store id).index ≡ some i))
Reach-IsRegistered store {p} r =
    let c = Reach-IsConsistent store r in
    (
      λ fd id m.
          let (f, i, e, k, g, s) = c.mapped fd id m in
          (
            f,
            record {
              index = i;
              entry = e;
              knows = k;
              there = g;
              its_fd = s ∙ sym f;
              mapped = ap (λ x. p.channels x) f ∙ m;
            },
          ),
      λ i e g. let (id, m, k, _) = c.entries i e g in (id, m, k),
    )
