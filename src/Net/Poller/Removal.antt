-- ===== src/Net/Poller/Removal.antt =====
-- Poller: `removeChannel` and `updateChannel` keep the map, the indices and the array in agreement.
use hydrogen_web.Common.{
  ℕ, ◌-◌, ◌≡◌, ◌≢◌, subst, ◌&&◌, Option, none, some, ◌==◌, ==_iff, length, get_elem?, arith,
  Option-cases, Bool-cases, inl, inr,
}
use hydrogen_web.Common.Fault.{ok, guard-eq-ok, ok-injective}
use hydrogen_web.Net.Channel.{is_empty_event}
use hydrogen_web.Net.Poller.{
  slot_fd, PollFd, Channel, Poller, update, is_entry, is_ignored, swap_out, drop_entry,
  remove_channel, new_poller,
}
use hydrogen_web.Net.Poller.Update.{is_entry_iff}
use hydrogen_web.Net.Poller.Consistent.{IsConsistent, popped-IsConsistent, swapped-IsConsistent}

-- What a removal has found.
module _ (p : Poller) (c : IsConsistent p) (id i : ℕ) (pfd : PollFd)
    (m : p.channels (p.store id).fd ≡ some id) (k : (p.store id).index ≡ some i)
    (at : get_elem? p.fds i ≡ some pfd) (f : slot_fd pfd.slot ≡ (p.store id).fd) where
  abbrev gone : ℕ → Option ℕ
  gone = update p.channels (p.store id).fd none

  abbrev erased : Poller
  erased = record p { channels = gone }

  swap_out-IsConsistent :
      (back : PollFd) {p' : Poller}
      → i ≢ length p.fds - 1
      → get_elem? p.fds (length p.fds - 1) ≡ some back
      → swap_out erased i back ≡ ok p'
      → IsConsistent p'
  unfolding swap_out
  swap_out-IsConsistent back away end h = elim (Option-cases (gone (slot_fd back.slot))) [
    | inl e ↦ (let w = rw (e, swap_out) at h in cc)
    | inr (last, e) ↦
        subst IsConsistent (ok-injective (rw (e, swap_out) at h))
          (swapped-IsConsistent p c id i pfd m k at f back last away end e)
  ]

  drop_entry-IsConsistent : {p' : Poller} → drop_entry erased i ≡ ok p' → IsConsistent p'
  unfolding drop_entry
  drop_entry-IsConsistent h = elim (Bool-cases (i == length p.fds - 1)) [
    | inl e ↦
        subst IsConsistent (ok-injective (rw e at h))
          (popped-IsConsistent p c id i pfd m k at f ((==_iff i (length p.fds - 1)).0 e))
    | inr e ↦ elim (Option-cases (get_elem? p.fds (length p.fds - 1))) [
      | inl n ↦ (let w = rw (e, n) at h in cc)
      | inr (back, n) ↦ swap_out-IsConsistent back (λ q. ground arith) n (rw (e, n) at h)
    ]
  ]

-- `removeChannel` keeps the agreement of the map, the indices and the array: whichever entry it takes out,
-- each other channel is still found under its descriptor and knows the place of its entry.
pub remove_channel-IsConsistent :
    (p : Poller) (id : ℕ) {p' : Poller}
    → IsConsistent p
    → remove_channel p id ≡ ok p'
    → IsConsistent p'
unfolding remove_channel
remove_channel-IsConsistent p id c h =
    let (t, h₁) = guard-eq-ok (is_entry (p.channels (p.store id).fd) id) _ _ h in
    let (_, h₂) = guard-eq-ok (is_empty_event (p.store id).events) _ _ h₁ in
    let m = is_entry_iff (p.channels (p.store id).fd) id t in
    let (_, i, pfd, k, at, f) = c.mapped (p.store id).fd id m in
    let (_, h₃) =
      guard-eq-ok
        (is_ignored pfd.slot && (slot_fd pfd.slot == (p.store id).fd && is_empty_event pfd.events))
        _ _ (rw (k, at) at h₂) in
    drop_entry-IsConsistent p c id i pfd m k at f h₃

-- An array of descriptors that has not been used is in agreement.
pub new_poller-IsConsistent : (store : ℕ → Channel) → IsConsistent (new_poller store)
new_poller-IsConsistent store = record { entries = λ i e h. cc; mapped = λ fd id h. cc }
