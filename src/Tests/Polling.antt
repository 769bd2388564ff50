-- ===== src/Tests/Polling.antt =====
-- Tests of src/Poller.cpp.
use hydrogen_web.Common.{ℕ, ◌+◌, ◌≡◌, refl, true, false, none, some, [], ◌∷◌, get_elem?}
use hydrogen_web.Net.Channel.{Events, empty_event}
use hydrogen_web.Net.Poller.{
  PollFd, Poller, Channel, new_poller, watched, ignored, slot_fd, update_channel, add_channel,
  update, refresh_channel, remove_channel, drop_entry, swap_out,
}
use hydrogen_web.Net.Poller.Update.{IsRegistered}
use hydrogen_web.Net.Poller.Runs.{
  Reach, here, next, asks, updates, removes, with_events, Reach-IsRegistered,
}

-- Two channels, with the descriptors 7 and 8.
abbrev reading : Events
reading = record { read_event = true; write_event = false }

abbrev channel_of : ℕ → Channel
channel_of j = record { fd = 7 + j; events = reading; index = none; revents = 0 }

abbrev entry_of : ℕ → PollFd
entry_of fd = record { slot = watched fd; events = reading; revents = 0 }

abbrev one_known : Poller
one_known = record {
  fds = entry_of 7 ∷ [];
  channels = update (λ _. none) 7 (some 0);
  store = update channel_of 0 (record (channel_of 0) { index = some 0 });
}

abbrev two_known : Poller
two_known = record {
  fds = entry_of 7 ∷ entry_of 8 ∷ [];
  channels = update one_known.channels 8 (some 1);
  store = update one_known.store 1 (record (channel_of 1) { index = some 1 });
}

-- The first channel asks for nothing, and its entry is ignored.
abbrev one_silent : Poller
one_silent = record (with_events two_known 0 empty_event 0) {
  fds = record { slot = ignored 7; events = empty_event; revents = 0 } ∷ entry_of 8 ∷ [];
}

-- Its removal moves the entry of the second.
abbrev one_left : Poller
one_left = record {
  fds = entry_of 8 ∷ [];
  channels = update one_silent.channels 7 none;
  store = update one_silent.store 1 (record (channel_of 1) { index = some 0 });
}

run_to_removal : Reach (new_poller channel_of) one_left
unfolding update_channel add_channel refresh_channel remove_channel drop_entry swap_out
run_to_removal =
    next
      (next
        (next (next (next here (updates 0 {p' = one_known} refl)) (updates 1 {p' = two_known} refl))
          (asks 0 empty_event 0))
        (updates 0 {p' = one_silent} refl))
      (removes 0 {p' = one_left} refl)

Reach-IsRegistered_example :
    ((fd id : ℕ)
      → one_left.channels fd ≡ some id
      → ((one_left.store id).fd ≡ fd) × IsRegistered one_left id)
    × ((i : ℕ) (e : PollFd)
        → get_elem? one_left.fds i ≡ some e
        → (id : ℕ) × (one_left.channels (slot_fd e.slot) ≡ some id)
          × ((one_left.store id).index ≡ some i))
Reach-IsRegistered_example = Reach-IsRegistered channel_of run_to_removal
