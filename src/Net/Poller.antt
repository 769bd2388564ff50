-- ===== src/Net/Poller.antt =====
-- include/network/Poller.hpp and src/Poller.cpp: the array of descriptors for `poll` and the channels
-- by their descriptors. Channels are shared objects: they live in a store, by their numbers.
pub mod Update
pub mod Consistent
pub mod Removal
pub mod Registration
pub mod Runs
use hydrogen_web.Common.{
  ℕ, zero, suc, ◌+◌, ◌-◌, Bool, true, false, ◌&&◌, ◌||◌, Option, none, some, List, [], ◌∷◌, ◌++◌,
  ◌==◌, ltb, leb, if◌then◌else◌, length, get_elem?, set, take,
}
use hydrogen_web.Common.Fault.{Result, ok, err, assertion, out_of_bounds, guard, ◌>>=◌, ◌>>◌}
use hydrogen_web.Net.Channel.{Events, is_empty_event}

-- The `fd` of a `pollfd`: a descriptor, or `-fd - 1` for one that `poll` is to ignore.
pub data Slot : Type 0 where
  watched : ℕ → Slot
  ignored : ℕ → Slot

abbrev pub slot_fd : Slot → ℕ
slot_fd (watched fd) = fd
slot_fd (ignored fd) = fd

pub record PollFd : Type 0 where
  pub slot : Slot
  pub events : Events
  pub revents : ℕ

-- A channel as the poller sees it; `index` is `none` for -1.
pub record Channel : Type 0 where
  pub fd : ℕ
  pub events : Events
  pub index : Option ℕ
  pub revents : ℕ

pub record Poller : Type 0 where
  pub fds : List PollFd
  pub channels : ℕ → Option ℕ
  pub store : ℕ → Channel

-- `Poller()`, in a program whose channels are `store`.
abbrev pub new_poller : (ℕ → Channel) → Poller
new_poller store = record { fds = []; channels = λ _. none; store = store }

-- An assignment to one place of a map from numbers.
abbrev pub update {ℓ} : {Value : Type ℓ} → (ℕ → Value) → ℕ → Value → ℕ → Value
update old place value at = if at == place then value else old at

abbrev pub is_none {ℓ} : {A : Type ℓ} → Option A → Bool
is_none none = true
is_none (some a) = false

abbrev pub is_entry : Option ℕ → ℕ → Bool
is_entry none id = false
is_entry (some j) id = j == id

abbrev pub is_ignored : Slot → Bool
is_ignored (watched fd) = false
is_ignored (ignored fd) = true

-- The branch of `updateChannel` for a channel with no index.
unfoldable pub add_channel : Poller → ℕ → Result Poller
add_channel p id =
    guard (is_none (p.channels (p.store id).fd)) assertion
    >> ok (record {
      fds =
          p.fds
          ++ record { slot = watched (p.store id).fd; events = (p.store id).events; revents = 0 }
            ∷ [];
      channels = update p.channels (p.store id).fd (some id);
      store = update p.store id (record (p.store id) { index = some (length p.fds) });
    })

-- The entry of a channel that is known already. Only an empty set of events changes its slot.
abbrev pub refreshed : PollFd → Channel → PollFd
refreshed pfd ch = record {
  slot = if is_empty_event ch.events then ignored ch.fd else pfd.slot;
  events = ch.events;
  revents = 0;
}

-- The assertions on the entry found at the index `i`, and its new value.
abbrev pub refresh_entry : Poller → ℕ → ℕ → Option PollFd → Result Poller
refresh_entry p id i none = err assertion
refresh_entry p id i (some pfd) =
    guard (slot_fd pfd.slot == (p.store id).fd) assertion
    >> ok (record p { fds = set p.fds i (refreshed pfd (p.store id)) })

-- The branch of `updateChannel` for a channel with the index `i`.
unfoldable pub refresh_channel : Poller → ℕ → ℕ → Result Poller
refresh_channel p id i =
    guard (is_entry (p.channels (p.store id).fd) id) assertion
    >> refresh_entry p id i (get_elem? p.fds i)

unfoldable pub update_channel : Poller → ℕ → Result Poller
update_channel p id = elim (p.store id).index [
  | none ↦ add_channel p id
  | some i ↦ refresh_channel p id i
]

-- `pop_back` behind a swap of the entry `i` with the last one, whose channel is told its new place.
unfoldable pub swap_out : Poller → ℕ → PollFd → Result Poller
swap_out p i back = elim (p.channels (slot_fd back.slot)) [
  | none ↦ err out_of_bounds
  | some last ↦ ok (record p {
    fds = take (length p.fds - 1) (set p.fds i back);
    store = update p.store last (record (p.store last) { index = some i });
  })
]

-- `removeChannel` for a channel with the index `i`, behind the checks.
unfoldable pub drop_entry : Poller → ℕ → Result Poller
drop_entry p i =
    if i == length p.fds - 1
    then ok (record p { fds = take (length p.fds - 1) p.fds })
    else elim (get_elem? p.fds (length p.fds - 1)) [
      | none ↦ err out_of_bounds
      | some back ↦ swap_out p i back
    ]

unfoldable pub remove_channel : Poller → ℕ → Result Poller
remove_channel p id =
    guard (is_entry (p.channels (p.store id).fd) id) assertion
    >> (guard (is_empty_event (p.store id).events) assertion >> elim (p.store id).index [
      | none ↦ err assertion
      | some i ↦ elim (get_elem? p.fds i) [
        | none ↦ err assertion
        | some pfd ↦
            guard
              (is_ignored pfd.slot
                && (slot_fd pfd.slot == (p.store id).fd && is_empty_event pfd.events))
              assertion
            >> drop_entry (record p { channels = update p.channels (p.store id).fd none }) i
      ]
    ])

-- The channel of an entry with events, behind the two assertions of `fillActiveChannels`.
abbrev pub reported : (ℕ → Option ℕ) → (ℕ → Channel) → PollFd → Option ℕ
reported channels store pfd = elim pfd.slot [
  | ignored fd ↦ none
  | watched fd ↦ elim (channels fd) [
    | none ↦ none
    | some id ↦ if (store id).fd == fd then some id else none
  ]
]

-- The loop of `fillActiveChannels` over the entries left, with the number of events left. It returns
-- the channels in the order in which they are reported, with their events set.
unfoldable pub fill_active_channels :
    (ℕ → Option ℕ) → (ℕ → Channel) → ℕ → List PollFd → Result (List ℕ × (ℕ → Channel))
fill_active_channels channels store num_events [] = ok ([], store)
fill_active_channels channels store zero (pfd ∷ rest) = ok ([], store)
fill_active_channels channels store (suc n) (pfd ∷ rest) = elim (ltb 0 pfd.revents) [
  | false ↦ fill_active_channels channels store (suc n) rest
  | true ↦ elim (reported channels store pfd) [
    | none ↦ err assertion
    | some id ↦
        fill_active_channels channels
          (update store id (record (store id) { revents = pfd.revents })) n rest
        >>= λ r. ok (id ∷ r.0, r.1)
  ]
]
