-- ===== src/Net/Poller/Update.antt =====
-- Poller: a channel that was updated is registered at its index, and the others stay registered.
use hydrogen_web.Common.{
  ℕ, zero, suc, ◌<◌, ◌≡◌, ◌≢◌, refl, sym, ap, ◌∙◌, subst, true, Option, none, some, List, [], ◌∷◌,
  ◌++◌, ◌==◌, ==_iff, length, get_elem?, set, arith, Option-cases, Bool-cases, inl, inr,
  get_elem?-set_self,
}
use hydrogen_web.Common.Fault.{ok, guard-eq-ok, ok-injective}
use hydrogen_web.Net.Channel.{is_empty_event}
use hydrogen_web.Net.Poller.{
  watched, slot_fd, PollFd, Channel, Poller, update, is_none, is_entry, is_ignored, add_channel,
  refreshed, refresh_entry, refresh_channel, update_channel,
}

-- The channel `id` knows the place of its entry in the array, and the map knows the channel.
pub record IsRegistered (p : Poller) (id : ℕ) : Type 0 where
  pub index : ℕ
  pub entry : PollFd
  pub knows : (p.store id).index ≡ some index
  pub there : get_elem? p.fds index ≡ some entry
  pub its_fd : slot_fd entry.slot ≡ (p.store id).fd
  pub mapped : p.channels (p.store id).fd ≡ some id

pub update_self : {A : Type 0} (f : ℕ → A) (k : ℕ) (v : A) → update f k v k ≡ v
update_self f k v = ground arith

pub update_ne : {A : Type 0} (f : ℕ → A) (k j : ℕ) (v : A) → j ≢ k → update f k v j ≡ f j
update_ne f k j v h = ground arith

pub get_elem?-length :
    {A : Type 0} (xs : List A) (a : A) → get_elem? (xs ++ a ∷ []) (length xs) ≡ some a
get_elem?-length [] a = refl
get_elem?-length (x ∷ xs) a = get_elem?-length xs a

pub get_elem?-append :
    {A : Type 0} (xs ys : List A) (i : ℕ) {a : A}
    → get_elem? xs i ≡ some a
    → get_elem? (xs ++ ys) i ≡ some a
get_elem?-append [] ys i h = cc
get_elem?-append (x ∷ xs) ys zero h = h
get_elem?-append (x ∷ xs) ys (suc i) h = get_elem?-append xs ys i h

pub get_elem?-lt :
    {A : Type 0} (xs : List A) (i : ℕ) {a : A} → get_elem? xs i ≡ some a → i < length xs
get_elem?-lt [] i h = cc
get_elem?-lt (x ∷ xs) zero h = omega arith
get_elem?-lt (x ∷ xs) (suc i) h = omega (arith, get_elem?-lt xs i h)

pub is_entry_iff : (o : Option ℕ) (id : ℕ) → is_entry o id ≡ true → o ≡ some id
is_entry_iff none id h = cc
is_entry_iff (some j) id h = ground arith

-- What an addition leaves.
pub add_channel-ok :
    (p : Poller) (id : ℕ) {p' : Poller}
    → add_channel p id ≡ ok p'
    → record {
      fds =
          p.fds
          ++ record { slot = watched (p.store id).fd; events = (p.store id).events; revents = 0 }
            ∷ [];
      channels = update p.channels (p.store id).fd (some id);
      store = update p.store id (record (p.store id) { index = some (length p.fds) });
    }
      ≡ p'
unfolding add_channel
add_channel-ok p id h = ok-injective (guard-eq-ok (is_none (p.channels (p.store id).fd)) _ _ h).1

add_channel-IsRegistered :
    (p : Poller) (id : ℕ) {p' : Poller} → add_channel p id ≡ ok p' → IsRegistered p' id
add_channel-IsRegistered p id h =
    subst (λ q. IsRegistered q id) (add_channel-ok p id h)
      (record {
        index = length p.fds;
        entry = record {
          slot = watched (p.store id).fd;
          events = (p.store id).events;
          revents = 0;
        };
        knows = ap (λ c. c.index) (update_self p.store id _);
        there = get_elem?-length p.fds _;
        its_fd = sym (ap (λ c. c.fd) (update_self p.store id _));
        mapped = rw (update_self p.store id _) (update_self p.channels (p.store id).fd (some id));
      })

-- What a refreshing update has found and what it leaves.
refresh_entry-ok :
    (p : Poller) (id i : ℕ) (o : Option PollFd) {p' : Poller}
    → refresh_entry p id i o ≡ ok p'
    → (pfd : PollFd) × (o ≡ some pfd)
      × (slot_fd pfd.slot ≡ (p.store id).fd)
      × (record p { fds = set p.fds i (refreshed pfd (p.store id)) } ≡ p')
refresh_entry-ok p id i none h = cc
refresh_entry-ok p id i (some pfd) h =
    let (t, k) = guard-eq-ok (slot_fd pfd.slot == (p.store id).fd) _ _ h in
    (pfd, refl, (==_iff (slot_fd pfd.slot) (p.store id).fd).0 t, ok-injective k)

pub refresh_channel-ok :
    (p : Poller) (id i : ℕ) {p' : Poller}
    → refresh_channel p id i ≡ ok p'
    → (p.channels (p.store id).fd ≡ some id)
      × (pfd : PollFd) × (get_elem? p.fds i ≡ some pfd)
      × (slot_fd pfd.slot ≡ (p.store id).fd)
      × (record p { fds = set p.fds i (refreshed pfd (p.store id)) } ≡ p')
unfolding refresh_channel
refresh_channel-ok p id i h =
    let (t, k) = guard-eq-ok (is_entry (p.channels (p.store id).fd) id) _ _ h in
    let (pfd, e, f, eq) = refresh_entry-ok p id i (get_elem? p.fds i) k in
    (is_entry_iff (p.channels (p.store id).fd) id t, pfd, e, f, eq)

pub slot_fd-refreshed :
    (pfd : PollFd) (ch : Channel)
    → slot_fd pfd.slot ≡ ch.fd
    → slot_fd (refreshed pfd ch).slot ≡ ch.fd
slot_fd-refreshed pfd ch h = elim (Bool-cases (is_empty_event ch.events)) [
  | inl e ↦ rw (e) refl
  | inr e ↦ rw (e) h
]

refresh_channel-IsRegistered :
    (p : Poller) (id i : ℕ) {p' : Poller}
    → (p.store id).index ≡ some i
    → refresh_channel p id i ≡ ok p'
    → IsRegistered p' id
refresh_channel-IsRegistered p id i k h =
    let (m, pfd, e, f, eq) = refresh_channel-ok p id i h in
    subst (λ q. IsRegistered q id) eq
      (record {
        index = i;
        entry = refreshed pfd (p.store id);
        knows = k;
        there = get_elem?-set_self p.fds i _ (get_elem?-lt p.fds i e);
        its_fd = slot_fd-refreshed pfd (p.store id) f;
        mapped = m;
      })

pub update_channel_new :
    (p : Poller) (id : ℕ) → (p.store id).index ≡ none → update_channel p id ≡ add_channel p id
unfolding update_channel
update_channel_new p id h = rw (h, update_channel) refl

pub update_channel_known :
    (p : Poller) (id i : ℕ)
    → (p.store id).index ≡ some i
    → update_channel p id ≡ refresh_channel p id i
unfolding update_channel
update_channel_known p id i h = rw (h, update_channel) refl

-- A channel that `updateChannel` has accepted, new or known, is registered: it knows the place of its
-- entry, the entry has its descriptor, and the map leads from the descriptor to it.
pub update_channel-IsRegistered :
    (p : Poller) (id : ℕ) {p' : Poller} → update_channel p id ≡ ok p' → IsRegistered p' id
update_channel-IsRegistered p id h = elim (Option-cases (p.store id).index) [
  | inl e ↦ add_channel-IsRegistered p id (sym (update_channel_new p id e) ∙ h)
  | inr (i, e) ↦ refresh_channel-IsRegistered p id i e (sym (update_channel_known p id i e) ∙ h)
]

-- The entry of an ignored descriptor.
abbrev pub IsIgnored : Poller → ℕ → Type 0
IsIgnored p i = (pfd : PollFd) × (get_elem? p.fds i ≡ some pfd) × (is_ignored pfd.slot ≡ true)

is_ignored-refreshed :
    (pfd : PollFd) (ch : Channel)
    → is_ignored pfd.slot ≡ true
    → is_ignored (refreshed pfd ch).slot ≡ true
is_ignored-refreshed pfd ch h = elim (Bool-cases (is_empty_event ch.events)) [
  | inl e ↦ rw (e) refl
  | inr e ↦ rw (e) h
]

-- An entry that is ignored stays ignored under `updateChannel`, whatever events the channel asks for.
pub update_channel-IsIgnored :
    (p : Poller) (id i : ℕ) {p' : Poller}
    → (p.store id).index ≡ some i
    → IsIgnored p i
    → update_channel p id ≡ ok p'
    → IsIgnored p' i
update_channel-IsIgnored p id i k (pfd0, e0, g) h =
    let (m, pfd, e, f, eq) = refresh_channel-ok p id i (sym (update_channel_known p id i k) ∙ h) in
    let same : is_ignored pfd.slot ≡ true = cc in
    subst (λ q. IsIgnored q i) eq
      (
        refreshed pfd (p.store id),
        get_elem?-set_self p.fds i _ (get_elem?-lt p.fds i e),
        is_ignored-refreshed pfd (p.store id) same,
      )
