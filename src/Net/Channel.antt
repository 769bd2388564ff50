-- ===== src/Net/Channel.antt =====
-- include/network/Channel.hpp and src/Channel.cpp: the events that a descriptor is watched for, and
-- the dispatch of the events that `poll` reports.
pub mod Dispatch
use hydrogen_web.Common.{ℕ, Bool, true, false, ◌&&◌, ◌||◌, not, List, [], ◌∷◌, ◌++◌, if◌then◌else◌}

-- `_events`, the union of READEVENT (POLLIN | POLLPRI) and WRITEEVENT (POLLOUT): which of the two
-- are set.
pub record Events : Type 0 where
  pub read_event : Bool
  pub write_event : Bool

abbrev pub empty_event : Events
empty_event = record { read_event = false; write_event = false }

abbrev pub is_empty_event : Events → Bool
is_empty_event e = not (e.read_event || e.write_event)

abbrev pub is_writing : Events → Bool
is_writing e = e.write_event

abbrev pub enable_reading : Events → Events
enable_reading e = record e { read_event = true }

abbrev pub enable_writing : Events → Events
enable_writing e = record e { write_event = true }

abbrev pub disable_writing : Events → Events
disable_writing e = record e { write_event = false }

abbrev pub disable_all : Events → Events
disable_all e = empty_event

-- `_revents`, by its bits.
pub record Revents : Type 0 where
  pub pollin : Bool
  pub pollpri : Bool
  pub pollout : Bool
  pub pollrdhup : Bool
  pub pollerr : Bool
  pub pollhup : Bool
  pub pollnval : Bool

-- Which of the four callbacks are set.
pub record Callbacks : Type 0 where
  pub has_read : Bool
  pub has_write : Bool
  pub has_error : Bool
  pub has_close : Bool

pub data Call : Type 0 where
  close_callback error_callback read_callback write_callback : Call

abbrev pub when : Bool → Call → List Call
when b c = if b then c ∷ [] else []

-- `handleEvent`: the callbacks that it calls, in order.
unfoldable pub handle_event : Revents → Callbacks → List Call
handle_event r cb =
    when (r.pollhup && not r.pollin && cb.has_close) close_callback
    ++ (when ((r.pollerr || r.pollnval) && cb.has_error) error_callback
        ++ (when ((r.pollin || (r.pollpri || r.pollrdhup)) && cb.has_read) read_callback
            ++ when (r.pollout && cb.has_write) write_callback))
