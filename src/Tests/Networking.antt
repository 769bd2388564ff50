-- ===== src/Tests/Networking.antt =====
-- Tests of include/network and its sources.
use hydrogen_web.Common.{ℕ, ◌+◌, ◌<◌, refl, true, false, [], ◌∷◌, ◌++◌, arith, replicate}
use hydrogen_web.Common.Bytes.{codes}
use hydrogen_web.Net.Channel.{Revents, Callbacks}
use hydrogen_web.Net.Connection.{TcpConnection, connected, new_connection, shutdown}
use hydrogen_web.Net.Connection.Stream.{IsFlowing}
use hydrogen_web.Net.Connection.Life.{Reach, here}
use hydrogen_web.Net.EventLoop.{stopped}
use hydrogen_web.Net.EventLoop.Runs
use hydrogen_web.Net.EventLoop.Runs.{World, new_world}

-- An open connection that holds `ab` for the kernel, and one that holds nothing.
abbrev busy : TcpConnection
busy = record {
  state = connected;
  events = record { read_event = true; write_event = true };
  registered = true;
  input_buffer = record { buffer = replicate 24 0; reader_index = 8; writer_index = 8 };
  output_buffer = record {
    buffer = replicate 8 0 ++ (codes "ab" ++ replicate 14 0);
    reader_index = 8;
    writer_index = 10;
  };
  sent = [];
  write_closed = false;
}

busy-IsFlowing : IsFlowing busy
busy-IsFlowing = record {
  output = record {
    front = omega arith;
    order = omega arith;
    within = omega arith;
    small = omega arith;
  };
  watched = λ e. cc;
  pending = λ e h. cc;
  flushed = λ e. cc;
  closing = λ e. cc;
}

-- The connection behind `establishConnection`.
abbrev established : TcpConnection
established = record new_connection {
  state = connected;
  events = record { read_event = true; write_event = false };
  registered = true;
}

-- The connection sends `hello`, of which the kernel takes two bytes, and the callback of a message empties
-- the input buffer.
abbrev sending : TcpConnection
sending = record established {
  events = record { read_event = true; write_event = true };
  output_buffer = record {
    buffer = replicate 8 0 ++ (codes "llo" ++ replicate 1021 0);
    reader_index = 8;
    writer_index = 11;
  };
  sent = codes "he";
}

-- It is shut down, and the kernel takes the rest.
abbrev flushed : TcpConnection
flushed = record (shutdown sending) {
  events = record { read_event = true; write_event = false };
  output_buffer = record sending.output_buffer { reader_index = 11 };
  sent = codes "hello";
  write_closed = true;
}

abbrev hung_up : Revents
hung_up = record {
  pollin = true;
  pollpri = false;
  pollout = false;
  pollerr = false;
  pollhup = true;
  pollnval = false;
  pollrdhup = false;
}

abbrev all_set : Callbacks
all_set = record { has_read = true; has_write = true; has_error = true; has_close = true }

-- Another thread has added the functor 3 to a new loop, and has not yet called `waken`.
abbrev pushed : World ℕ
pushed = record {
  loop = record { phase = stopped; quit = false; thread_id = 1; counter = 0; unprocessed = 3 ∷ [] };
  owed = 1;
  unwoken = 0;
  added = 3 ∷ [];
  executed = [];
}

pushed-run : Runs.Reach (new_world 1) pushed
pushed-run = Runs.more Runs.here (Runs.pushes (new_world 1) 3)

Reach-owed_example : 0 < 0 + 1
Reach-owed_example = Runs.Reach-owed pushed-run refl (λ e. cc) (λ e. cc)

Reach-IsComplete_example : Runs.IsComplete pushed
Reach-IsComplete_example = Runs.Reach-IsComplete pushed-run
