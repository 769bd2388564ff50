-- ===== src/Net/Channel/Dispatch.antt =====
-- Channel: which callbacks an event leads to.
use hydrogen_web.Common.{◌≡◌, Bool, true, false, ◌&&◌, ◌||◌, not, List, [], ◌∷◌, ◌++◌, arith}
use hydrogen_web.Net.Channel.{
  Revents, Callbacks, Call, close_callback, error_callback, read_callback, write_callback,
  handle_event, when,
}

abbrev pub same_call : Call → Call → Bool
same_call close_callback close_callback = true
same_call error_callback error_callback = true
same_call read_callback read_callback = true
same_call write_callback write_callback = true
same_call _ _ = false

abbrev pub called : Call → List Call → Bool
called c [] = false
called c (x ∷ xs) = same_call c x || called c xs

called-when :
    (a b c d : Bool)
    → let calls =
        when a close_callback
        ++ (when b error_callback ++ (when c read_callback ++ when d write_callback)) in
      (called close_callback calls ≡ a)
      × (called error_callback calls ≡ b)
      × (called read_callback calls ≡ c)
      × (called write_callback calls ≡ d)
called-when a b c d = ground arith

-- Each callback is called exactly if it is set and its event has been reported: close for a hang-up
-- with nothing left to read, error for an error or an invalid descriptor, read for data, urgent data
-- or a half-closed peer, write for room to write.
pub handle_event-called :
    (r : Revents) (cb : Callbacks)
    → (called close_callback (handle_event r cb) ≡ (r.pollhup && not r.pollin && cb.has_close))
      × (called error_callback (handle_event r cb) ≡ ((r.pollerr || r.pollnval) && cb.has_error))
      × (called read_callback (handle_event r cb)
          ≡ ((r.pollin || (r.pollpri || r.pollrdhup)) && cb.has_read))
      × (called write_callback (handle_event r cb) ≡ (r.pollout && cb.has_write))
unfolding handle_event
handle_event-called r cb = called-when _ _ _ _
