-- ===== src/Server/Sharing.antt =====
-- One connection of agente_c/src/server.c between the workers and the threads that send over it: the steps
-- that each takes under `write_mutex`, in any order. `epoll_wait` hands an event to a worker before the
-- worker sets `in_handler`, and other steps may fall in between.
pub mod Awake
pub mod Exclusive
use tp_sist_op.Prelude.{
  ℕ, suc, ◌+◌, ◌<◌, Bool, true, false, not, List, [], ◌∷◌, Option, none, some, ◌≡◌, ◌||◌,
  if◌then◌else◌, leb, length,
}
use tp_sist_op.Manager.NodeList.{buff_size}
use tp_sist_op.Server.{handle_tcp_write}
use tp_sist_op.Server.Epoll.{Mask, Socket, rearm_conn, post}

-- The connection, the events on it that were reported and are not taken yet, and the workers that handle it.
pub record Shared : Type 0 where
  pub socket : Socket
  pub reported : ℕ
  pub handling : ℕ
  pub freed : Bool

-- The kernel reports a one-shot event and disables the registration, and `close` removes it.
unfoldable pub disarm : Socket → Socket
disarm conn = record conn { armed = none }

-- `conn->in_handler = 1`.
unfoldable pub mark : Socket → Socket
mark conn = record conn { in_handler = true }

pub data Step (s : Shared) : Shared → Type 0 where
  report :
      (k : Mask)
      → s.freed ≡ false
      → s.socket.armed ≡ some k
      → Step s (record s { socket = disarm s.socket; reported = suc s.reported })
  take :
      (n : ℕ)
      → s.reported ≡ suc n
      → Step s (record s { socket = mark s.socket; reported = n; handling = suc s.handling })
  -- `ctl` tells whether `EPOLL_CTL_MOD` would succeed.
  send :
      (ctl : Bool) (msg : List ℕ)
      → s.freed ≡ false
      → Step s (record s { socket = post ctl msg s.socket })
  sent :
      (n k : ℕ)
      → s.handling ≡ suc n
      → Step s
          (record s { socket = record s.socket { buffers = handle_tcp_write k s.socket.buffers } })
  rearm :
      (n : ℕ)
      → s.freed ≡ false
      → s.handling ≡ suc n
      → Step s (record s { socket = rearm_conn s.socket; handling = n })
  free :
      (n : ℕ)
      → s.freed ≡ false
      → s.handling ≡ suc n
      → Step s (record s { socket = disarm s.socket; handling = n; freed = true })

abbrev pub idle : Socket → Shared
idle conn = record { socket = conn; reported = 0; handling = 0; freed = false }

pub data Reach (s : Shared) : Shared → Type 0 where
  here : Reach s s
  next : {t u : Shared} → Reach s t → Step t u → Reach s u

-- No message is enqueued between the report of an event and the moment when its worker takes it.
abbrev pub IsPolite : {s t : Shared} → Step s t → Type 0
IsPolite {s} (send ctl msg f) = s.reported ≡ 0
IsPolite {s} (report k f e) = Unit
IsPolite {s} (take n e) = Unit
IsPolite {s} (sent n k e) = Unit
IsPolite {s} (rearm n f e) = Unit
IsPolite {s} (free n f e) = Unit

abbrev pub ArePolite : {s t : Shared} → Reach s t → Type 0
ArePolite here = Unit
ArePolite (next r st) = ArePolite r × IsPolite st

-- After an `enqueue_write`: no registration is missed if the message does not fit or a worker has the
-- connection, and else it is missed exactly if `EPOLL_CTL_MOD` fails.
unfoldable pub missed_by : Bool → List ℕ → Socket → Bool → Bool
missed_by ctl msg conn before =
    if conn.in_handler || leb buff_size (length conn.buffers.write_buf + length msg)
    then before
    else not ctl

-- `EPOLL_CTL_MOD` failed in an `enqueue_write`, and the connection was not registered again since.
abbrev pub is_missed : {s t : Shared} → Reach s t → Bool
is_missed here = false
is_missed (next {t} r (send ctl msg f)) = missed_by ctl msg t.socket (is_missed r)
is_missed (next r (report k f e)) = is_missed r
is_missed (next r (take n e)) = is_missed r
is_missed (next r (sent n k e)) = is_missed r
is_missed (next r (rearm n f e)) = false
is_missed (next r (free n f e)) = is_missed r

-- The messages that were enqueued, newest first, each with the number of events that were reported and not
-- taken at that time.
abbrev pub enqueued : {s t : Shared} → Reach s t → List (ℕ × List ℕ)
enqueued here = []
enqueued (next {t} r (send ctl msg f)) = (t.reported, msg) ∷ enqueued r
enqueued (next r (report k f e)) = enqueued r
enqueued (next r (take n e)) = enqueued r
enqueued (next r (sent n k e)) = enqueued r
enqueued (next r (rearm n f e)) = enqueued r
enqueued (next r (free n f e)) = enqueued r
