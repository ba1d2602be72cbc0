-- ===== src/Server/Worker.antt =====
-- agente_c/src/server.c: what a worker does with one event that epoll reports, and the agent as a whole:
-- the manager and every connection. Each event is handled alone.
use tp_sist_op.Prelude.{
  ℕ, ◌-◌, Bool, true, false, not, List, [], ◌∷◌, Option, none, some, ◌||◌, map, if◌then◌else◌,
  length, take, ◌==◌,
}
use tp_sist_op.Prelude.Int.{ℤ}
use tp_sist_op.Manager.{ResourceManager}
use tp_sist_op.Manager.Dispatch.{process_message, receive_announce}
use tp_sist_op.Manager.Events.{
  process_disconnect, process_connection_failed, process_connection_ready,
}
use tp_sist_op.Manager.NodeList.{buff_size}
use tp_sist_op.Server.{Connection, handle_tcp_read, pending_bytes, handle_tcp_write}
use tp_sist_op.Server.Epoll.{
  ConnType, tcp_public_listen, tcp_local_listen, udp_discovery, tcp_client_remote, tcp_client_local,
  tcp_outgoing, Socket, Live, ConnectCalls, AcceptCalls, conn_uses_oneshot, rearm_conn, put, change,
  deliver, connect_remote_node, add_opened, handle_accept,
}

pub record Agent : Type 0 where
  pub manager : ResourceManager
  pub live : Live

-- A call of the manager, which sends while it runs.
unfoldable pub call_manager : (ℕ → Bool) → (ResourceManager → ResourceManager) → Agent → Agent
unfolding deliver
call_manager ctl f a =
    let m = f a.manager in
    record { manager = record m { out = [] }; live = deliver ctl m.out a.live }

-- `process_disconnect` or `process_connection_failed`, then `close` and `free`.
unfoldable pub free_conn : (ℕ → Bool) → (ℕ → ResourceManager → ResourceManager) → ℕ → Agent → Agent
unfolding call_manager put
free_conn ctl f conn a =
    let a' = call_manager ctl (f conn) a in record a' { live = put conn none a'.live }

unfoldable pub add_all : List (Option (ℕ × Socket)) → Live → Live
unfolding add_opened
add_all [] live = live
add_all (o ∷ os) live = add_all os (add_opened o live)

unfoldable pub address : Option (ℕ × Socket) → Option ℕ
address none = none
address (some (conn, s)) = some conn

-- `process_message` on a line, with the calls that each `connect_remote_node` makes. If `calls` has more
-- of them than the manager attempts, the connections of the rest are added as well, and nothing points to
-- them.
unfoldable pub take_line : (ℕ → Bool) → ℕ → List ℕ → List ConnectCalls → Agent → Agent
unfolding call_manager process_message connect_remote_node add_all address
take_line ctl conn line calls a =
    let opened = map connect_remote_node calls in
    call_manager ctl (process_message conn line (map address opened))
      (record a { live = add_all opened a.live })

unfoldable pub take_lines :
    (ℕ → Bool) → ℕ → List (List ℕ) → List (List ConnectCalls) → Agent → Agent
unfolding take_line
take_lines ctl conn [] calls a = a
take_lines ctl conn (line ∷ lines) [] a =
    take_lines ctl conn lines [] (take_line ctl conn line [] a)
take_lines ctl conn (line ∷ lines) (c ∷ calls) a =
    take_lines ctl conn lines calls (take_line ctl conn line c a)

-- What `read` gives: the bytes that came, none at the end of the stream; `EAGAIN`; or an error.
pub data ReadResult : Type 0 where
  received : List ℕ → ReadResult
  nothing_yet failed : ReadResult

-- What `write` gives.
pub data WriteResult : Type 0 where
  written : ℕ → WriteResult
  would_block broken : WriteResult

-- The agent, with the connection of the event still there or freed.
pub data Outcome : Type 0 where
  alive : Agent → Outcome
  closed : Agent → Outcome

unfoldable pub on_read :
    (ℕ → Bool) → ReadResult → List (List ConnectCalls) → ℕ → Socket → Agent → Outcome
unfolding free_conn process_disconnect handle_tcp_read take_lines change
on_read ctl nothing_yet calls conn s a = Outcome.alive a
on_read ctl failed calls conn s a = Outcome.closed (free_conn ctl process_disconnect conn a)
on_read ctl (received []) calls conn s a = Outcome.closed (free_conn ctl process_disconnect conn a)
on_read ctl (received (c ∷ bytes)) calls conn s a =
    let (lines, buffers) = handle_tcp_read (c ∷ bytes) s.buffers in
    Outcome.alive (
      take_lines ctl conn lines calls
        (record a { live = put conn (some (record s { buffers = buffers })) a.live }))

unfoldable pub after_write : (ℕ → Bool) → ℕ → Socket → Agent → WriteResult → Outcome
unfolding free_conn process_disconnect handle_tcp_write put
after_write ctl conn s a would_block = Outcome.alive a
after_write ctl conn s a broken = Outcome.closed (free_conn ctl process_disconnect conn a)
after_write ctl conn s a (written n) = Outcome.alive (record a {
  live = put conn (some (record s { buffers = handle_tcp_write n s.buffers })) a.live;
})

-- `handle_tcp_write`, which writes only if bytes wait.
unfoldable pub on_write : (ℕ → Bool) → (ℕ → WriteResult) → ℕ → Socket → Agent → Outcome
unfolding pending_bytes after_write
on_write ctl write conn s a =
    let waiting = length (pending_bytes s.buffers) in
    if waiting == 0 then Outcome.alive a else after_write ctl conn s a (write waiting)

-- `handle_outgoing_connection_event`: `SO_ERROR` could be read and is zero, or not.
unfoldable pub handle_outgoing_connection_event : (ℕ → Bool) → Bool → ℕ → Socket → Agent → Outcome
unfolding free_conn process_connection_failed process_connection_ready call_manager put
handle_outgoing_connection_event ctl false conn s a =
    Outcome.closed (free_conn ctl process_connection_failed conn a)
handle_outgoing_connection_event ctl true conn s a = Outcome.alive (
    call_manager ctl (process_connection_ready conn)
      (record a { live = put conn (some (record s { type = ConnType.tcp_client_remote })) a.live }))

-- A datagram: the address of its sender, its bytes, and the time when it is read.
pub record Incoming : Type 0 where
  pub sender_ip : List ℕ
  pub bytes : List ℕ
  pub now : ℤ

-- The string in a buffer, up to its first zero.
unfoldable pub c_string : List ℕ → List ℕ
c_string [] = []
c_string (c ∷ s) = let rest = c_string s in if c == 0 then [] else c ∷ rest

-- The loop, up to the `recvfrom` that fails; a datagram is cut to `BUFF_SIZE - 1` bytes.
unfoldable pub handle_udp_read : List Incoming → ResourceManager → ResourceManager
unfolding receive_announce c_string
handle_udp_read [] m = m
handle_udp_read (d ∷ ds) m =
    handle_udp_read ds (receive_announce d.sender_ip (c_string (take 1023 d.bytes)) d.now m)

-- The flags of an event: `EPOLLERR` or `EPOLLHUP`, `EPOLLIN` and `EPOLLOUT`.
pub record Ready : Type 0 where
  pub error : Bool
  pub read : Bool
  pub write : Bool

-- What the system answers while one event is handled; `read` and `write` are asked for a number of bytes.
pub record Answers : Type 0 where
  pub ctl : ℕ → Bool
  pub read : ℕ → ReadResult
  pub connects : List (List ConnectCalls)
  pub write : ℕ → WriteResult
  pub connected : Bool
  pub accepts : List AcceptCalls
  pub datagrams : List Incoming
  pub rearm : Bool

-- `BUFF_SIZE - conn->read_pos - 1`.
abbrev pub room : Connection → ℕ
room conn = buff_size - length conn.read_buf - 1

-- The `switch` of `EPOLLIN`: for the sockets that listen, for datagrams, and for TCP connections.
unfoldable pub read_switch : ConnType → Outcome → Outcome → Outcome → Outcome
read_switch tcp_public_listen accepted datagrams tcp = accepted
read_switch tcp_local_listen accepted datagrams tcp = accepted
read_switch udp_discovery accepted datagrams tcp = datagrams
read_switch tcp_client_remote accepted datagrams tcp = tcp
read_switch tcp_client_local accepted datagrams tcp = tcp
read_switch tcp_outgoing accepted datagrams tcp = tcp

unfoldable pub on_epollin : Answers → ℕ → Socket → Agent → Outcome
unfolding read_switch handle_accept handle_udp_read on_read call_manager
on_epollin w conn s a =
    read_switch s.type (Outcome.alive (record a { live = handle_accept s.type w.accepts a.live }))
      (Outcome.alive (call_manager w.ctl (handle_udp_read w.datagrams) a))
      (on_read w.ctl (w.read (room s.buffers)) w.connects conn s a)

-- The `switch` of `EPOLLOUT`: for a client, for a connection that is being made, and for the rest.
unfoldable pub write_switch : ConnType → Outcome → Outcome → Outcome → Outcome
write_switch tcp_public_listen client outgoing other = other
write_switch tcp_local_listen client outgoing other = other
write_switch udp_discovery client outgoing other = other
write_switch tcp_client_remote client outgoing other = client
write_switch tcp_client_local client outgoing other = client
write_switch tcp_outgoing client outgoing other = outgoing

unfoldable pub on_epollout : Answers → ℕ → Socket → Agent → Outcome
unfolding write_switch on_write handle_outgoing_connection_event
on_epollout w conn s a =
    write_switch s.type (on_write w.ctl w.write conn s a)
      (handle_outgoing_connection_event w.ctl w.connected conn s a) (Outcome.alive a)

-- With what is known of the connection.
unfoldable pub at : (ℕ → Socket → Agent → Outcome) → ℕ → Agent → Outcome
at f conn a = elim (a.live conn) [ none ↦ Outcome.alive a | some s ↦ f conn s a ]

-- The next stage, unless the connection was freed.
unfoldable pub and_then : (Agent → Outcome) → Outcome → Outcome
and_then f (Outcome.alive a) = f a
and_then f (Outcome.closed a) = Outcome.closed a

-- A stage that an event asks for, or not.
unfoldable pub when : Bool → (Agent → Outcome) → Agent → Outcome
when true f a = f a
when false f a = Outcome.alive a

-- `rearm_conn`, and what follows when it fails.
unfoldable pub rearm_or_free : (ℕ → Bool) → Bool → ℕ → Agent → Outcome
unfolding rearm_conn change free_conn process_disconnect
rearm_or_free ctl true conn a = Outcome.alive (record a { live = change conn rearm_conn a.live })
rearm_or_free ctl false conn a = Outcome.closed (free_conn ctl process_disconnect conn a)

unfoldable pub agent_of : Outcome → Agent
agent_of (Outcome.alive a) = a
agent_of (Outcome.closed a) = a

-- The kernel reports a one-shot event once, and the worker takes the connection.
unfoldable pub take_conn : Socket → Socket
unfolding conn_uses_oneshot
take_conn s = if conn_uses_oneshot s.type then record s { in_handler = true; armed = none } else s

unfoldable pub is_broken : Ready → Bool
is_broken e = e.error || not (e.read || e.write)

-- The body of the loop of `worker_thread_loop`.
unfoldable pub handle_event : Answers → Ready → ℕ → Socket → Agent → Outcome
unfolding take_conn is_broken free_conn process_disconnect at and_then when on_epollin on_epollout
    rearm_or_free conn_uses_oneshot put
handle_event w e conn s a =
    let a0 = record a { live = put conn (some (take_conn s)) a.live } in
    if is_broken e
    then Outcome.closed (free_conn w.ctl process_disconnect conn a0)
    else and_then (when (conn_uses_oneshot s.type) (rearm_or_free w.ctl w.rearm conn)) (
        and_then (when e.write (at (on_epollout w) conn)) (when e.read (at (on_epollin w) conn) a0))

-- An event of a connection that is registered; epoll reports no other.
unfoldable pub worker_step : Answers → Ready → ℕ → Agent → Agent
unfolding handle_event at agent_of
worker_step w e conn a = agent_of (at (handle_event w e) conn a)
