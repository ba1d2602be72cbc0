-- ===== src/Server/Epoll.antt =====
-- agente_c/src/server.c: the types of connections, what epoll is asked to report of each, and the calls
-- that open, arm and arm again. What the system answers is an argument: true where a call succeeds.
use tp_sist_op.Prelude.{
  ℕ, ◌+◌, Bool, true, false, not, List, [], ◌∷◌, ◌++◌, Option, none, some, ◌&&◌, ◌||◌, ◌==◌,
  if◌then◌else◌, leb, ltb, length, take,
}
use tp_sist_op.Jobs.{Message}
use tp_sist_op.Manager.{Sent}
use tp_sist_op.Manager.NodeList.{buff_size}
use tp_sist_op.Manager.Wire.{message_text}
use tp_sist_op.Server.{Connection, enqueue_write}

-- `connection_type_t`.
pub data ConnType : Type 0 where
  tcp_public_listen tcp_local_listen udp_discovery : ConnType
  tcp_client_remote tcp_client_local tcp_outgoing : ConnType

unfoldable pub conn_uses_oneshot : ConnType → Bool
conn_uses_oneshot tcp_client_remote = true
conn_uses_oneshot tcp_client_local = true
conn_uses_oneshot tcp_outgoing = true
conn_uses_oneshot tcp_public_listen = false
conn_uses_oneshot tcp_local_listen = false
conn_uses_oneshot udp_discovery = false

-- `EPOLLIN`, `EPOLLOUT` and `EPOLLONESHOT` of a registration.
pub record Mask : Type 0 where
  pub read : Bool
  pub write : Bool
  pub oneshot : Bool

-- A `connection_t` and its registration, which is `none` once a one-shot event was reported.
pub record Socket : Type 0 where
  pub type : ConnType
  pub buffers : Connection
  pub in_handler : Bool
  pub armed : Option Mask

abbrev pub empty_buffers : Connection
empty_buffers = record { read_buf = []; write_buf = []; write_pos = 0 }

-- A connection that was just made.
unfoldable pub new_socket : ConnType → Mask → Socket
new_socket type events = record {
  type = type;
  buffers = empty_buffers;
  in_handler = false;
  armed = some events;
}

-- `rearm_conn` when `EPOLL_CTL_MOD` succeeds.
unfoldable pub rearm_conn : Socket → Socket
rearm_conn conn = record conn {
  in_handler = false;
  armed =
      some (record { read = true; write = ltb 0 (length conn.buffers.write_buf); oneshot = true });
}

-- `vsnprintf` into `char buf[BUFF_SIZE]`: each format ends its line, and the list of nodes ends its own.
unfoldable pub formatted : Message → List ℕ
unfolding message_text
formatted (Message.nodes line) = take 1023 line
formatted Message.indeterminate = []
formatted msg = take 1023 (message_text msg ++ b'\n' ∷ [])

-- `enqueue_write` as a whole: a message that fits is appended, and a connection that no worker handles is
-- armed for writing, if `EPOLL_CTL_MOD` succeeds.
unfoldable pub post : Bool → List ℕ → Socket → Socket
unfolding enqueue_write
post ctl msg conn =
    let conn' = record conn { buffers = enqueue_write msg conn.buffers } in
    if leb buff_size (length conn.buffers.write_buf + length msg)
    then conn
    else if conn.in_handler || not ctl
    then conn'
    else record conn' { armed = some (record { read = true; write = true; oneshot = true }) }

-- Every connection by its address; `none` has not been made, or was freed.
abbrev pub Live : Type 0
Live = ℕ → Option Socket

unfoldable pub put : ℕ → Option Socket → Live → Live
put conn o live k = if k == conn then o else live k

unfoldable pub on_some : (Socket → Socket) → Option Socket → Option Socket
on_some f none = none
on_some f (some s) = some (f s)

unfoldable pub change : ℕ → (Socket → Socket) → Live → Live
unfolding put on_some
change conn f live = put conn (on_some f (live conn)) live

-- What the manager sent, newest first; `ctl` is the result of `EPOLL_CTL_MOD` on each connection.
unfoldable pub deliver : (ℕ → Bool) → List Sent → Live → Live
unfolding post change formatted
deliver ctl [] live = live
deliver ctl (s ∷ older) live =
    change s.conn (post (ctl s.conn) (formatted s.msg)) (deliver ctl older live)

-- `connect` on a socket that does not block.
pub data ConnectResult : Type 0 where
  connected in_progress refused : ConnectResult

-- The calls of one `connect_remote_node`, with the address that `malloc` returns.
pub record ConnectCalls : Type 0 where
  pub socket : Bool
  pub connect : ConnectResult
  pub malloc : Option ℕ
  pub epoll_add : Bool

unfoldable pub is_refused : ConnectResult → Bool
is_refused connected = false
is_refused in_progress = false
is_refused refused = true

-- The address of the connection, which is registered for the end of the handshake; `none` is NULL.
unfoldable pub connect_remote_node : ConnectCalls → Option (ℕ × Socket)
unfolding is_refused new_socket
connect_remote_node calls =
    if not calls.socket || is_refused calls.connect then none else elim calls.malloc [
      | none ↦ none
      | some conn ↦
          if calls.epoll_add
          then some (
            conn,
            new_socket tcp_outgoing (record { read = false; write = true; oneshot = true }),
          )
          else none
    ]

-- The calls of one round of `handle_accept` in which `accept` gave a connection.
pub record AcceptCalls : Type 0 where
  pub malloc : Option ℕ
  pub epoll_add : Bool

-- The sockets that do not listen accept nothing.
unfoldable pub accepted_type : ConnType → Option ConnType
accepted_type tcp_public_listen = some tcp_client_remote
accepted_type tcp_local_listen = some tcp_client_local
accepted_type udp_discovery = none
accepted_type tcp_client_remote = none
accepted_type tcp_client_local = none
accepted_type tcp_outgoing = none

unfoldable pub accept_one : ConnType → AcceptCalls → Live → Live
unfolding accepted_type new_socket put
accept_one listen_type calls live = elim (accepted_type listen_type) [
  | none ↦ live
  | some type ↦ elim calls.malloc [
    | none ↦ live
    | some new_conn ↦
        if calls.epoll_add
        then put new_conn
            (some (new_socket type (record { read = true; write = false; oneshot = true }))) live
        else live
  ]
]

-- The loop, up to the `accept` that gives no connection.
unfoldable pub handle_accept : ConnType → List AcceptCalls → Live → Live
unfolding accept_one
handle_accept listen_type [] live = live
handle_accept listen_type (calls ∷ more) live =
    handle_accept listen_type more (accept_one listen_type calls live)

-- The calls of one `create_listen_socket`, which ends the process when one of them fails.
pub record ListenCalls : Type 0 where
  pub socket : Bool
  pub setsockopt : Bool
  pub bind : Bool
  pub listen : Bool
  pub malloc : Option ℕ
  pub epoll_add : Bool

unfoldable pub create_listen_socket : ListenCalls → ConnType → Bool → Option (ℕ × Socket)
unfolding new_socket
create_listen_socket calls type is_udp =
    if calls.socket && calls.setsockopt && calls.bind && (is_udp || calls.listen)
    then elim calls.malloc [
      | none ↦ none
      | some conn ↦
          if calls.epoll_add
          then some (conn, new_socket type (record { read = true; write = false; oneshot = false }))
          else none
    ]
    else none

-- How `init_server_sockets` ends: there is no epoll, the process has ended, or the three sockets listen.
pub data Listening : Type 0 where
  no_epoll exited : Listening
  listening : Live → Listening

unfoldable pub add_opened : Option (ℕ × Socket) → Live → Live
unfolding put
add_opened none live = live
add_opened (some (conn, s)) live = put conn (some s) live

unfoldable pub listen_all :
    Option (ℕ × Socket) → Option (ℕ × Socket) → Option (ℕ × Socket) → Listening
unfolding add_opened
listen_all (some public_tcp) (some local_tcp) (some udp) = Listening.listening (
    add_opened (some udp)
      (add_opened (some local_tcp) (add_opened (some public_tcp) (λ conn. none))))
listen_all none local_tcp udp = Listening.exited
listen_all (some public_tcp) none udp = Listening.exited
listen_all (some public_tcp) (some local_tcp) none = Listening.exited

unfoldable pub init_server_sockets : Bool → ListenCalls → ListenCalls → ListenCalls → Listening
unfolding create_listen_socket listen_all
init_server_sockets epoll_create1 public_tcp local_tcp udp =
    let sockets =
      listen_all (create_listen_socket public_tcp tcp_public_listen false)
        (create_listen_socket local_tcp tcp_local_listen false)
        (create_listen_socket udp udp_discovery true) in
    if epoll_create1 then sockets else Listening.no_epoll
