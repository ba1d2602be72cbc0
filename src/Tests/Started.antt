-- ===== src/Tests/Started.antt =====
-- The agent from its start on, at a concrete run.
use mathlib.Core.Option.{some-injective}
use tp_sist_op.Prelude.{
  ℕ, true, false, sym, ◌∙◌, ◌≢◌, List, [], ◌∷◌, subst, All, none, some, ◌≡◌, refl, arith,
}
use tp_sist_op.Prelude.Int.{pos, wrap}
use tp_sist_op.Text.Scan.{
  literal, skip_spaces, read_digits, scan_nat, to_int, signed, scan_signed, scan_int,
}
use tp_sist_op.Parsing.{scan_id, parse_amount, parse_reserve, parse_release}
use tp_sist_op.Server.Epoll.{
  ConnType, Socket, Live, ListenCalls, Listening, put, new_socket, add_opened, listen_all,
  create_listen_socket, init_server_sockets, tcp_client_remote, udp_discovery, tcp_local_listen,
  tcp_public_listen, handle_accept, accept_one, accepted_type, conn_uses_oneshot,
}
use tp_sist_op.Server.Worker.{
  Agent, Answers, Ready, ReadResult, WriteResult, agent_of, handle_event, worker_step, at, and_then,
  when, on_epollin, on_epollout, read_switch, take_conn, is_broken,
}
use tp_sist_op.Server.Armed.{is_outgoing}
use tp_sist_op.Server.Handled.{IsPossible}
use tp_sist_op.Server.{split_lines}
use tp_sist_op.Server.Kept.{IsTame, AreTame}
use tp_sist_op.Startup.{
  Config, Start, announce_msg, udp_discovery_port, atoi, read_config, send_udp_broadcast, main,
}
use tp_sist_op.Startup.Service.{
  Moment, started, advance, advance_all, AreAllowed, none_missed, missed_in_all, IsSane,
  main-IsSane,
}
use tp_sist_op.Tests.Service.{node_ip, all_work, answers, both, answers-IsPossible}

-- The start with the arguments `agente 10.1 8100 4 9 0`, then a round, a connection from another node, and
-- a line and a half that come over it.
abbrev arguments : List (List ℕ)
arguments =
    (b'a' ∷ [])
    ∷ node_ip
    ∷ (b'8' ∷ b'1' ∷ b'0' ∷ b'0' ∷ [])
    ∷ (b'4' ∷ [])
    ∷ (b'9' ∷ [])
    ∷ (b'0' ∷ [])
    ∷ []

abbrev small_config : Config
small_config = record { ip = node_ip; port = pos 8100; cpu = pos 4; mem = pos 9; gpu = pos 0 }

read_small : read_config arguments ≡ some small_config
unfolding read_config atoi scan_int skip_spaces scan_signed signed scan_nat read_digits to_int wrap
read_small = refl

abbrev listens : ℕ → ListenCalls
listens conn = record {
  socket = true;
  setsockopt = true;
  bind = true;
  listen = true;
  malloc = some conn;
  epoll_add = true;
}

abbrev listener_of : ConnType → Socket
listener_of type = new_socket type (record { read = true; write = false; oneshot = false })

abbrev three_listeners : Live
three_listeners = put 3 (some (listener_of udp_discovery)) (
    put 2 (some (listener_of tcp_local_listen))
      (put 1 (some (listener_of tcp_public_listen)) (λ conn. none)))

three_listen :
    init_server_sockets true (listens 1) (listens 2) (listens 3)
    ≡ Listening.listening three_listeners
unfolding init_server_sockets create_listen_socket listen_all add_opened
three_listen = refl

-- `accept` gives a connection, which is at this address.
abbrev accept_answers : Answers
accept_answers = record {
  ctl = λ k. false;
  read = λ n. ReadResult.nothing_yet;
  connects = [];
  write = λ n. WriteResult.would_block;
  connected = true;
  accepts = record { malloc = some 7; epoll_add = true } ∷ [];
  datagrams = [];
  rearm = true;
}

accept_answers-IsPossible : IsPossible accept_answers 1
accept_answers-IsPossible = record {
  reads = λ n bytes e. cc;
  writes = λ n k e. cc;
  fresh = tt;
  fresh_accepted = (λ e. cc, tt);
}

abbrev input : Ready
input = record { error = false; read = true; write = false }

abbrev moments : List Moment
moments =
    Moment.round all_work (pos 5)
    ∷ Moment.event accept_answers input 1
    ∷ Moment.event answers both 7
    ∷ []

abbrev begun : Agent
begun = started small_config three_listeners

abbrev accepted_client : Socket
accepted_client =
    new_socket tcp_client_remote (record { read = true; write = false; oneshot = true })

listener_there : begun.live 1 ≡ some (listener_of tcp_public_listen)
unfolding put
listener_there = refl

client_there :
    (advance small_config
        (advance small_config begun (Moment.round all_work (pos 5)))
        (Moment.event accept_answers input 1)).live
      7
    ≡ some accepted_client
unfolding worker_step handle_event at and_then when on_epollin on_epollout read_switch handle_accept
    accept_one accepted_type take_conn is_broken conn_uses_oneshot put agent_of new_socket
client_there = refl

e-IsTame : IsTame (b'E' ∷ [])
unfolding parse_reserve parse_release parse_amount scan_id literal
e-IsTame = record { asked = λ id t n e. cc; released = λ id t n e. cc }

accepted-AreTame : AreTame answers accepted_client.buffers
unfolding split_lines new_socket
accepted-AreTame bytes e =
    let same : (b'E' ∷ b'\n' ∷ b'R' ∷ []) ≡ bytes = cc in
    subst (λ u. All IsTame (split_lines u).0) same (e-IsTame, tt)

listener_idle : (s : Socket) → listener_of tcp_public_listen ≡ s → is_outgoing s.type ≢ true
unfolding is_outgoing new_socket
listener_idle s e out =
    let still : false ≡ true = subst (λ u. is_outgoing u.type ≡ true) (sym e) out in cc

moments-AreAllowed : AreAllowed small_config begun moments
moments-AreAllowed = (
  tt,
  (
    (
      accept_answers-IsPossible,
      λ s e.
          let here : listener_of tcp_public_listen ≡ s =
            some-injective _ _ (sym listener_there ∙ e) in
          (λ out fine. absurd (listener_idle s here out), λ bytes e'. cc),
    ),
    (
      (
        answers-IsPossible,
        λ s e.
            let here : accepted_client ≡ s = some-injective _ _ (sym client_there ∙ e) in
            (λ out fine. refl, subst (λ u. AreTame answers u.buffers) here accepted-AreTame),
      ),
      tt,
    ),
  ),
)

main-IsSane_example :
    (main (init_server_sockets true (listens 1) (listens 2) (listens 3)) true all_work arguments
      ≡ Start.running small_config begun
          (send_udp_broadcast all_work udp_discovery_port (announce_msg small_config)))
    × IsSane (missed_in_all none_missed moments) (advance_all small_config begun moments)
main-IsSane_example =
    main-IsSane true (listens 1) (listens 2) (listens 3) all_work arguments small_config
      three_listeners moments read_small three_listen (omega arith, refl) (omega arith, refl)
      (omega arith, refl) moments-AreAllowed
