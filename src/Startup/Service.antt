-- ===== src/Startup/Service.antt =====
-- The agent from its start on: `main` of agente_c/src/main.c, then the events that the workers of
-- agente_c/src/server.c handle and the rounds of `broadcast_loop`, in any order.
use tp_sist_op.Prelude.{
  ℕ, Bool, true, false, ◌&&◌, ◌||◌, subst, inl, inr, arith, Option-cases, List, [], ◌∷◌, Option,
  none, some, ◌≡◌, refl,
}
use tp_sist_op.Prelude.Int.{ℤ, pos, IsQuantity}
use tp_sist_op.ResourceTypes.{cpu, mem, gpu}
use tp_sist_op.Manager.{recurso, manager_set_ip}
use tp_sist_op.Manager.Events.{Event, step}
use tp_sist_op.Manager.Invariant.{IsValid, manager_init-IsValid}
use tp_sist_op.Manager.Reachable.{step-IsValid}
use tp_sist_op.Server.Epoll.{
  ListenCalls, Listening, Live, Socket, ConnType, tcp_public_listen, tcp_local_listen,
  udp_discovery, conn_uses_oneshot, new_socket, create_listen_socket, add_opened, listen_all,
  init_server_sockets,
}
use tp_sist_op.Server.Worker.{Agent, Answers, Ready, is_broken, worker_step}
use tp_sist_op.Server.Armed.{is_outgoing, IsReady, put-AllHold, choose}
use tp_sist_op.Server.Fresh.{nobody}
use tp_sist_op.Server.Handled.{IsPossible}
use tp_sist_op.Server.Progress.{AllReady}
use tp_sist_op.Server.Settled.{missed, worker_step-AllReady}
use tp_sist_op.Server.Kept.{AreTame}
use tp_sist_op.Server.Forgotten.{worker_step-IsValid}
use tp_sist_op.Startup.{
  Config, BroadcastCalls, Start, udp_discovery_port, read_config, announce_msg, send_udp_broadcast,
  broadcast_round, first_manager, main,
}

-- An event that a worker handles, or a round of the thread that announces the node.
pub data Moment : Type 0 where
  event : Answers → Ready → ℕ → Moment
  round : BroadcastCalls → ℤ → Moment

abbrev pub advance : Config → Agent → Moment → Agent
advance cfg a (event w e conn) = worker_step w e conn a
advance cfg a (round calls now) = record a { manager = (broadcast_round cfg calls now a.manager).1 }

abbrev pub advance_all : Config → Agent → List Moment → Agent
advance_all cfg a [] = a
advance_all cfg a (m ∷ ms) = advance_all cfg (advance cfg a m) ms

-- The connections on which, in an event since they were last handled, `EPOLL_CTL_MOD` of `enqueue_write` fails.
abbrev pub missed_in : (ℕ → Bool) → Moment → ℕ → Bool
missed_in late (event w e conn) = missed late w conn
missed_in late (round calls now) = late

abbrev pub missed_in_all : (ℕ → Bool) → List Moment → ℕ → Bool
missed_in_all late [] = late
missed_in_all late (m ∷ ms) = missed_in_all (missed_in late m) ms

-- `read`, `write` and `malloc` answer as they are documented, an event without an error on a connection that
-- is being made has `EPOLLOUT`, and the lines that come in are tame.
abbrev pub IsAllowed : Agent → Moment → Type 0
IsAllowed a (event w e conn) =
    IsPossible w conn
    × ((s : Socket)
        → a.live conn ≡ some s
        → (is_outgoing s.type ≡ true → is_broken e ≡ false → e.write ≡ true) × AreTame w s.buffers)
IsAllowed a (round calls now) = Unit

abbrev pub AreAllowed : Config → Agent → List Moment → Type 0
AreAllowed cfg a [] = Unit
AreAllowed cfg a (m ∷ ms) = IsAllowed a m × AreAllowed cfg (advance cfg a m) ms

-- The manager is in order, and every connection waits for the events that it needs, but for the bytes to
-- send on one whose registration was missed.
pub record IsSane (late : ℕ → Bool) (a : Agent) : Type 0 where
  pub valid : IsValid a.manager
  pub ready : AllReady late a.live

advance-IsSane :
    (cfg : Config) (late : ℕ → Bool) (a : Agent) (m : Moment)
    → IsAllowed a m
    → IsSane late a
    → IsSane (missed_in late m) (advance cfg a m)
unfolding broadcast_round step
advance-IsSane cfg late a (event w e conn) (p, h) n = record {
  valid = worker_step-IsValid w e conn a (λ s found. (h s found).1) n.valid;
  ready =
      (worker_step-AllReady late w e conn a p (λ s found out fine. (h s found).0 out fine)
        n.ready).0;
}
advance-IsSane cfg late a (round calls now) h n = record {
  valid = step-IsValid a.manager (Event.purge (pos 15) now) tt n.valid;
  ready = n.ready;
}

advance_all-IsSane :
    (cfg : Config) (late : ℕ → Bool) (a : Agent) (ms : List Moment)
    → AreAllowed cfg a ms
    → IsSane late a
    → IsSane (missed_in_all late ms) (advance_all cfg a ms)
advance_all-IsSane cfg late a [] h n = n
advance_all-IsSane cfg late a (m ∷ ms) h n =
    advance_all-IsSane cfg (missed_in late m) (advance cfg a m) ms h.1
      (advance-IsSane cfg late a m h.0 n)

abbrev pub none_missed : ℕ → Bool
none_missed conn = false

abbrev AllListen : Listening → Type 0
AllListen Listening.no_epoll = Unit
AllListen Listening.exited = Unit
AllListen (Listening.listening live) = AllReady none_missed live

abbrev IsOpened : Option (ℕ × Socket) → Type 0
IsOpened none = Unit
IsOpened (some (conn, s)) = IsReady false s

create_listen_socket-IsOpened :
    (calls : ListenCalls) (type : ConnType) (is_udp : Bool)
    → conn_uses_oneshot type ≡ false
    → IsOpened (create_listen_socket calls type is_udp)
unfolding create_listen_socket new_socket
create_listen_socket-IsOpened calls type is_udp never =
    choose IsOpened (calls.socket && calls.setsockopt && calls.bind && (is_udp || calls.listen)) _ _
      (λ ok. elim (Option-cases calls.malloc) [
        | inl failed ↦ rw failed tt
        | inr (conn, e) ↦ rw e (
            choose IsOpened calls.epoll_add _ _
              (λ added. record {
                buffered = ((omega arith, omega arith), omega arith);
                idle = λ u. refl;
                covered = λ u. absurd (cc);
              })
              (λ failed. tt))
      ])
      (λ bad. tt)

add_opened-AllReady :
    (o : Option (ℕ × Socket)) (live : Live)
    → IsOpened o
    → AllReady none_missed live
    → AllReady none_missed (add_opened o live)
unfolding add_opened
add_opened-AllReady none live h all = all
add_opened-AllReady (some (conn, s)) live h all =
    put-AllHold none_missed nobody conn (some s) live h all

listen_all-AllListen :
    (a b c : Option (ℕ × Socket))
    → IsOpened a
    → IsOpened b
    → IsOpened c
    → AllListen (listen_all a b c)
unfolding listen_all
listen_all-AllListen none b c h k l = tt
listen_all-AllListen (some x) none c h k l = tt
listen_all-AllListen (some x) (some y) none h k l = tt
listen_all-AllListen (some x) (some y) (some z) h k l =
    add_opened-AllReady (some z) _ l
      (add_opened-AllReady (some y) _ k (add_opened-AllReady (some x) _ h (λ conn. tt)))

init_server_sockets-AllListen :
    (epoll_create1 : Bool) (public_tcp local_tcp udp : ListenCalls)
    → AllListen (init_server_sockets epoll_create1 public_tcp local_tcp udp)
unfolding init_server_sockets conn_uses_oneshot
init_server_sockets-AllListen epoll_create1 public_tcp local_tcp udp =
    choose AllListen epoll_create1 _ _
      (λ made.
        listen_all-AllListen _ _ _
          (create_listen_socket-IsOpened public_tcp tcp_public_listen false refl)
          (create_listen_socket-IsOpened local_tcp tcp_local_listen false refl)
          (create_listen_socket-IsOpened udp udp_discovery true refl))
      (λ failed. tt)

first_manager-IsValid :
    (cfg : Config)
    → IsQuantity cfg.cpu
    → IsQuantity cfg.mem
    → IsQuantity cfg.gpu
    → IsValid (first_manager cfg)
unfolding first_manager manager_set_ip recurso
first_manager-IsValid cfg c m g =
    let v = manager_init-IsValid cfg.cpu cfg.mem cfg.gpu c m g in
    record {
      sound = elim [ cpu ↦ v.sound cpu | mem ↦ v.sound mem | gpu ↦ v.sound gpu ];
      payable = v.payable;
      jobs_width = v.jobs_width;
      conns_width = v.conns_width;
      nodos_width = v.nodos_width;
    }

abbrev pub started : Config → Live → Agent
started cfg live = record { manager = first_manager cfg; live = live }

-- The agent that starts with five arguments, of which the amounts are quantities, and whose sockets
-- listen, runs with the configuration that it read, and after any events and rounds, in any order, as
-- long as each is allowed in the state that it finds, its manager is in order and every connection is
-- ready, however the calls of `epoll_ctl` end: within its buffers, and, if it is one-shot, registered
-- for reading, or for the end of its handshake, and for writing if bytes wait, unless, in an event since
-- it was last handled, `EPOLL_CTL_MOD` of `enqueue_write` on it was one that fails.
pub main-IsSane :
    (epoll_create1 : Bool) (public_tcp local_tcp udp : ListenCalls) (calls : BroadcastCalls)
    (argv : List (List ℕ)) (cfg : Config) (live : Live) (ms : List Moment)
    → read_config argv ≡ some cfg
    → init_server_sockets epoll_create1 public_tcp local_tcp udp ≡ Listening.listening live
    → IsQuantity cfg.cpu
    → IsQuantity cfg.mem
    → IsQuantity cfg.gpu
    → AreAllowed cfg (started cfg live) ms
    → (main (init_server_sockets epoll_create1 public_tcp local_tcp udp) true calls argv
        ≡ Start.running cfg
            (started cfg live)
            (send_udp_broadcast calls udp_discovery_port (announce_msg cfg)))
      × IsSane (missed_in_all none_missed ms) (advance_all cfg (started cfg live) ms)
unfolding main
main-IsSane epoll_create1 public_tcp local_tcp udp calls argv cfg live ms e k c m g h = (
  rw (e, main) (rw k refl),
  advance_all-IsSane cfg none_missed (started cfg live) ms h (record {
    valid = first_manager-IsValid cfg c m g;
    ready =
        subst AllListen k (init_server_sockets-AllListen epoll_create1 public_tcp local_tcp udp);
  }),
)
