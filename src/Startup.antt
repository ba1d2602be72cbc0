-- ===== src/Startup.antt =====
-- agente_c/src/main.c: the configuration, the announcement and the round of the thread that sends it,
-- with `send_udp_broadcast` of agente_c/src/server.c.
pub mod Announcement
pub mod Heartbeat
pub mod Service
use tp_sist_op.Prelude.{
  ℕ, Bool, true, false, List, [], ◌∷◌, ◌++◌, Option, none, some, if◌then◌else◌, take,
}
use tp_sist_op.Prelude.Int.{ℤ, pos}
use tp_sist_op.Text.{print_int}
use tp_sist_op.Text.Scan.{scan_int}
use tp_sist_op.Parsing.{cpu_name, mem_name, gpu_name, announce_word}
use tp_sist_op.Nodes.{tabla_nodos_purge}
use tp_sist_op.Manager.{ResourceManager, manager_init, manager_set_ip}
use tp_sist_op.Manager.Events.{manager_destroy}
use tp_sist_op.Server.Epoll.{Listening}
use tp_sist_op.Server.Worker.{Agent}

abbrev pub udp_discovery_port : ℕ
udp_discovery_port = 12529

-- `config_t`.
pub record Config : Type 0 where
  pub ip : List ℕ
  pub port : ℤ
  pub cpu : ℤ
  pub mem : ℤ
  pub gpu : ℤ

-- `(int) strtol(s, NULL, 10)`, which is what `%d` reads, and 0 where it reads nothing.
unfoldable pub atoi : List ℕ → ℤ
unfolding scan_int
atoi s = elim (scan_int s) [ none ↦ pos 0 | some (n, rest) ↦ n ]

-- `argv` has the name of the program and five arguments; `strncpy` into `char ip[16]` keeps 15 bytes.
unfoldable pub read_config : List (List ℕ) → Option Config
unfolding atoi
read_config (name ∷ ip ∷ port ∷ cpu ∷ mem ∷ gpu ∷ []) =
    some
      (record { ip = take 15 ip; port = atoi port; cpu = atoi cpu; mem = atoi mem; gpu = atoi gpu })
read_config argv = none

-- `%s:%d`.
unfoldable pub print_component : List ℕ → ℤ → List ℕ
unfolding print_int
print_component name n = name ++ b':' ∷ print_int n

-- `"ANNOUNCE %d cpu:%d mem:%d gpu:%d\n"`.
unfoldable pub announce_text : Config → List ℕ
unfolding print_int print_component
announce_text cfg =
    announce_word
    ++ b' '
      ∷ (print_int cfg.port
          ++ b' '
            ∷ (print_component cpu_name cfg.cpu
                ++ b' '
                  ∷ (print_component mem_name cfg.mem
                      ++ b' ' ∷ (print_component gpu_name cfg.gpu ++ b'\n' ∷ []))))

-- `snprintf` into `char announce_msg[256]` keeps 255 bytes.
unfoldable pub announce_msg : Config → List ℕ
unfolding announce_text
announce_msg cfg = take 255 (announce_text cfg)

-- What the system answers to `socket`, `setsockopt` and `sendto`: true where the call succeeds.
pub record BroadcastCalls : Type 0 where
  pub socket : Bool
  pub setsockopt : Bool
  pub sendto : Bool

-- A datagram that was sent, to every host of the network.
pub record Datagram : Type 0 where
  pub port : ℕ
  pub message : List ℕ

unfoldable pub send_udp_broadcast : BroadcastCalls → ℕ → List ℕ → Option Datagram
send_udp_broadcast calls port message =
    if calls.socket
    then if calls.setsockopt
      then if calls.sendto then some (record { port = port; message = message }) else none
      else none
    else none

-- One round of `broadcast_loop`, at the time `now`.
unfoldable pub broadcast_round :
    Config → BroadcastCalls → ℤ → ResourceManager → Option Datagram × ResourceManager
unfolding send_udp_broadcast announce_msg tabla_nodos_purge
broadcast_round cfg calls now m = (
  send_udp_broadcast calls udp_discovery_port (announce_msg cfg),
  record m { nodos = tabla_nodos_purge m.nodos (pos 15) now },
)

-- How the start goes: the usage is printed, there is no epoll, a socket does not listen, a thread cannot be
-- made, or the agent runs, with the datagram that was sent first.
pub data Start : Type 0 where
  usage : Start
  network_failure : ResourceManager → Start
  socket_failure : Start
  thread_failure : Option Datagram → Start
  running : Config → Agent → Option Datagram → Start

unfoldable pub first_manager : Config → ResourceManager
unfolding manager_init manager_set_ip
first_manager cfg = manager_set_ip cfg.ip (manager_init cfg.cpu cfg.mem cfg.gpu)

-- `main` up to the point where the threads run: `network` is the result of `init_server_sockets`, and
-- `threads` that of the calls of `pthread_create`.
unfoldable pub main : Listening → Bool → BroadcastCalls → List (List ℕ) → Start
unfolding read_config first_manager manager_destroy send_udp_broadcast announce_msg
main network threads calls argv = elim (read_config argv) [
  | none ↦ Start.usage
  | some cfg ↦ elim network [
    | Listening.no_epoll ↦ Start.network_failure (manager_destroy (first_manager cfg))
    | Listening.exited ↦ Start.socket_failure
    | Listening.listening live ↦
        let sent = send_udp_broadcast calls udp_discovery_port (announce_msg cfg) in
        if threads
        then Start.running cfg (record { manager = first_manager cfg; live = live }) sent
        else Start.thread_failure sent
  ]
]
