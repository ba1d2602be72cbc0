-- ===== src/Tests/Service.antt =====
-- The start of the agent, its announcements and its events at concrete states.
use tp_sist_op.Prelude.{
  ℕ, ◌≤◌, true, false, List, [], ◌∷◌, ◌++◌, subst, All, none, some, ◌≡◌, refl, arith, leb, length,
  if◌then◌else◌,
}
use tp_sist_op.Prelude.Int.{pos}
use tp_sist_op.Text.Scan.{literal}
use tp_sist_op.Parsing.{scan_id, parse_amount, parse_reserve, parse_release}
use tp_sist_op.Manager.{ResourceManager, manager_init}
use tp_sist_op.Manager.Invariant.{IsValid, manager_init-IsValid}
use tp_sist_op.Server.Epoll.{Socket, Live, put, tcp_client_remote}
use tp_sist_op.Server.Worker.{
  Agent, Answers, Ready, ReadResult, WriteResult, Outcome, agent_of, handle_event, worker_step,
}
use tp_sist_op.Server.Armed.{IsReady, covers, is_outgoing, put-AllHold}
use tp_sist_op.Server.Fresh.{nobody}
use tp_sist_op.Server.Handled.{IsPossible}
use tp_sist_op.Server.Progress.{AllReady}
use tp_sist_op.Server.Settled.{missed, worker_step-AllReady}
use tp_sist_op.Server.Staged.{IsSettled}
use tp_sist_op.Server.{split_lines}
use tp_sist_op.Server.Kept.{IsTame, AreTame, IsForgotten}
use tp_sist_op.Server.Forgotten.{handle_event-IsForgotten}
use tp_sist_op.Startup.{Config, BroadcastCalls, announce_msg}
use tp_sist_op.Startup.Service.{none_missed}
use tp_sist_op.Startup.Heartbeat.{Tick}

abbrev pub node_ip : List ℕ
node_ip = b'1' ∷ b'0' ∷ b'.' ∷ b'1' ∷ []

abbrev other_ip : List ℕ
other_ip = b'1' ∷ b'0' ∷ b'.' ∷ b'2' ∷ []

abbrev config : Config
config = record { ip = node_ip; port = pos 8100; cpu = pos 4; mem = pos 8192; gpu = pos 0 }

abbrev listener : ResourceManager
listener = manager_init (pos 2) (pos 16) (pos 1)

listener-IsValid : IsValid listener
listener-IsValid =
    manager_init-IsValid (pos 2) (pos 16) (pos 1) (omega arith, refl) (omega arith, refl)
      (omega arith, refl)

abbrev pub all_work : BroadcastCalls
all_work = record { socket = true; setsockopt = true; sendto = true }

-- Two rounds, with an announcement and a text that is none between them.
abbrev history : List Tick
history =
    Tick.round config all_work (pos 15)
    ∷ Tick.heard other_ip other_ip (pos 16)
    ∷ Tick.heard node_ip (announce_msg config) (pos 18)
    ∷ Tick.round config all_work (pos 30)
    ∷ []

-- A client that has half of a line, and bytes that wait.
abbrev client : Socket
client = record {
  type = tcp_client_remote;
  buffers = record { read_buf = b'G' ∷ []; write_buf = b'A' ∷ b'B' ∷ []; write_pos = 1 };
  in_handler = false;
  armed = some (record { read = true; write = true; oneshot = true });
}

client-IsReady : IsReady false client
unfolding covers is_outgoing
client-IsReady = record {
  buffered = ((omega arith, omega arith), omega arith);
  idle = λ u. refl;
  covered = λ u. refl;
}

abbrev clients : Live
clients = put 7 (some client) (λ conn. none)

clients-AllReady : AllReady none_missed clients
clients-AllReady =
    put-AllHold none_missed nobody 7 (some client) (λ conn. none) client-IsReady (λ conn. tt)

abbrev agent : Agent
agent = record { manager = listener; live = clients }

-- The rest of the line comes, `write` takes one byte, and `EPOLL_CTL_MOD` fails in `enqueue_write`.
abbrev some_bytes : ℕ → ReadResult
some_bytes n =
    if leb 3 n then ReadResult.received (b'E' ∷ b'\n' ∷ b'R' ∷ []) else ReadResult.nothing_yet

abbrev one_byte : ℕ → WriteResult
one_byte n = if leb 1 n then WriteResult.written 1 else WriteResult.would_block

abbrev pub answers : Answers
answers = record {
  ctl = λ k. false;
  read = some_bytes;
  connects = [];
  write = one_byte;
  connected = true;
  accepts = [];
  datagrams = [];
  rearm = true;
}

some_bytes-length :
    (n : ℕ) (bytes : List ℕ) → some_bytes n ≡ ReadResult.received bytes → length bytes ≤ n
some_bytes-length n bytes e = ground arith

one_byte-le : (n k : ℕ) → one_byte n ≡ WriteResult.written k → k ≤ n
one_byte-le n k e = ground arith

pub answers-IsPossible : IsPossible answers 7
answers-IsPossible = record {
  reads = some_bytes-length;
  writes = one_byte-le;
  fresh = tt;
  fresh_accepted = tt;
}

abbrev pub both : Ready
both = record { error = false; read = true; write = true }

worker_step-AllReady_example :
    AllReady (missed none_missed answers 7) (worker_step answers both 7 agent).live
    × IsSettled ((worker_step answers both 7 agent).live 7)
worker_step-AllReady_example =
    worker_step-AllReady none_missed answers both 7 agent answers-IsPossible (λ s e out fine. refl)
      clients-AllReady

ge-IsTame : IsTame (b'G' ∷ b'E' ∷ [])
unfolding parse_reserve parse_release parse_amount scan_id literal
ge-IsTame = record { asked = λ id t n e. cc; released = λ id t n e. cc }

client-AreTame : AreTame answers client.buffers
unfolding split_lines
client-AreTame bytes e =
    let same : (b'E' ∷ b'\n' ∷ b'R' ∷ []) ≡ bytes = cc in
    subst (λ u. All IsTame (split_lines (client.buffers.read_buf ++ u)).0) same (ge-IsTame, tt)

handle_event-IsForgotten_example :
    IsValid (agent_of (handle_event answers both 7 client agent)).manager
    × ((a' : Agent)
        → handle_event answers both 7 client agent ≡ Outcome.closed a'
        → IsForgotten 7 a'.manager)
handle_event-IsForgotten_example =
    handle_event-IsForgotten answers both 7 client agent client-AreTame listener-IsValid
