-- ===== src/Server/Kept.antt =====
-- The calls of the manager that agente_c/src/server.c makes while it handles an event.
use tp_sist_op.Prelude.{
  ℕ, ◌^◌, ◌<◌, Bool, List, [], ◌∷◌, ◌++◌, some, ◌≡◌, inl, inr, map, All, take, Option-cases,
}
use tp_sist_op.Prelude.Int.{ℤ, pos_part, neg_part}
use tp_sist_op.ResourceTypes.{Resource, cpu, mem, gpu}
use tp_sist_op.Parsing.{parse_reserve, parse_release}
use tp_sist_op.Parsing.Announce.{parse_announce}
use tp_sist_op.Jobs.Sweep.{IsFree}
use tp_sist_op.Manager.{ResourceManager, recurso}
use tp_sist_op.Manager.Dispatch.{process_message, receive_announce}
use tp_sist_op.Manager.Events.{
  Event, step, process_disconnect, process_connection_failed, process_connection_ready,
}
use tp_sist_op.Manager.Invariant.{IsValid}
use tp_sist_op.Manager.Lines.{process_message-IsValid}
use tp_sist_op.Manager.Reachable.{step-IsValid}
use tp_sist_op.Manager.Freed.{process_connection_failed-JobsFree, process_disconnect-jobs}
use tp_sist_op.Server.{Connection, split_lines}
use tp_sist_op.Server.Epoll.{ConnectCalls, connect_remote_node}
use tp_sist_op.Server.Worker.{
  Agent, Outcome, ReadResult, Incoming, Answers, call_manager, free_conn, take_line, take_lines,
  c_string, handle_udp_read, room, add_all, address,
}

-- A line that the manager can take: no RESERVE of a negative amount, no RELEASE of 2 ^ 30 or more.
pub record IsTame (line : List ℕ) : Type 0 where
  pub asked :
      (id : ℤ) (t : Resource) (n : ℤ) → parse_reserve line ≡ some (id, t, n) → neg_part n ≡ 0
  pub released :
      (id : ℤ) (t : Resource) (n : ℤ) → parse_release line ≡ some (id, t, n) → pos_part n < 2 ^ 30

-- The lines that the read of an event completes.
abbrev pub AreTame : Answers → Connection → Type 0
AreTame w c =
    (bytes : List ℕ)
    → w.read (room c) ≡ ReadResult.received bytes
    → All IsTame (split_lines (c.read_buf ++ bytes)).0

sent-IsValid : (m : ResourceManager) → IsValid m → IsValid (record m { out = [] })
unfolding recurso
sent-IsValid m v = record {
  sound = elim [ cpu ↦ v.sound cpu | mem ↦ v.sound mem | gpu ↦ v.sound gpu ];
  payable = v.payable;
  jobs_width = v.jobs_width;
  conns_width = v.conns_width;
  nodos_width = v.nodos_width;
}

-- No job points to the connection.
abbrev pub IsForgotten : ℕ → ResourceManager → Type 0
IsForgotten conn m = All (All (IsFree conn)) m.tabla

abbrev pub Keeps : ℕ → Outcome → Type 0
Keeps conn (Outcome.alive a) = IsValid a.manager
Keeps conn (Outcome.closed a) = IsValid a.manager × IsForgotten conn a.manager

pub call_manager-IsValid :
    (ctl : ℕ → Bool) (f : ResourceManager → ResourceManager) (a : Agent)
    → IsValid (f a.manager)
    → IsValid (call_manager ctl f a).manager
unfolding call_manager
call_manager-IsValid ctl f a v = sent-IsValid (f a.manager) v

pub disconnect-Keeps :
    (ctl : ℕ → Bool) (conn : ℕ) (a : Agent)
    → IsValid a.manager
    → Keeps conn (Outcome.closed (free_conn ctl process_disconnect conn a))
unfolding free_conn call_manager step
disconnect-Keeps ctl conn a v = (
  sent-IsValid (process_disconnect conn a.manager)
      (step-IsValid a.manager (Event.disconnect conn) tt v),
  process_disconnect-jobs conn a.manager v,
)

pub failed-Keeps :
    (ctl : ℕ → Bool) (conn : ℕ) (a : Agent)
    → IsValid a.manager
    → Keeps conn (Outcome.closed (free_conn ctl process_connection_failed conn a))
unfolding free_conn call_manager
failed-Keeps ctl conn a v =
    let free = process_connection_failed-JobsFree conn a.manager v in
    (sent-IsValid _ free.valid, free.jobs)

take_line-IsValid :
    (ctl : ℕ → Bool) (conn : ℕ) (line : List ℕ) (calls : List ConnectCalls) (a : Agent)
    → IsTame line
    → IsValid a.manager
    → IsValid (take_line ctl conn line calls a).manager
unfolding take_line
take_line-IsValid ctl conn line calls a t v =
    let opened = map connect_remote_node calls in
    call_manager-IsValid ctl (process_message conn line (map address opened))
      (record a { live = add_all opened a.live })
      (process_message-IsValid line t.asked t.released conn (map address opened) a.manager v)

pub take_lines-IsValid :
    (ctl : ℕ → Bool) (conn : ℕ) (lines : List (List ℕ)) (calls : List (List ConnectCalls))
    (a : Agent)
    → All IsTame lines
    → IsValid a.manager
    → IsValid (take_lines ctl conn lines calls a).manager
unfolding take_lines
take_lines-IsValid ctl conn [] calls a t v = v
take_lines-IsValid ctl conn (line ∷ lines) [] a t v =
    take_lines-IsValid ctl conn lines [] _ t.1 (take_line-IsValid ctl conn line [] a t.0 v)
take_lines-IsValid ctl conn (line ∷ lines) (c ∷ calls) a t v =
    take_lines-IsValid ctl conn lines calls _ t.1 (take_line-IsValid ctl conn line c a t.0 v)

receive_announce-IsValid :
    (ip text : List ℕ) (now : ℤ) (m : ResourceManager)
    → IsValid m
    → IsValid (receive_announce ip text now m)
unfolding receive_announce step
receive_announce-IsValid ip text now m v = elim (Option-cases (parse_announce text)) [
  | inl e ↦ rw (e, receive_announce) v
  | inr (r, e) ↦
      rw (e, receive_announce)
        (step-IsValid m (Event.announce ip r.puerto r.cpu r.mem r.gpu now) tt v)
]

pub handle_udp_read-IsValid :
    (ds : List Incoming) (m : ResourceManager) → IsValid m → IsValid (handle_udp_read ds m)
unfolding handle_udp_read
handle_udp_read-IsValid [] m v = v
handle_udp_read-IsValid (d ∷ ds) m v =
    handle_udp_read-IsValid ds _
      (receive_announce-IsValid d.sender_ip (c_string (take 1023 d.bytes)) d.now m v)

pub ready-IsValid :
    (ctl : ℕ → Bool) (conn : ℕ) (a : Agent)
    → IsValid a.manager
    → IsValid (call_manager ctl (process_connection_ready conn) a).manager
unfolding step
ready-IsValid ctl conn a v =
    call_manager-IsValid ctl (process_connection_ready conn) a
      (step-IsValid a.manager (Event.connection_ready conn) tt v)
