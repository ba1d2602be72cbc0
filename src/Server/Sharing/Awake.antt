-- ===== src/Server/Sharing/Awake.antt =====
-- No wake-up is lost: bytes that wait are never left to nobody (agente_c/src/server.c).
use tp_sist_op.Prelude.{
  ◌<◌, ◌+◌, ℕ, List, Bool, true, false, ◌≡◌, sym, ◌∙◌, inl, inr, arith, leb, length, Bool-cases,
}
use tp_sist_op.Manager.NodeList.{buff_size}
use tp_sist_op.Server.Epoll.{Socket, tcp_client_remote, rearm_conn, post}
use tp_sist_op.Server.Armed.{covers, waiting, is_outgoing, covers_all, covers-less, post-in_handler}
use tp_sist_op.Server.Sharing.{
  Shared, Step, report, take, send, sent, rearm, free, Reach, here, next, idle, disarm, mark,
  missed_by, is_missed,
}

-- The registration of a connection whose handshake is over covers what it waits for, but for the bytes to
-- send if their registration was missed.
abbrev pub wakes : Bool → Socket → Bool
wakes missed conn =
    covers tcp_client_remote (waiting missed (length conn.buffers.write_buf)) conn.armed

-- While it is not freed: `in_handler` tells of a worker, and a connection that no worker has, and that no
-- reported event leads a worker to, is registered for what it waits for.
pub record IsAwake (missed : Bool) (s : Shared) : Type 0 where
  pub handled : s.freed ≡ false → s.socket.in_handler ≡ true → 0 < s.handling
  pub woken : s.freed ≡ false → s.reported ≡ 0 → s.handling ≡ 0 → wakes missed s.socket ≡ true

rearm_conn-wakes : (conn : Socket) → wakes false (rearm_conn conn) ≡ true
unfolding rearm_conn covers is_outgoing
rearm_conn-wakes conn = ground arith

-- A message that is enqueued on a connection that nobody handles.
post-wakes :
    (missed ctl : Bool) (msg : List ℕ) (conn : Socket)
    → conn.in_handler ≡ false
    → wakes missed conn ≡ true
    → wakes (missed_by ctl msg conn missed) (post ctl msg conn) ≡ true
unfolding post missed_by
post-wakes missed true msg conn idle w =
    rw idle (elim (Bool-cases (leb buff_size (length conn.buffers.write_buf + length msg))) [
      | inl full ↦ rw full w
      | inr fits ↦ rw fits (covers_all tcp_client_remote _)
    ])
post-wakes missed false msg conn idle w =
    rw idle (elim (Bool-cases (leb buff_size (length conn.buffers.write_buf + length msg))) [
      | inl full ↦ rw full w
      | inr fits ↦
          rw fits
            (covers-less tcp_client_remote missed (length conn.buffers.write_buf) conn.armed w)
    ])

Step-IsAwake :
    {s t u : Shared} (r : Reach s t) (st : Step t u)
    → IsAwake (is_missed r) t
    → IsAwake (is_missed (next r st)) u
unfolding disarm mark rearm_conn
Step-IsAwake r (report k f e) a = record {
  handled = a.handled;
  woken = λ f' z. absurd (omega arith);
}
Step-IsAwake r (take n e) a = record {
  handled = λ f i. omega arith;
  woken = λ f z h. absurd (omega arith);
}
Step-IsAwake {t} r (send ctl msg f) a = record {
  handled = λ f' i. a.handled f' (sym (post-in_handler ctl msg t.socket) ∙ i);
  woken = λ f' z h. elim (Bool-cases t.socket.in_handler) [
    | inl busy ↦ absurd (omega (arith, a.handled f' busy))
    | inr idle ↦ post-wakes (is_missed r) ctl msg t.socket idle (a.woken f' z h)
  ];
}
Step-IsAwake r (sent n k e) a = record {
  handled = a.handled;
  woken = λ f z h. absurd (omega arith);
}
Step-IsAwake {t} r (rearm n f e) a = record {
  handled = λ f' i. absurd (cc);
  woken = λ f' z h. rearm_conn-wakes t.socket;
}
Step-IsAwake r (free n f e) a = record {
  handled = λ f' i. absurd (cc);
  woken = λ f' z h. absurd (cc);
}

-- However the workers, the kernel and the threads that send take turns, and whether `EPOLL_CTL_MOD` of
-- `enqueue_write` succeeds or fails, from a connection that is registered for what it waits for and that
-- nobody handles: until it is freed, either a worker has it, or an event on it was reported, which leads
-- a worker to it, or it is registered for reading, and for writing if its buffer is not empty, unless
-- the last `EPOLL_CTL_MOD` of `enqueue_write` since a worker armed it failed.
pub Reach-IsAwake :
    {conn : Socket} {t : Shared}
    → conn.in_handler ≡ false
    → wakes false conn ≡ true
    → (r : Reach (idle conn) t) → IsAwake (is_missed r) t
Reach-IsAwake {conn} i w here = record { handled = λ f h. absurd (cc); woken = λ f z h. w }
Reach-IsAwake i w (next r st) = Step-IsAwake r st (Reach-IsAwake i w r)
