-- ===== src/Server/Handled.antt =====
-- The stages of an event of agente_c/src/server.c: each keeps every other connection ready, and the one of
-- the event in the hands of its worker until it is armed again or freed.
use tp_sist_op.Prelude.{
  ℕ, suc, ◌≤◌, Bool, true, false, List, [], ◌∷◌, ◌++◌, Option, none, some, ◌≡◌, ◌≢◌, refl, arith,
  ◌==◌, length, length-append, map, All,
}
use tp_sist_op.Manager.{ResourceManager}
use tp_sist_op.Manager.Dispatch.{process_message}
use tp_sist_op.Manager.Events.{
  process_disconnect, process_connection_failed, process_connection_ready,
}
use tp_sist_op.Server.{
  Connection, push_byte, split_lines, handle_tcp_read, handle_tcp_write, pending_bytes,
}
use tp_sist_op.Server.Stream.{handle_tcp_write-pending}
use tp_sist_op.Server.Epoll.{
  ConnType, tcp_client_remote, Socket, ConnectCalls, put, connect_remote_node,
}
use tp_sist_op.Server.Worker.{
  Agent, call_manager, free_conn, add_all, take_line, take_lines, ReadResult, WriteResult, Outcome,
  on_read, on_write, after_write, address, handle_outgoing_connection_event, Answers, room,
}
use tp_sist_op.Server.Armed.{Records, IsWithin, IsBusy, AllHold, call_manager-AllHold, choose}
use tp_sist_op.Server.Fresh.{
  nobody, taken_by, Held, put_same, put_end-AllHold, put_own-AllHold, retype-AllHold, add_all-Held,
}

-- What a stage leaves.
abbrev pub Leaves : (ℕ → Bool) → Option ConnType → ℕ → Outcome → Type 0
Leaves late t conn (Outcome.alive a) = AllHold late (taken_by t conn) a.live
Leaves late t conn (Outcome.closed a) = AllHold late nobody a.live × (a.live conn ≡ none)

-- The answers of the system are what its documentation allows: `read` and `write` give no more than they
-- are asked for, and `malloc` gives no address that is in use by the connection. Every call may fail.
pub record IsPossible (w : Answers) (conn : ℕ) : Type 0 where
  pub reads : (n : ℕ) (bytes : List ℕ) → w.read n ≡ ReadResult.received bytes → length bytes ≤ n
  pub writes : (n k : ℕ) → w.write n ≡ WriteResult.written k → k ≤ n
  pub fresh : All (All (λ c. c.malloc ≢ some conn)) w.connects
  pub fresh_accepted : All (λ c. c.malloc ≢ some conn) w.accepts

-- What is left of the input is no longer than the input.
push_byte-length :
    (c : ℕ) (q : List (List ℕ) × List ℕ) → length (push_byte c q).1 ≤ suc (length q.1)
unfolding push_byte
push_byte-length c ([], rest) = omega arith
push_byte-length c (line ∷ lines, rest) = omega arith

split_lines-length : (s : List ℕ) → length (split_lines s).1 ≤ length s
unfolding split_lines
split_lines-length [] = omega arith
split_lines-length (c ∷ s) =
    ground (arith, split_lines-length s, push_byte-length c (split_lines s))

handle_tcp_read-IsWithin :
    (bytes : List ℕ) (c : Connection)
    → IsWithin c
    → length bytes ≤ room c
    → IsWithin (handle_tcp_read bytes c).1
unfolding handle_tcp_read
handle_tcp_read-IsWithin bytes c h k = (
  h.0,
  omega (arith, h.1, split_lines-length (c.read_buf ++ bytes), length-append c.read_buf bytes),
)

module _ (late : ℕ → Bool) (t : Option ConnType) (conn : ℕ) where
  module _ (ctl : ℕ → Bool) (shown : Records late ctl) where
    take_line-Held :
        (line : List ℕ) (calls : List ConnectCalls) (a : Agent)
        → All (λ c. c.malloc ≢ some conn) calls
        → Held late t conn a.live
        → Held late t conn (take_line ctl conn line calls a).live
    unfolding take_line
    take_line-Held line calls a fresh h =
        call_manager-AllHold late (taken_by t conn) ctl shown
          (process_message conn line (map address (map connect_remote_node calls)))
          (record a { live = add_all (map connect_remote_node calls) a.live })
          (add_all-Held late t conn calls a.live fresh h)

    take_lines-Held :
        (lines : List (List ℕ)) (calls : List (List ConnectCalls)) (a : Agent)
        → All (All (λ c. c.malloc ≢ some conn)) calls
        → Held late t conn a.live
        → Held late t conn (take_lines ctl conn lines calls a).live
    unfolding take_lines
    take_lines-Held [] calls a fresh h = h
    take_lines-Held (line ∷ lines) [] a fresh h =
        take_lines-Held lines [] _ tt (take_line-Held line [] a tt h)
    take_lines-Held (line ∷ lines) (c ∷ calls) a fresh h =
        take_lines-Held lines calls _ fresh.1 (take_line-Held line c a fresh.0 h)

    pub freed-Leaves :
        (f : ℕ → ResourceManager → ResourceManager) (a : Agent)
        → Held late t conn a.live
        → Leaves late t conn (Outcome.closed (free_conn ctl f conn a))
    unfolding free_conn
    freed-Leaves f a h = (
      put_end-AllHold late t conn none _ tt
          (call_manager-AllHold late (taken_by t conn) ctl shown (f conn) a h),
      put_same conn none (call_manager ctl (f conn) a).live,
    )

-- The handlers of a connection that a worker has.
module _ (late : ℕ → Bool) (w : Answers) (shown : Records late w.ctl) (conn : ℕ)
    (p : IsPossible w conn) (s : Socket) (a : Agent) (busy : IsBusy s.type s)
    (h : AllHold late (taken_by (some s.type) conn) a.live) where
  pub on_read-Leaves :
      (r : ReadResult)
      → ((bytes : List ℕ) → r ≡ ReadResult.received bytes → length bytes ≤ room s.buffers)
      → Leaves late (some s.type) conn (on_read w.ctl r w.connects conn s a)
  unfolding on_read
  on_read-Leaves ReadResult.nothing_yet k = h
  on_read-Leaves ReadResult.failed k =
      freed-Leaves late (some s.type) conn w.ctl shown process_disconnect a h
  on_read-Leaves (ReadResult.received []) k =
      freed-Leaves late (some s.type) conn w.ctl shown process_disconnect a h
  on_read-Leaves (ReadResult.received (c ∷ bytes)) k =
      take_lines-Held late (some s.type) conn w.ctl shown _ w.connects _ p.fresh (
        put_own-AllHold late (some s.type) conn _ a.live
          (record {
            buffered =
                handle_tcp_read-IsWithin (c ∷ bytes) s.buffers busy.buffered (k (c ∷ bytes) refl);
            typed = refl;
          })
          h)

  after_write-Leaves :
      (r : WriteResult)
      → w.write (length (pending_bytes s.buffers)) ≡ r
      → Leaves late (some s.type) conn (after_write w.ctl conn s a r)
  unfolding after_write
  after_write-Leaves WriteResult.would_block e = h
  after_write-Leaves WriteResult.broken e =
      freed-Leaves late (some s.type) conn w.ctl shown process_disconnect a h
  after_write-Leaves (WriteResult.written n) e =
      put_own-AllHold late (some s.type) conn _ a.live
        (record {
          buffered = (
            (handle_tcp_write-pending n s.buffers busy.buffered.0 (p.writes _ n e)).0,
            unfold handle_tcp_write in ground (arith, busy.buffered),
          );
          typed = refl;
        })
        h

  pub on_write-Leaves : Leaves late (some s.type) conn (on_write w.ctl w.write conn s a)
  unfolding on_write
  on_write-Leaves =
      let waiting = length (pending_bytes s.buffers) in
      choose (Leaves late (some s.type) conn) (waiting == 0) _ _ (λ e. h)
        (λ e. after_write-Leaves (w.write waiting) refl)

  pub outgoing-Leaves :
      (ok : Bool)
      → Leaves late
          (some tcp_client_remote)
          conn
          (handle_outgoing_connection_event w.ctl ok conn s a)
  unfolding handle_outgoing_connection_event
  outgoing-Leaves false =
      freed-Leaves late (some s.type) conn w.ctl shown process_connection_failed a h
  outgoing-Leaves true =
      call_manager-AllHold late (taken_by (some tcp_client_remote) conn) w.ctl shown
        (process_connection_ready conn)
        (record a { live = put conn (some (record s { type = tcp_client_remote })) a.live })
        (retype-AllHold late s.type tcp_client_remote conn _ a.live
          (record { buffered = busy.buffered; typed = refl }) h)
