-- ===== src/Server/Forgotten.antt =====
-- The manager under the events of agente_c/src/server.c: its state stays in order, and whatever way a
-- connection is freed, no job points to it any more.
use tp_sist_op.Prelude.{
  ℕ, Bool, true, false, List, [], ◌∷◌, ◌++◌, some, ◌≡◌, refl, sym, subst, ◌∙◌, ap, inl, inr, All,
  length, ◌==◌, Option-cases,
}
use tp_sist_op.Manager.Invariant.{IsValid}
use tp_sist_op.Server.{split_lines, handle_tcp_read, pending_bytes}
use tp_sist_op.Server.Epoll.{
  ConnType, tcp_public_listen, tcp_local_listen, udp_discovery, tcp_client_remote, tcp_client_local,
  tcp_outgoing, conn_uses_oneshot, Socket, put,
}
use tp_sist_op.Server.Worker.{
  Agent, Outcome, ReadResult, WriteResult, Ready, Answers, on_read, after_write, on_write,
  handle_outgoing_connection_event, handle_udp_read, room, on_epollin, on_epollout, write_switch,
  at, and_then, when, rearm_or_free, agent_of, take_conn, is_broken, handle_event, worker_step,
}
use tp_sist_op.Server.Armed.{choose}
use tp_sist_op.Server.Fresh.{put_same}
use tp_sist_op.Server.Progress.{read_switch_holds}
use tp_sist_op.Server.Staged.{when_holds}
use tp_sist_op.Server.Kept.{
  IsTame, AreTame, IsForgotten, Keeps, disconnect-Keeps, failed-Keeps, call_manager-IsValid,
  take_lines-IsValid, handle_udp_read-IsValid, ready-IsValid,
}

write_switch-Keeps :
    (conn : ℕ) (t : ConnType) (client outgoing other : Outcome)
    → Keeps conn client
    → Keeps conn outgoing
    → Keeps conn other
    → Keeps conn (write_switch t client outgoing other)
unfolding write_switch
write_switch-Keeps conn tcp_public_listen client outgoing other h k l = l
write_switch-Keeps conn tcp_local_listen client outgoing other h k l = l
write_switch-Keeps conn udp_discovery client outgoing other h k l = l
write_switch-Keeps conn tcp_client_remote client outgoing other h k l = h
write_switch-Keeps conn tcp_client_local client outgoing other h k l = h
write_switch-Keeps conn tcp_outgoing client outgoing other h k l = k

-- The handlers of a connection.
module _ (w : Answers) (conn : ℕ) (s : Socket) (a : Agent) (v : IsValid a.manager) where
  on_read-Keeps :
      (r : ReadResult)
      → ((bytes : List ℕ)
          → r ≡ ReadResult.received bytes
          → All IsTame (split_lines (s.buffers.read_buf ++ bytes)).0)
      → Keeps conn (on_read w.ctl r w.connects conn s a)
  unfolding on_read handle_tcp_read
  on_read-Keeps ReadResult.nothing_yet t = v
  on_read-Keeps ReadResult.failed t = disconnect-Keeps w.ctl conn a v
  on_read-Keeps (ReadResult.received []) t = disconnect-Keeps w.ctl conn a v
  on_read-Keeps (ReadResult.received (c ∷ bytes)) t =
      take_lines-IsValid w.ctl conn _ w.connects _ (t (c ∷ bytes) refl) v

  after_write-Keeps : (r : WriteResult) → Keeps conn (after_write w.ctl conn s a r)
  unfolding after_write
  after_write-Keeps WriteResult.would_block = v
  after_write-Keeps WriteResult.broken = disconnect-Keeps w.ctl conn a v
  after_write-Keeps (WriteResult.written n) = v

  on_write-Keeps : Keeps conn (on_write w.ctl w.write conn s a)
  unfolding on_write
  on_write-Keeps =
      let waiting = length (pending_bytes s.buffers) in
      choose (Keeps conn) (waiting == 0) _ _ (λ e. v) (λ e. after_write-Keeps (w.write waiting))

  outgoing-Keeps : (ok : Bool) → Keeps conn (handle_outgoing_connection_event w.ctl ok conn s a)
  unfolding handle_outgoing_connection_event
  outgoing-Keeps false = failed-Keeps w.ctl conn a v
  outgoing-Keeps true =
      ready-IsValid w.ctl conn
        (record a {
          live = put conn (some (record s { type = ConnType.tcp_client_remote })) a.live;
        })
        v

  epollin-Keeps : AreTame w s.buffers → Keeps conn (on_epollin w conn s a)
  unfolding on_epollin
  epollin-Keeps t =
      read_switch_holds (Keeps conn) s.type _ _ _ v
        (call_manager-IsValid w.ctl (handle_udp_read w.datagrams) a
          (handle_udp_read-IsValid w.datagrams a.manager v))
        (on_read-Keeps (w.read (room s.buffers)) t)

  epollout-Keeps : Keeps conn (on_epollout w conn s a)
  unfolding on_epollout
  epollout-Keeps =
      write_switch-Keeps conn s.type _ _ _ on_write-Keeps (outgoing-Keeps w.connected) v

at-Keeps :
    (conn : ℕ) (f : ℕ → Socket → Agent → Outcome) (a : Agent)
    → ((s : Socket) → a.live conn ≡ some s → Keeps conn (f conn s a))
    → IsValid a.manager
    → Keeps conn (at f conn a)
unfolding at
at-Keeps conn f a k v = elim (Option-cases (a.live conn)) [
  | inl e ↦ rw (e, at) v
  | inr (s, e) ↦ rw (e, at) (k s e)
]

and_then-Keeps :
    (conn : ℕ) (f : Agent → Outcome) (o : Outcome)
    → Keeps conn o
    → ((a : Agent) → IsValid a.manager → Keeps conn (f a))
    → Keeps conn (and_then f o)
unfolding and_then
and_then-Keeps conn f (Outcome.alive a) h k = k a h
and_then-Keeps conn f (Outcome.closed a) h k = h

rearm-Keeps :
    (ctl : ℕ → Bool) (ok : Bool) (conn : ℕ) (a : Agent)
    → IsValid a.manager
    → Keeps conn (rearm_or_free ctl ok conn a)
unfolding rearm_or_free
rearm-Keeps ctl true conn a v = v
rearm-Keeps ctl false conn a v = disconnect-Keeps ctl conn a v

take_conn-buffers : (s : Socket) → (take_conn s).buffers ≡ s.buffers
unfolding take_conn
take_conn-buffers s =
    choose (λ (u : Socket). u.buffers ≡ s.buffers) (conn_uses_oneshot s.type) _ _ (λ e. refl)
      (λ e. refl)

Keeps-IsValid : (conn : ℕ) (o : Outcome) → Keeps conn o → IsValid (agent_of o).manager
unfolding agent_of
Keeps-IsValid conn (Outcome.alive a) k = k
Keeps-IsValid conn (Outcome.closed a) k = k.0

handle_event-Keeps :
    (w : Answers) (e : Ready) (conn : ℕ) (s : Socket) (a : Agent)
    → AreTame w s.buffers
    → IsValid a.manager
    → Keeps conn (handle_event w e conn s a)
unfolding handle_event
handle_event-Keeps w e conn s a t v =
    let a0 = record a { live = put conn (some (take_conn s)) a.live } in
    choose (Keeps conn) (is_broken e) _ _ (λ broken. disconnect-Keeps w.ctl conn a0 v)
      (λ fine.
        and_then-Keeps conn (when (conn_uses_oneshot s.type) (rearm_or_free w.ctl w.rearm conn)) _
          (and_then-Keeps conn (when e.write (at (on_epollout w) conn)) _
            (when_holds (Keeps conn) e.read (at (on_epollin w) conn) a0
              (at-Keeps conn (on_epollin w) a0
                (λ s' e'. epollin-Keeps w conn s' a0 v (taken_tame s' e')) v)
              (λ no. v))
            (λ b vb.
              when_holds (Keeps conn) e.write (at (on_epollout w) conn) b
                (at-Keeps conn (on_epollout w) b (λ s' e'. epollout-Keeps w conn s' b vb) vb)
                (λ no. vb)))
          (λ b vb.
            when_holds (Keeps conn) (conn_uses_oneshot s.type) (rearm_or_free w.ctl w.rearm conn) b
              (rearm-Keeps w.ctl w.rearm conn b vb) (λ no. vb)))
  where
    taken_tame :
        (s' : Socket) → put conn (some (take_conn s)) a.live conn ≡ some s' → AreTame w s'.buffers
    taken_tame s' e' =
        let found : some (take_conn s) ≡ some s' =
          sym (put_same conn (some (take_conn s)) a.live) ∙ e' in
        let same : take_conn s ≡ s' = cc in
        subst (λ c. AreTame w c) (sym (take_conn-buffers s) ∙ ap (λ u. u.buffers) same) t

-- From a state in which the manager is in order, an event on a connection leaves the manager in order,
-- whatever the system answers, if each line that it completes is tame. If the event ends with the
-- connection freed, then no job in the table points to it: none has it as its owner, waits for an answer
-- over it or holds a remote allocation over it, whether the read, the write, the handshake or the
-- registration failed, or the stream ended.
pub handle_event-IsForgotten :
    (w : Answers) (e : Ready) (conn : ℕ) (s : Socket) (a : Agent)
    → AreTame w s.buffers
    → IsValid a.manager
    → IsValid (agent_of (handle_event w e conn s a)).manager
      × ((a' : Agent) → handle_event w e conn s a ≡ Outcome.closed a' → IsForgotten conn a'.manager)
handle_event-IsForgotten w e conn s a t v =
    let k = handle_event-Keeps w e conn s a t v in
    (Keeps-IsValid conn (handle_event w e conn s a) k, λ a' e'. (subst (Keeps conn) e' k).1)

pub worker_step-IsValid :
    (w : Answers) (e : Ready) (conn : ℕ) (a : Agent)
    → ((s : Socket) → a.live conn ≡ some s → AreTame w s.buffers)
    → IsValid a.manager
    → IsValid (worker_step w e conn a).manager
unfolding worker_step agent_of
worker_step-IsValid w e conn a t v = elim (Option-cases (a.live conn)) [
  | inl gone ↦ rw (gone, at) v
  | inr (s, found) ↦ rw (found, at) (handle_event-IsForgotten w e conn s a (t s found) v).0
]
