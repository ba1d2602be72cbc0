-- ===== src/Server/Progress.antt =====
-- The stages of an event of agente_c/src/server.c that depend on the type of the connection, and the one
-- that arms it again.
use tp_sist_op.Prelude.{
  ℕ, Bool, true, false, Option, none, some, ◌≡◌, refl, subst, inl, inr, arith, if◌then◌else◌, ◌==◌,
  ==_iff, Bool-cases, Option-cases,
}
use tp_sist_op.Server.Epoll.{
  ConnType, tcp_public_listen, tcp_local_listen, udp_discovery, tcp_client_remote, tcp_client_local,
  tcp_outgoing, Socket, Live, rearm_conn, on_some,
}
use tp_sist_op.Server.Worker.{
  handle_udp_read, Agent, Outcome, Answers, room, read_switch, write_switch, on_epollin,
  on_epollout, at,
}
use tp_sist_op.Server.Armed.{
  call_manager-AllHold, Records, is_outgoing, covers, IsReady, IsBusy, Holds, AllHold,
}
use tp_sist_op.Server.Fresh.{nobody, taken_by, handle_accept-Held}
use tp_sist_op.Server.Handled.{Leaves, IsPossible, on_read-Leaves, on_write-Leaves, outgoing-Leaves}

abbrev pub AllReady : (ℕ → Bool) → Live → Type 0
AllReady late live = AllHold late nobody live

pub read_switch_holds :
    (P : Outcome → Type 0) (t : ConnType) (accepted datagrams tcp : Outcome)
    → P accepted
    → P datagrams
    → P tcp
    → P (read_switch t accepted datagrams tcp)
unfolding read_switch
read_switch_holds P tcp_public_listen accepted datagrams tcp h k l = h
read_switch_holds P tcp_local_listen accepted datagrams tcp h k l = h
read_switch_holds P udp_discovery accepted datagrams tcp h k l = k
read_switch_holds P tcp_client_remote accepted datagrams tcp h k l = l
read_switch_holds P tcp_client_local accepted datagrams tcp h k l = l
read_switch_holds P tcp_outgoing accepted datagrams tcp h k l = l

-- The type that a one-shot connection has after `EPOLLOUT`.
abbrev pub settled_type : ConnType → ConnType
settled_type t = if is_outgoing t then tcp_client_remote else t

write_switch-Leaves :
    (late : ℕ → Bool) (conn : ℕ) (t : ConnType) (client outgoing other : Outcome)
    → Leaves late (some t) conn client
    → Leaves late (some tcp_client_remote) conn outgoing
    → Leaves late (some t) conn other
    → Leaves late (some (settled_type t)) conn (write_switch t client outgoing other)
unfolding write_switch is_outgoing
write_switch-Leaves late conn tcp_public_listen client outgoing other h k l = l
write_switch-Leaves late conn tcp_local_listen client outgoing other h k l = l
write_switch-Leaves late conn udp_discovery client outgoing other h k l = l
write_switch-Leaves late conn tcp_client_remote client outgoing other h k l = h
write_switch-Leaves late conn tcp_client_local client outgoing other h k l = h
write_switch-Leaves late conn tcp_outgoing client outgoing other h k l = k

module _ (late : ℕ → Bool) (w : Answers) (shown : Records late w.ctl) (conn : ℕ)
    (p : IsPossible w conn) where
  pub own-Holds :
      (t : Option ConnType) (live : Live)
      → AllHold late (taken_by t conn) live
      → Holds (late conn) t (live conn)
  own-Holds t live h =
      let same : (conn == conn) ≡ true = ground arith in
      subst (λ b. Holds (late conn) (if b then t else none) (live conn)) same (h conn)

  absent-AllHold :
      (t t' : ConnType) (live : Live)
      → live conn ≡ none
      → AllHold late (taken_by (some t) conn) live
      → AllHold late (taken_by (some t') conn) live
  absent-AllHold t t' live e h k = elim (Bool-cases (k == conn)) [
    | inl same ↦ rw same (rw ((==_iff k conn).0 same) (rw e tt))
    | inr other ↦
        rw other (subst (λ c. Holds (late k) (if c then some t else none) (live k)) other (h k))
  ]

  -- A stage on the connection of the event, if it is still there.
  pub at-Leaves :
      (g : ConnType → ConnType) (f : ℕ → Socket → Agent → Outcome)
      → ((s : Socket) (a : Agent)
          → IsBusy s.type s
          → AllHold late (taken_by (some s.type) conn) a.live
          → Leaves late (some (g s.type)) conn (f conn s a))
      → (t : ConnType) (a : Agent) → AllHold late (taken_by (some t) conn) a.live
      → Leaves late (some (g t)) conn (at f conn a)
  unfolding at
  at-Leaves g f keeps t a h = elim (Option-cases (a.live conn)) [
    | inl e ↦ rw (e, at) (absent-AllHold t (g t) a.live e h)
    | inr (s, e) ↦
        let b = subst (λ o. Holds (late conn) (some t) o) e (own-Holds (some t) a.live h) in
        rw (e, at)
          (subst (λ u. Leaves late (some (g u)) conn (f conn s a)) b.typed
            (keeps s a (record { buffered = b.buffered; typed = refl }) (rw b.typed h)))
  ]

  pub epollin-Leaves :
      (s : Socket) (a : Agent)
      → IsBusy s.type s
      → AllHold late (taken_by (some s.type) conn) a.live
      → Leaves late (some s.type) conn (on_epollin w conn s a)
  unfolding on_epollin
  epollin-Leaves s a b h =
      read_switch_holds (Leaves late (some s.type) conn) s.type _ _ _
        (handle_accept-Held late (some s.type) conn s.type w.accepts a.live p.fresh_accepted h)
        (call_manager-AllHold late (taken_by (some s.type) conn) w.ctl shown
          (handle_udp_read w.datagrams) a h)
        (on_read-Leaves late w shown conn p s a b h (w.read (room s.buffers))
          (λ bytes e. p.reads (room s.buffers) bytes e))

  pub epollout-Leaves :
      (s : Socket) (a : Agent)
      → IsBusy s.type s
      → AllHold late (taken_by (some s.type) conn) a.live
      → Leaves late (some (settled_type s.type)) conn (on_epollout w conn s a)
  unfolding on_epollout
  epollout-Leaves s a b h =
      write_switch-Leaves late conn s.type _ _ _ (on_write-Leaves late w shown conn p s a b h)
        (outgoing-Leaves late w shown conn p s a b h w.connected) h

  rearm_IsReady :
      (l : Bool) (t : ConnType) (s : Socket)
      → is_outgoing t ≡ false
      → IsBusy t s
      → IsReady l (rearm_conn s)
  unfolding rearm_conn covers
  rearm_IsReady true t s o b = record {
    buffered = b.buffered;
    idle = λ u. refl;
    covered = λ u. ground (arith, b.typed, o);
  }
  rearm_IsReady false t s o b = record {
    buffered = b.buffered;
    idle = λ u. refl;
    covered = λ u. ground (arith, b.typed, o);
  }

  pub rearm-Holds :
      (t : ConnType) (o : Option Socket)
      → is_outgoing t ≡ false
      → Holds (late conn) (some t) o
      → Holds (late conn) none (on_some rearm_conn o)
  unfolding on_some
  rearm-Holds t none f h = tt
  rearm-Holds t (some s) f h = rearm_IsReady (late conn) t s f h
