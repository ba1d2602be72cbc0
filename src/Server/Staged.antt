-- ===== src/Server/Staged.antt =====
-- The stages of one event of agente_c/src/server.c together: what they leave of the connection and of the
-- others.
use tp_sist_op.Prelude.{
  ℕ, Bool, true, false, Option, none, some, ◌≡◌, refl, subst, inl, inr, if◌then◌else◌, ◌==◌, ==_iff,
  ltb, length, Bool-cases,
}
use tp_sist_op.Manager.Events.{process_disconnect}
use tp_sist_op.Server.Epoll.{
  ConnType, tcp_public_listen, tcp_local_listen, udp_discovery, tcp_client_remote, tcp_client_local,
  tcp_outgoing, Socket, Live, conn_uses_oneshot, rearm_conn, put, on_some, change,
}
use tp_sist_op.Server.Worker.{
  Agent, Outcome, Ready, Answers, on_epollin, on_epollout, at, and_then, when, rearm_or_free,
  agent_of, take_conn, is_broken, handle_event, free_conn,
}
use tp_sist_op.Server.Armed.{is_outgoing, Records, IsReady, IsBusy, Holds, AllHold, choose}
use tp_sist_op.Server.Fresh.{taken_by, put_same, put_end-AllHold}
use tp_sist_op.Server.Handled.{Leaves, IsPossible, freed-Leaves}
use tp_sist_op.Server.Progress.{
  AllReady, settled_type, own-Holds, at-Leaves, epollin-Leaves, epollout-Leaves, rearm-Holds,
}

-- A connection that an event has just been handled on: it is in no hands, and it is registered for reading
-- once, and for writing exactly if its buffer is not empty.
abbrev pub IsSettled : Option Socket → Type 0
IsSettled none = Unit
IsSettled (some s) =
    conn_uses_oneshot s.type ≡ true
    → (s.in_handler ≡ false)
      × (s.armed
          ≡ some
              (record { read = true; write = ltb 0 (length s.buffers.write_buf); oneshot = true }))

abbrev pub Ends : (ℕ → Bool) → ℕ → Outcome → Type 0
Ends late conn o = AllReady late (agent_of o).live × IsSettled ((agent_of o).live conn)

rearmed-IsSettled : (o : Option Socket) → IsSettled (on_some rearm_conn o)
unfolding on_some rearm_conn
rearmed-IsSettled none = tt
rearmed-IsSettled (some s) = λ u. (refl, refl)

pub when_holds :
    (P : Outcome → Type 0) (b : Bool) (f : Agent → Outcome) (a : Agent)
    → P (f a)
    → (b ≡ false → P (Outcome.alive a))
    → P (when b f a)
unfolding when
when_holds P true f a h k = h
when_holds P false f a h k = k refl

and_then-Leaves :
    (late : ℕ → Bool) (t t' : Option ConnType) (conn : ℕ) (f : Agent → Outcome) (o : Outcome)
    → Leaves late t conn o
    → ((a : Agent) → AllHold late (taken_by t conn) a.live → Leaves late t' conn (f a))
    → Leaves late t' conn (and_then f o)
unfolding and_then
and_then-Leaves late t t' conn f (Outcome.alive a) h k = k a h
and_then-Leaves late t t' conn f (Outcome.closed a) h k = h

closed-Ends :
    (late : ℕ → Bool) (conn : ℕ) (a : Agent)
    → AllReady late a.live × (a.live conn ≡ none)
    → Ends late conn (Outcome.closed a)
unfolding agent_of
closed-Ends late conn a h = (h.0, rw h.1 tt)

settled_type-settles : (t : ConnType) → is_outgoing (settled_type t) ≡ false
unfolding is_outgoing
settled_type-settles tcp_public_listen = refl
settled_type-settles tcp_local_listen = refl
settled_type-settles udp_discovery = refl
settled_type-settles tcp_client_remote = refl
settled_type-settles tcp_client_local = refl
settled_type-settles tcp_outgoing = refl

idle-Holds :
    (late : Bool) (t : ConnType) (o : Option Socket)
    → conn_uses_oneshot t ≡ false
    → Holds late (some t) o
    → Holds late none o
idle-Holds late t none i h = tt
idle-Holds late t (some s) i h = record {
  buffered = h.buffered;
  idle = λ u. absurd (let e : s.type ≡ t = h.typed in cc);
  covered = λ u. absurd (let e : s.type ≡ t = h.typed in cc);
}

idle-IsSettled :
    (late : Bool) (t : ConnType) (o : Option Socket)
    → conn_uses_oneshot t ≡ false
    → Holds late (some t) o
    → IsSettled o
idle-IsSettled late t none i h = tt
idle-IsSettled late t (some s) i h = λ u. absurd (let e : s.type ≡ t = h.typed in cc)

take_conn-IsBusy : (late : Bool) (s : Socket) → IsReady late s → IsBusy s.type (take_conn s)
unfolding take_conn
take_conn-IsBusy late s r =
    choose (IsBusy s.type) (conn_uses_oneshot s.type) _ _
      (λ once. record { buffered = r.buffered; typed = refl })
      (λ never. record { buffered = r.buffered; typed = refl })

settled_listener :
    (t : ConnType) → conn_uses_oneshot t ≡ false → conn_uses_oneshot (settled_type t) ≡ false
unfolding conn_uses_oneshot is_outgoing
settled_listener tcp_public_listen n = refl
settled_listener tcp_local_listen n = refl
settled_listener udp_discovery n = refl
settled_listener tcp_client_remote n = cc
settled_listener tcp_client_local n = cc
settled_listener tcp_outgoing n = cc

module _ (late : ℕ → Bool) (w : Answers) (shown : Records late w.ctl) (conn : ℕ)
    (p : IsPossible w conn) where
  rearm-Ends :
      (t : ConnType) (a : Agent)
      → is_outgoing t ≡ false
      → AllHold late (taken_by (some t) conn) a.live
      → (ok : Bool) → Ends late conn (rearm_or_free w.ctl ok conn a)
  unfolding rearm_or_free agent_of change
  rearm-Ends t a o h true = (
    put_end-AllHold late (some t) conn _ a.live
        (rearm-Holds late w shown conn p t (a.live conn) o
          (own-Holds late w shown conn p (some t) a.live h))
        h,
    rw (put_same conn (on_some rearm_conn (a.live conn)) a.live) (rearmed-IsSettled (a.live conn)),
  )
  rearm-Ends t a o h false =
      closed-Ends late conn (free_conn w.ctl process_disconnect conn a)
        (freed-Leaves late (some t) conn w.ctl shown process_disconnect a h)

  -- The last stage of a one-shot connection.
  last-Ends :
      (t : ConnType) (o : Outcome)
      → is_outgoing t ≡ false
      → Leaves late (some t) conn o
      → Ends late conn (and_then (when true (rearm_or_free w.ctl w.rearm conn)) o)
  unfolding and_then when
  last-Ends t (Outcome.alive a) o h = rearm-Ends t a o h w.rearm
  last-Ends t (Outcome.closed a) o h = closed-Ends late conn a h

  -- What is left of a connection that is not armed again, since it always is.
  listener-Ends :
      (t : ConnType) (o : Outcome)
      → conn_uses_oneshot t ≡ false
      → Leaves late (some t) conn o
      → Ends late conn (and_then (when false (rearm_or_free w.ctl w.rearm conn)) o)
  unfolding and_then agent_of when
  listener-Ends t (Outcome.closed a) o h = closed-Ends late conn a h
  listener-Ends t (Outcome.alive a) o h = (
    λ k. elim (Bool-cases (k == conn)) [
      | inl same ↦ rw ((==_iff k conn).0 same) (
          idle-Holds (late conn) t (a.live conn) o
            (own-Holds late w shown conn p (some t) a.live h))
      | inr other ↦ subst (λ b. Holds (late k) (if b then some t else none) (a.live k)) other (h k)
    ],
    idle-IsSettled (late conn) t (a.live conn) o (own-Holds late w shown conn p (some t) a.live h),
  )

  stages-Leaves :
      (e : Ready) (t : ConnType) (a : Agent)
      → (is_outgoing t ≡ true → e.write ≡ true)
      → AllHold late (taken_by (some t) conn) a.live
      → Leaves late (some (settled_type t)) conn (
          and_then
            (when e.write (at (on_epollout w) conn))
            (when e.read (at (on_epollin w) conn) a))
  stages-Leaves e t a handshake h =
      and_then-Leaves late (some t) (some (settled_type t)) conn
        (when e.write (at (on_epollout w) conn)) _
        (when_holds (Leaves late (some t) conn) e.read (at (on_epollin w) conn) a
          (at-Leaves late w shown conn p (λ u. u) (on_epollin w)
            (epollin-Leaves late w shown conn p) t a h)
          (λ no. h))
        (λ b k.
          when_holds (Leaves late (some (settled_type t)) conn) e.write (at (on_epollout w) conn) b
            (at-Leaves late w shown conn p (λ u. settled_type u) (on_epollout w)
              (epollout-Leaves late w shown conn p) t b k)
            (λ no. elim (Bool-cases (is_outgoing t)) [
              | inl out ↦ absurd (let yes = handshake out in cc)
              | inr keep ↦ rw keep k
            ]))

  finish-Ends :
      (t : ConnType) (o : Outcome) (b : Bool)
      → conn_uses_oneshot t ≡ b
      → Leaves late (some (settled_type t)) conn o
      → Ends late conn (and_then (when b (rearm_or_free w.ctl w.rearm conn)) o)
  finish-Ends t o true once h = last-Ends (settled_type t) o (settled_type-settles t) h
  finish-Ends t o false never h = listener-Ends (settled_type t) o (settled_listener t never) h

  begin-AllHold :
      (s : Socket) (live : Live)
      → IsReady (late conn) s
      → AllReady late live
      → AllHold late (taken_by (some s.type) conn) (put conn (some (take_conn s)) live)
  unfolding put
  begin-AllHold s live r all k = elim (Bool-cases (k == conn)) [
    | inl same ↦ rw same (take_conn-IsBusy (late conn) s r)
    | inr other ↦ rw other (all k)
  ]

  pub handle_event-Ends :
      (e : Ready) (s : Socket) (a : Agent)
      → (is_outgoing s.type ≡ true → is_broken e ≡ false → e.write ≡ true)
      → IsReady (late conn) s
      → AllReady late a.live
      → Ends late conn (handle_event w e conn s a)
  unfolding handle_event
  handle_event-Ends e s a handshake r all =
      let a0 = record a { live = put conn (some (take_conn s)) a.live } in
      let h0 = begin-AllHold s a.live r all in
      choose (Ends late conn) (is_broken e) _ _
        (λ broken.
          closed-Ends late conn (free_conn w.ctl process_disconnect conn a0)
            (freed-Leaves late (some s.type) conn w.ctl shown process_disconnect a0 h0))
        (λ fine.
          let h = stages-Leaves e s.type a0 (λ out. handshake out fine) h0 in
          finish-Ends s.type _ (conn_uses_oneshot s.type) refl h)
