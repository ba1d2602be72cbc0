-- ===== src/Server/Settled.antt =====
-- One event after another in agente_c/src/server.c: after each of them every connection that is left waits
-- for the events that it needs, whether or not `EPOLL_CTL_MOD` fails.
use tp_sist_op.Prelude.{
  ℕ, Bool, true, false, not, ◌||◌, sym, Option, none, some, ◌≡◌, refl, arith, subst, inl, inr,
  if◌then◌else◌, ◌==◌, ==_iff, ltb, length, Bool-cases, Option-cases,
}
use tp_sist_op.Server.Epoll.{ConnType, Mask, Socket, Live}
use tp_sist_op.Server.Worker.{Agent, Ready, Answers, at, agent_of, is_broken, worker_step}
use tp_sist_op.Server.Armed.{is_outgoing, covers, waiting, Records, Holds, later-IsReady}
use tp_sist_op.Server.Handled.{IsPossible}
use tp_sist_op.Server.Progress.{AllReady}
use tp_sist_op.Server.Staged.{IsSettled, handle_event-Ends}

-- A registration as it is left covers what waits, if it covers the handshake.
settled-covers :
    (late : Bool) (type : ConnType) (n : ℕ) (o : Option Mask)
    → o ≡ some (record { read = true; write = ltb 0 n; oneshot = true })
    → covers type (waiting late n) o ≡ true
    → covers type n o ≡ true
unfolding covers
settled-covers true type n o e h =
    rw e (let h' = subst (λ u. covers type 0 u ≡ true) e h in ground arith)
settled-covers false type n o e h = h

-- The connections on which, in an event since they were last handled, `EPOLL_CTL_MOD` of `enqueue_write`
-- fails, made or not: those from before and those of this event, without the connection of the event.
abbrev pub missed : (ℕ → Bool) → Answers → ℕ → ℕ → Bool
missed late w conn k = if k == conn then false else late k || not (w.ctl k)

-- With the failures of this event.
abbrev failed : (ℕ → Bool) → Answers → ℕ → Bool
failed late w k = late k || not (w.ctl k)

failed-Records : (late : ℕ → Bool) (w : Answers) → Records (failed late w) w.ctl
failed-Records late w k e = ground arith

later-AllReady :
    (late : ℕ → Bool) (w : Answers) (live : Live)
    → AllReady late live
    → AllReady (failed late w) live
later-AllReady late w live h k = go (live k) (h k)
  where
    go : (o : Option Socket) → Holds (late k) none o → Holds (failed late w k) none o
    go none h = tt
    go (some s) h = later-IsReady (late k) (failed late w k) s (λ e. rw e refl) h

settled-IsReady :
    (late : Bool) (o : Option Socket) → Holds late none o → IsSettled o → Holds false none o
unfolding covers
settled-IsReady late none h k = tt
settled-IsReady late (some s) h k = record {
  buffered = h.buffered;
  idle = h.idle;
  covered =
      λ u. settled-covers late s.type (length s.buffers.write_buf) s.armed (k u).1 (h.covered u);
}

-- Nothing is missed on the connection of the event, which is armed for what it waits for.
missed-AllReady :
    (late : ℕ → Bool) (w : Answers) (conn : ℕ) (live : Live)
    → AllReady (failed late w) live × IsSettled (live conn)
    → AllReady (missed late w conn) live × IsSettled (live conn)
missed-AllReady late w conn live (h, settled) = (
  λ k. elim (Bool-cases (k == conn)) [
    | inl same ↦
        let e : k ≡ conn = (==_iff k conn).0 same in
        rw same (settled-IsReady _ (live k) (h k) (subst (λ j. IsSettled (live j)) (sym e) settled))
    | inr other ↦ rw other (h k)
  ],
  settled,
)

-- From a state in which every connection is ready, whatever one event on one of them is and however its
-- calls end, failures of `EPOLL_CTL_MOD` included, every connection is ready: both buffers are within
-- their arrays, and a one-shot connection is registered for reading, or for the end of its handshake,
-- and for writing if bytes wait, unless, in an event since it was last handled, `EPOLL_CTL_MOD` of
-- `enqueue_write` on it was one that fails. The connection of the event is freed, or, if it is one-shot, it is registered for
-- reading once, and for writing exactly if its buffer is not empty. `read` and `write` give no more than
-- they are asked for, `malloc` does not give the address of the connection of the event, and an event
-- without an error on a connection that is being made has `EPOLLOUT`.
pub worker_step-AllReady :
    (late : ℕ → Bool) (w : Answers) (e : Ready) (conn : ℕ) (a : Agent)
    → IsPossible w conn
    → ((s : Socket)
        → a.live conn ≡ some s
        → is_outgoing s.type ≡ true
        → is_broken e ≡ false
        → e.write ≡ true)
    → AllReady late a.live
    → let a' = worker_step w e conn a in
      AllReady (missed late w conn) a'.live × IsSettled (a'.live conn)
unfolding worker_step at agent_of
worker_step-AllReady late w e conn a p handshake all = missed-AllReady late w conn _ (
    let all' = later-AllReady late w a.live all in
    elim (Option-cases (a.live conn)) [
      | inl gone ↦ rw (gone, at) (all', rw gone tt)
      | inr (s, e') ↦
          rw (e', at)
            (handle_event-Ends (failed late w) w (failed-Records late w) conn p e s a
              (handshake s e') (subst (λ o. Holds (failed late w conn) none o) e' (all' conn)) all')
    ])
