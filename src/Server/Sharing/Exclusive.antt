-- ===== src/Server/Sharing/Exclusive.antt =====
-- When two workers can have one connection of agente_c/src/server.c, and when they cannot.
use tp_sist_op.Prelude.{
  ℕ, ◌+◌, ◌<◌, ◌≤◌, Bool, true, false, Option, none, some, ◌≡◌, refl, ap, length, List, [], ◌∷◌,
  leb,
}
use tp_sist_op.Manager.NodeList.{buff_size}
use tp_sist_op.Server.{enqueue_write}
use tp_sist_op.Server.Epoll.{Mask, Socket, post}
use tp_sist_op.Server.Sharing.{
  Shared, Step, report, take, send, free, Reach, here, next, idle, disarm, mark, enqueued,
}

abbrev pub is_armed : Option Mask → ℕ
is_armed none = 0
is_armed (some k) = 1

abbrev pub one_if : Bool → ℕ
one_if false = 0
one_if true = 1

-- The connection is in one place at most: registered, reported, handled or freed.
pub record IsExclusive (s : Shared) : Type 0 where
  pub once : is_armed s.socket.armed + s.reported + s.handling + one_if s.freed ≤ 1
  pub marked : 0 < s.handling → s.socket.in_handler ≡ true

-- What `enqueue_write` leaves of an idle connection, if the message fits and `EPOLL_CTL_MOD` succeeds.
post_fits :
    (msg : List ℕ) (conn : Socket)
    → conn.in_handler ≡ false
    → leb buff_size (length conn.buffers.write_buf + length msg) ≡ false
    → post true msg (disarm conn) ≡ record conn {
      buffers = enqueue_write msg conn.buffers;
      armed = some (record { read = true; write = true; oneshot = true });
    }
unfolding post disarm
post_fits msg conn i fits = rw fits (rw i refl)

-- For every registered connection that nobody handles and every message that fits its buffer there is a
-- run in which this message alone is enqueued, while one event is reported and not taken, and after
-- which two workers have the connection, with the message in its buffer. One of the two can free it the
-- next moment, while the other has it.
pub Reach-two_workers :
    (conn : Socket) (k : Mask) (msg : List ℕ)
    → conn.armed ≡ some k
    → conn.in_handler ≡ false
    → leb buff_size (length conn.buffers.write_buf + length msg) ≡ false
    → (t u : Shared) × (r : Reach (idle conn) t) × (enqueued r ≡ (1, msg) ∷ [])
      × (t.handling ≡ 2)
      × (t.socket.buffers ≡ enqueue_write msg conn.buffers)
      × Step t u
      × (u.freed ≡ true)
      × (u.handling ≡ 1)
unfolding disarm mark
Reach-two_workers conn k msg e i fits =
    let sent_to = post_fits msg conn i fits in
    (
      _,
      _,
      next
          (next
            (next (next (next here (report k refl e)) (send true msg refl))
              (report _ refl (ap (λ s. s.armed) sent_to)))
            (take 1 refl))
          (take 0 refl),
      refl,
      refl,
      ap (λ s. s.buffers) sent_to,
      free 1 refl refl,
      refl,
      refl,
    )
