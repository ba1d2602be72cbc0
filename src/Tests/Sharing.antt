-- ===== src/Tests/Sharing.antt =====
-- Workers and senders that take turns on one connection, at concrete runs.
use tp_sist_op.Prelude.{ℕ, true, false, List, [], ◌∷◌, some, ◌≡◌, refl}
use tp_sist_op.Server.{enqueue_write}
use tp_sist_op.Server.Epoll.{Mask, Socket, tcp_client_remote, post}
use tp_sist_op.Server.Armed.{covers, is_outgoing}
use tp_sist_op.Server.Sharing.{
  Shared, Step, is_missed, enqueued, report, take, send, Reach, here, next, idle, disarm, mark,
}
use tp_sist_op.Server.Sharing.Awake.{IsAwake, wakes, Reach-IsAwake}
use tp_sist_op.Server.Sharing.Exclusive.{Reach-two_workers}

abbrev waits_for_input : Mask
waits_for_input = record { read = true; write = false; oneshot = true }

abbrev client : Socket
client = record {
  type = tcp_client_remote;
  buffers = record { read_buf = []; write_buf = []; write_pos = 0 };
  in_handler = false;
  armed = some waits_for_input;
}

abbrev message : List ℕ
message = b'O' ∷ b'K' ∷ b'\n' ∷ []

client-wakes : wakes false client ≡ true
unfolding covers is_outgoing
client-wakes = refl

-- An event is handled, and a message is enqueued while the worker has the connection.
abbrev handled : Shared
handled = record {
  socket = post true message (mark (disarm client));
  reported = 0;
  handling = 1;
  freed = false;
}

abbrev handled_run : Reach (idle client) handled
handled_run =
    next (next (next here (report waits_for_input refl refl)) (take 0 refl))
      (send true message refl)

-- Two messages are enqueued while nobody has it, and `EPOLL_CTL_MOD` fails for the first.
abbrev twice : Shared
twice = record {
  socket = post true message (post false message client);
  reported = 0;
  handling = 0;
  freed = false;
}

abbrev twice_run : Reach (idle client) twice
twice_run = next (next here (send false message refl)) (send true message refl)

Reach-IsAwake_example : IsAwake (is_missed twice_run) twice
Reach-IsAwake_example = Reach-IsAwake refl client-wakes twice_run

Reach-two_workers_example :
    (t u : Shared) × (r : Reach (idle client) t) × (enqueued r ≡ (1, message) ∷ [])
    × (t.handling ≡ 2)
    × (t.socket.buffers ≡ enqueue_write message client.buffers)
    × Step t u
    × (u.freed ≡ true)
    × (u.handling ≡ 1)
Reach-two_workers_example = Reach-two_workers client waits_for_input message refl refl refl
