-- ===== src/Tests/Stream.antt =====
-- The buffers of a connection at concrete states.
use tp_sist_op.Prelude.{ℕ, List, [], ◌∷◌, ◌++◌, ◌≡◌, refl, map, arith}
use tp_sist_op.Server.{
  Connection, handle_tcp_read, handle_tcp_write, enqueue_write, drop, pending_bytes,
}
use tp_sist_op.Prelude.Int.{pos, negsuc}
use tp_sist_op.ResourceTypes.{cpu}
use tp_sist_op.Text.{digits, decimal, print_int}
use tp_sist_op.Jobs.{Message}
use tp_sist_op.Manager.Dispatch.{parse_command}
use tp_sist_op.Manager.Wire.{resource_type_to_str, text_of_id, text_of_amount, message_text}
use tp_sist_op.Server.Epoll.{formatted}
use tp_sist_op.Server.Framed.{meaning}
use tp_sist_op.Server.Framing.{stream, concat, read_all, read_all-stream}
use tp_sist_op.Server.Stream.{
  IsBuffered, Output, all_accepted, all_written, outputs, outputs_correct, handle_tcp_read_twice,
}

abbrev connection : Connection
connection = record {
  read_buf = b'G' ∷ b'E' ∷ [];
  write_buf = b'D' ∷ b'E' ∷ b'N' ∷ [];
  write_pos = 1;
}

abbrev first_bytes : List ℕ
first_bytes = b'T' ∷ b'\n' ∷ b'A' ∷ []

abbrev second_bytes : List ℕ
second_bytes = b'B' ∷ b'\n' ∷ b'C' ∷ []

handle_tcp_read_twice_example :
    let (lines, c1) = handle_tcp_read first_bytes connection in
    let (more, c2) = handle_tcp_read second_bytes c1 in
    handle_tcp_read (first_bytes ++ second_bytes) connection ≡ (lines ++ more, c2)
handle_tcp_read_twice_example = handle_tcp_read_twice first_bytes second_bytes connection

-- A message is queued, one byte goes, and then the rest.
abbrev history : List Output
history = Output.queue second_bytes ∷ Output.sent 1 ∷ Output.sent 4 ∷ []

outputs_correct_example :
    IsBuffered (outputs connection history)
    × (pending_bytes connection ++ all_accepted connection history
        ≡ all_written connection history ++ pending_bytes (outputs connection history))
unfolding pending_bytes enqueue_write handle_tcp_write drop
outputs_correct_example =
    outputs_correct connection history (omega arith, omega arith)
      (tt, (omega arith, (omega arith, tt)))

-- A RESERVE and a GRANTED, cut within the first line.
abbrev two_messages : List Message
two_messages = Message.reserve (pos 5) cpu (pos 3) ∷ Message.grant (negsuc 6) ∷ []

abbrev first_part : List ℕ
first_part = b'R' ∷ b'E' ∷ b'S' ∷ []

abbrev second_part : List ℕ
second_part = drop 3 (stream two_messages)

abbrev receiver : Connection
receiver = record { read_buf = []; write_buf = []; write_pos = 0 }

two_parts : first_part ++ concat (second_part ∷ []) ≡ stream two_messages
unfolding drop formatted message_text text_of_amount text_of_id resource_type_to_str print_int
    decimal digits
two_parts = refl

read_all-stream_example :
    (read_all (first_part ∷ second_part ∷ []) receiver
      ≡ (map message_text two_messages, record receiver { read_buf = [] }))
    × (map parse_command (map message_text two_messages) ≡ map meaning two_messages)
read_all-stream_example =
    read_all-stream two_messages first_part (second_part ∷ []) receiver
      (((omega arith, omega arith), (omega arith, omega arith)), ((omega arith, omega arith), tt))
      refl two_parts
