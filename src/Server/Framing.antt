-- ===== src/Server/Framing.antt =====
-- From one agent to another: the messages that agente_c/src/server.c of the sender puts on the wire, cut in
-- any way, and the lines that `handle_tcp_read` of the receiver takes for `process_message`.
use tp_sist_op.Prelude.{ℕ, List, [], ◌∷◌, ◌++◌, ◌≡◌, refl, sym, ap, ◌∙◌, map, All}
use mathlib.Core.List.{append-nil, append_assoc}
use tp_sist_op.Jobs.{Message}
use tp_sist_op.Manager.Dispatch.{parse_command}
use tp_sist_op.Manager.Wire.{message_text}
use tp_sist_op.Server.{Connection, split_lines, handle_tcp_read}
use tp_sist_op.Server.Stream.{handle_tcp_read_twice}
use tp_sist_op.Server.Epoll.{formatted}
use tp_sist_op.Server.Framed.{IsSendable, meaning, sendable-IsFramed, split_lines-line}

-- What the messages are on the wire.
abbrev pub stream : List Message → List ℕ
stream [] = []
stream (m ∷ ms) = formatted m ++ stream ms

split_lines-stream :
    (ms : List Message)
    → All IsSendable ms
    → (split_lines (stream ms) ≡ (map message_text ms, []))
      × (map parse_command (map message_text ms) ≡ map meaning ms)
unfolding split_lines
split_lines-stream [] h = (refl, refl)
split_lines-stream (m ∷ ms) h =
    let f = sendable-IsFramed m h.0 in
    let (lines, meant) = split_lines-stream ms h.1 in
    (
      ap (λ s. split_lines (s ++ stream ms)) f.whole
          ∙ ap split_lines (append_assoc (message_text m) (b'\n' ∷ []) (stream ms))
          ∙ split_lines-line (message_text m) (stream ms) f.line
          ∙ ap (λ q. (message_text m ∷ q.0, q.1)) lines,
      ap (λ c. c ∷ map parse_command (map message_text ms)) f.meant ∙ ap (◌∷◌ (meaning m)) meant,
    )

-- One read after another: the lines of all, in order.
abbrev pub read_all : List (List ℕ) → Connection → List (List ℕ) × Connection
read_all [] conn = ([], conn)
read_all (bytes ∷ more) conn =
    let (lines, c1) = handle_tcp_read bytes conn in
    let (next, c2) = read_all more c1 in (lines ++ next, c2)

abbrev pub concat : List (List ℕ) → List ℕ
concat [] = []
concat (bytes ∷ more) = bytes ++ concat more

read_all-concat :
    (bytes : List ℕ) (more : List (List ℕ)) (conn : Connection)
    → read_all (bytes ∷ more) conn ≡ handle_tcp_read (bytes ++ concat more) conn
read_all-concat bytes [] conn =
    ap (λ lines. (lines, (handle_tcp_read bytes conn).1))
      (append-nil (handle_tcp_read bytes conn).0)
    ∙ sym (ap (λ s. handle_tcp_read s conn) (append-nil bytes))
read_all-concat bytes (b ∷ more) conn =
    let (lines, c1) = handle_tcp_read bytes conn in
    ap (λ q. (lines ++ q.0, q.1)) (read_all-concat b more c1)
    ∙ sym (handle_tcp_read_twice bytes (b ++ concat more) conn)

-- From one agent to another: any RESERVE, RELEASE, GRANTED and DENIED messages of values of an `int`, one
-- after another as `send_message` formats them, arrive as they were meant. However the stream of their
-- bytes is cut into reads, a receiver whose buffer is empty takes exactly one line for each message, in
-- their order, has nothing left over, and `process_message` reads each line as the command of its
-- message.
pub read_all-stream :
    (ms : List Message) (bytes : List ℕ) (more : List (List ℕ)) (conn : Connection)
    → All IsSendable ms
    → conn.read_buf ≡ []
    → bytes ++ concat more ≡ stream ms
    → (read_all (bytes ∷ more) conn ≡ (map message_text ms, record conn { read_buf = [] }))
      × (map parse_command (map message_text ms) ≡ map meaning ms)
unfolding handle_tcp_read
read_all-stream ms bytes more conn h empty cut =
    let (lines, meant) = split_lines-stream ms h in
    (
      read_all-concat bytes more conn
          ∙ ap (λ s. handle_tcp_read s conn) cut
          ∙ ap
              (λ r. (
                (split_lines (r ++ stream ms)).0,
                record conn { read_buf = (split_lines (r ++ stream ms)).1 },
              ))
              empty
          ∙ ap (λ q. (q.0, record conn { read_buf = q.1 })) lines,
      meant,
    )
