-- ===== src/Server.antt =====
-- agente_c/src/server.c: the buffers of a connection. What `read` and `write` return is given by the
-- system: the bytes that came, and the number of bytes that went.
pub mod Stream
pub mod Epoll
pub mod Worker
pub mod Armed
pub mod Fresh
pub mod Handled
pub mod Progress
pub mod Settled
pub mod Staged
pub mod Kept
pub mod Forgotten
pub mod Sharing
pub mod Framed
pub mod Framing
use tp_sist_op.Prelude.{ℕ, zero, suc, ◌+◌, List, [], ◌∷◌, ◌++◌, if◌then◌else◌, leb, ◌==◌, length}
use tp_sist_op.Manager.NodeList.{buff_size}

-- `connection_t`: the first `read_pos` bytes of `read_buf`, the first `write_len` bytes of
-- `write_buf`, and `write_pos`.
pub record Connection : Type 0 where
  pub read_buf : List ℕ
  pub write_buf : List ℕ
  pub write_pos : ℕ

push_byte : ℕ → List (List ℕ) × List ℕ → List (List ℕ) × List ℕ
push_byte c ([], rest) = ([], c ∷ rest)
push_byte c (line ∷ next, rest) = ((c ∷ line) ∷ next, rest)

-- The lines that the loop of `handle_tcp_read` takes, and what remains; `strchr` stops at a zero.
unfoldable pub split_lines : List ℕ → List (List ℕ) × List ℕ
unfolding push_byte
split_lines [] = ([], [])
split_lines (c ∷ s) =
    let (lines, rest) = split_lines s in
    if c == 0
    then ([], c ∷ s)
    else if c == b'\n'
    then ([] ∷ lines, rest)
    else push_byte c (lines, rest)

-- `handle_tcp_read` when some bytes came: the messages in their order, and the buffer compacted.
unfoldable pub handle_tcp_read : List ℕ → Connection → List (List ℕ) × Connection
unfolding split_lines
handle_tcp_read bytes conn =
    let (lines, remaining) = split_lines (conn.read_buf ++ bytes) in
    (lines, record conn { read_buf = remaining })

-- A message that does not fit is dropped.
unfoldable pub enqueue_write : List ℕ → Connection → Connection
enqueue_write msg conn =
    if leb buff_size (length conn.write_buf + length msg)
    then conn
    else record conn { write_buf = conn.write_buf ++ msg }

unfoldable pub drop : ℕ → List ℕ → List ℕ
drop zero s = s
drop (suc n) [] = []
drop (suc n) (c ∷ s) = drop n s

-- The bytes that wait to be sent.
unfoldable pub pending_bytes : Connection → List ℕ
unfolding drop
pending_bytes conn = drop conn.write_pos conn.write_buf

-- `handle_tcp_write` when `bytes_written` bytes went.
unfoldable pub handle_tcp_write : ℕ → Connection → Connection
handle_tcp_write bytes_written conn =
    let write_pos = conn.write_pos + bytes_written in
    if write_pos == length conn.write_buf
    then record conn { write_buf = []; write_pos = 0 }
    else record conn { write_pos = write_pos }
