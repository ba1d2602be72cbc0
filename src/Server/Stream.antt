-- ===== src/Server/Stream.antt =====
-- The connection as two streams of bytes: agente_c/src/server.c.
use tp_sist_op.Prelude.{
  ℕ, zero, suc, ◌+◌, ◌<◌, ◌≤◌, Bool, true, false, List, [], ◌∷◌, ◌++◌, ◌≡◌, refl, sym, ap, ◌∙◌, inl,
  inr, arith, if◌then◌else◌, leb, ◌==◌, ==_iff, length, length-append, take, Bool-cases,
}
use mathlib.Core.List.{append_assoc, append-nil}
use tp_sist_op.Manager.NodeList.{buff_size}
use tp_sist_op.Server.{
  Connection, push_byte, split_lines, handle_tcp_read, enqueue_write, drop, pending_bytes,
  handle_tcp_write,
}

-- A second read after a first one: the lines of both, in order.
abbrev pub after_read : List (List ℕ) × List ℕ → List ℕ → List (List ℕ) × List ℕ
after_read (lines, rest) s = (lines ++ (split_lines (rest ++ s)).0, (split_lines (rest ++ s)).1)

push_byte-after_read :
    (c : ℕ) (q : List (List ℕ) × List ℕ) (s : List ℕ)
    → (c == 0) ≡ false
    → (c == b'\n') ≡ false
    → push_byte c (after_read q s) ≡ after_read (push_byte c q) s
unfolding push_byte split_lines
push_byte-after_read c ([], rest) s h k = rw h (rw k refl)
push_byte-after_read c (line ∷ lines, rest) s h k = refl

split_lines-append : (a s : List ℕ) → split_lines (a ++ s) ≡ after_read (split_lines a) s
unfolding split_lines
split_lines-append [] s = refl
split_lines-append (c ∷ a) s = elim (Bool-cases (c == 0)) [
  | inl stop ↦ rw stop (rw stop refl)
  | inr go ↦ elim (Bool-cases (c == b'\n')) [
    | inl line_end ↦ rw go (rw line_end (ap (λ q. ([] ∷ q.0, q.1)) (split_lines-append a s)))
    | inr other ↦ rw go (
        rw other (
          ap (push_byte c) (split_lines-append a s)
          ∙ push_byte-after_read c (split_lines a) s go other))
  ]
]

-- The cuts of the stream do not matter: bytes that come in two reads give the messages, and leave the
-- buffer, that they give and leave in one.
pub handle_tcp_read_twice :
    (a s : List ℕ) (conn : Connection)
    → let (lines, c1) = handle_tcp_read a conn in
      let (more, c2) = handle_tcp_read s c1 in handle_tcp_read (a ++ s) conn ≡ (lines ++ more, c2)
unfolding handle_tcp_read
handle_tcp_read_twice a s conn =
    ap (λ q. (q.0, record conn { read_buf = q.1 }))
      (ap split_lines (sym (append_assoc conn.read_buf a s))
        ∙ split_lines-append (conn.read_buf ++ a) s)

-- The write buffer is in order.
abbrev pub IsBuffered : Connection → Type 0
IsBuffered c = (length c.write_buf < buff_size) × (c.write_pos ≤ length c.write_buf)

drop-append : (n : ℕ) (s r : List ℕ) → n ≤ length s → drop n (s ++ r) ≡ drop n s ++ r
unfolding drop
drop-append zero s r h = refl
drop-append (suc n) [] r h = absurd (omega arith)
drop-append (suc n) (c ∷ s) r h = drop-append n s r (omega arith)

drop-nil : (n : ℕ) → drop n [] ≡ []
unfolding drop
drop-nil zero = refl
drop-nil (suc n) = refl

drop-drop : (m n : ℕ) (s : List ℕ) → drop (m + n) s ≡ drop n (drop m s)
unfolding drop
drop-drop zero n s = let e : 0 + n ≡ n = omega arith in ap (λ k. drop k s) e
drop-drop (suc m) n [] = drop-nil (suc m + n) ∙ sym (drop-nil n)
drop-drop (suc m) n (c ∷ s) =
    let e : suc m + n ≡ suc (m + n) = omega arith in ap (λ k. drop k (c ∷ s)) e ∙ drop-drop m n s

drop-all : (s : List ℕ) → drop (length s) s ≡ []
unfolding drop
drop-all [] = refl
drop-all (c ∷ s) = drop-all s

length-drop : (n : ℕ) (s : List ℕ) → n ≤ length s → length (drop n s) + n ≡ length s
unfolding drop
length-drop zero s h = omega arith
length-drop (suc n) [] h = absurd (omega arith)
length-drop (suc n) (c ∷ s) h = omega (arith, length-drop n s (omega arith))

pub enqueue_write-pending :
    (msg : List ℕ) (c : Connection)
    → IsBuffered c
    → IsBuffered (enqueue_write msg c)
      × (pending_bytes (enqueue_write msg c) ≡ (
          if leb buff_size (length c.write_buf + length msg)
          then pending_bytes c
          else pending_bytes c ++ msg))
unfolding enqueue_write pending_bytes
enqueue_write-pending msg c b =
    elim (Bool-cases (leb buff_size (length c.write_buf + length msg))) [
      | inl full ↦ rw full (b, refl)
      | inr fits ↦ rw fits (
        (
          ground (arith, length-append c.write_buf msg),
          omega (arith, length-append c.write_buf msg, b.1),
        ),
        drop-append c.write_pos c.write_buf msg b.1,
      )
    ]

pub handle_tcp_write-pending :
    (n : ℕ) (c : Connection)
    → IsBuffered c
    → n ≤ length (pending_bytes c)
    → IsBuffered (handle_tcp_write n c)
      × (pending_bytes (handle_tcp_write n c) ≡ drop n (pending_bytes c))
unfolding handle_tcp_write pending_bytes
handle_tcp_write-pending n c b h = elim (Bool-cases (c.write_pos + n == length c.write_buf)) [
  | inl done ↦ rw done (
    (omega arith, omega arith),
    sym (
        sym (drop-drop c.write_pos n c.write_buf)
        ∙ ap (λ k. drop k c.write_buf) ((==_iff (c.write_pos + n) (length c.write_buf)).0 done)
        ∙ drop-all c.write_buf),
  )
  | inr more ↦ rw more (
    (b.0, omega (arith, length-drop c.write_pos c.write_buf b.1)),
    drop-drop c.write_pos n c.write_buf,
  )
]

-- What happens to the write buffer: a message is queued, or the system takes some bytes.
pub data Output : Type 0 where
  queue : List ℕ → Output
  sent : ℕ → Output

abbrev pub output : Connection → Output → Connection
output c (queue msg) = enqueue_write msg c
output c (sent n) = handle_tcp_write n c

-- The bytes that one output puts on the wire, and those that it takes from the manager.
abbrev pub written : Connection → Output → List ℕ
written c (queue msg) = []
written c (sent n) = take n (pending_bytes c)

abbrev pub accepted : Connection → Output → List ℕ
accepted c (queue msg) = if leb buff_size (length c.write_buf + length msg) then [] else msg
accepted c (sent n) = []

-- The system takes no more than waits.
abbrev pub IsPossible : Connection → Output → Type 0
IsPossible c (queue msg) = Unit {0}
IsPossible c (sent n) = n ≤ length (pending_bytes c)

abbrev pub ArePossible : Connection → List Output → Type 0
ArePossible c [] = Unit
ArePossible c (o ∷ os) = IsPossible c o × ArePossible (output c o) os

abbrev pub outputs : Connection → List Output → Connection
outputs c [] = c
outputs c (o ∷ os) = outputs (output c o) os

abbrev pub all_written : Connection → List Output → List ℕ
all_written c [] = []
all_written c (o ∷ os) = written c o ++ all_written (output c o) os

abbrev pub all_accepted : Connection → List Output → List ℕ
all_accepted c [] = []
all_accepted c (o ∷ os) = accepted c o ++ all_accepted (output c o) os

if_append : (b : Bool) (s r : List ℕ) → s ++ (if b then [] else r) ≡ (if b then s else s ++ r)
if_append true s r = append-nil s
if_append false s r = refl

take-drop : (n : ℕ) (s : List ℕ) → take n s ++ drop n s ≡ s
unfolding drop
take-drop zero s = refl
take-drop (suc n) [] = refl
take-drop (suc n) (c ∷ s) = ap (◌∷◌ c) (take-drop n s)

output-step :
    (c : Connection) (o : Output)
    → IsBuffered c
    → IsPossible c o
    → IsBuffered (output c o)
      × (pending_bytes c ++ accepted c o ≡ written c o ++ pending_bytes (output c o))
output-step c (queue msg) b h =
    let (b', e) = enqueue_write-pending msg c b in
    (b', if_append (leb buff_size (length c.write_buf + length msg)) (pending_bytes c) msg ∙ sym e)
output-step c (sent n) b h =
    let (b', e) = handle_tcp_write-pending n c b h in
    (
      b',
      append-nil (pending_bytes c)
          ∙ sym (ap (λ r. take n (pending_bytes c) ++ r) e ∙ take-drop n (pending_bytes c)),
    )

-- Nothing is lost, doubled or put out of order on the way out: what waited and the messages that were
-- accepted since are the bytes that went and those that wait, for any interleaving of messages and of
-- partial writes that take no more than waits; and the buffer stays in order.
pub outputs_correct :
    (c : Connection) (os : List Output)
    → IsBuffered c
    → ArePossible c os
    → IsBuffered (outputs c os)
      × (pending_bytes c ++ all_accepted c os ≡ all_written c os ++ pending_bytes (outputs c os))
outputs_correct c [] b h = (b, append-nil (pending_bytes c))
outputs_correct c (o ∷ os) b h =
    let (b1, e1) = output-step c o b h.0 in
    let (b2, e2) = outputs_correct (output c o) os b1 h.1 in
    (
      b2,
      sym (append_assoc (pending_bytes c) (accepted c o) (all_accepted (output c o) os))
          ∙ ap (λ s. s ++ all_accepted (output c o) os) e1
          ∙ append_assoc (written c o) (pending_bytes (output c o)) (all_accepted (output c o) os)
          ∙ ap (λ s. written c o ++ s) e2
          ∙ sym (append_assoc (written c o) (all_written (output c o) os) _),
    )
