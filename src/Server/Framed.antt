-- ===== src/Server/Framed.antt =====
-- The messages that one agent sends to another, as agente_c/src/resource_manager.c formats them: each is one
-- line, and it is read as it is meant.
use tp_sist_op.Prelude.{
  ℕ, zero, suc, ◌+◌, ◌≤◌, Bool, true, false, not, ◌&&◌, List, [], ◌∷◌, ◌++◌, ◌≡◌, refl, ap, ◌∙◌,
  arith, ◌==◌, length, length-append, take, take_all, All, All-append, inl, inr, ltb, Bool-cases,
  ◌%◌, ◌/◌,
}
use tp_sist_op.Prelude.Int.{ℤ, pos, negsuc, IsInt}
use tp_sist_op.ResourceTypes.{Resource, cpu, mem, gpu}
use tp_sist_op.Text.{digits, decimal, print_int}
use tp_sist_op.Parsing.{reserve_word, release_word, granted_word, denied_word}
use tp_sist_op.Jobs.{Message}
use tp_sist_op.Manager.Events.{Command}
use tp_sist_op.Manager.Dispatch.{parse_command}
use tp_sist_op.Manager.Wire.{
  resource_type_to_str, text_of_id, text_of_amount, message_text, parse_command-message_text,
}
use tp_sist_op.Server.{push_byte, split_lines}
use tp_sist_op.Server.Epoll.{formatted}
use tp_sist_op.Text.Words.{print_int-length}

-- No end of line and no zero.
abbrev pub IsLine : List ℕ → Type 0
IsLine s = All (λ c. ((c == 0) ≡ false) × ((c == b'\n') ≡ false)) s

pub split_lines-line :
    (w s : List ℕ)
    → IsLine w
    → split_lines (w ++ b'\n' ∷ s) ≡ (w ∷ (split_lines s).0, (split_lines s).1)
unfolding split_lines push_byte
split_lines-line [] s h = refl
split_lines-line (c ∷ w) s h = rw (h.0.0) (rw (h.0.1) (ap (push_byte c) (split_lines-line w s h.1)))

digits-IsLine : (fuel n : ℕ) (acc : List ℕ) → IsLine acc → IsLine (digits fuel n acc)
unfolding digits
digits-IsLine zero n acc h = h
digits-IsLine (suc fuel) n acc h =
    let k : ((n % 10 + b'0' == 0) ≡ false) × ((n % 10 + b'0' == b'\n') ≡ false) =
      (ground arith, ground arith) in
    elim (Bool-cases (ltb n 10)) [
      | inl small ↦ rw small (k, h)
      | inr large ↦ rw large (digits-IsLine fuel (n / 10) _ (k, h))
    ]

print_int-IsLine : (a : ℤ) → IsLine (print_int a)
unfolding print_int decimal
print_int-IsLine (pos n) = digits-IsLine (suc n) n [] tt
print_int-IsLine (negsuc n) = ((refl, refl), digits-IsLine (suc (suc n)) (suc n) [] tt)

resource_type_to_str-IsLine : (t : Resource) → IsLine (resource_type_to_str t)
unfolding resource_type_to_str
resource_type_to_str-IsLine cpu = ((refl, refl), ((refl, refl), ((refl, refl), tt)))
resource_type_to_str-IsLine mem = ((refl, refl), ((refl, refl), ((refl, refl), tt)))
resource_type_to_str-IsLine gpu = ((refl, refl), ((refl, refl), ((refl, refl), tt)))

text_of_id-IsLine :
    (word : List ℕ) (id : ℤ) (rest : List ℕ)
    → IsLine word
    → IsLine rest
    → IsLine (text_of_id word id rest)
unfolding text_of_id
text_of_id-IsLine word id rest h k =
    All-append _ word _ h ((refl, refl), All-append _ (print_int id) rest (print_int-IsLine id) k)

text_of_amount-IsLine :
    (word : List ℕ) (id amount : ℤ) (t : Resource)
    → IsLine word
    → IsLine (text_of_amount word id t amount)
unfolding text_of_amount
text_of_amount-IsLine word id amount t h = text_of_id-IsLine word id _ h (
  (refl, refl),
  All-append _ (resource_type_to_str t) _ (resource_type_to_str-IsLine t)
      ((refl, refl), All-append _ (print_int amount) [] (print_int-IsLine amount) tt),
)

text_of_id-length :
    (word : List ℕ) (id : ℤ) (rest : List ℕ)
    → IsInt id
    → length (text_of_id word id rest) ≤ length word + 12 + length rest
unfolding text_of_id
text_of_id-length word id rest h = omega (
  arith,
  print_int-length id h,
  length-append word (b' ' ∷ (print_int id ++ rest)),
  length-append (print_int id) rest,
)

resource_type_to_str-length : (t : Resource) → length (resource_type_to_str t) ≤ 3
unfolding resource_type_to_str
resource_type_to_str-length cpu = omega arith
resource_type_to_str-length mem = omega arith
resource_type_to_str-length gpu = omega arith

text_of_amount-length :
    (word : List ℕ) (id amount : ℤ) (t : Resource)
    → length word ≤ 7
    → IsInt id
    → IsInt amount
    → length (text_of_amount word id t amount) ≤ 40
unfolding text_of_amount
text_of_amount-length word id amount t h i j =
    let name = resource_type_to_str t in
    omega (
      arith,
      text_of_id-length word id (b' ' ∷ (name ++ b' ' ∷ (print_int amount ++ []))) i,
      length-append name (b' ' ∷ (print_int amount ++ [])),
      length-append (print_int amount) [],
      resource_type_to_str-length t,
      print_int-length amount j,
    )

-- A message that one agent sends to another, with values of an `int`.
abbrev pub IsSendable : Message → Type 0
IsSendable (Message.reserve id t amount) = IsInt id × IsInt amount
IsSendable (Message.release id t amount) = IsInt id × IsInt amount
IsSendable (Message.grant id) = IsInt id
IsSendable (Message.deny id) = IsInt id
IsSendable _ = ⊥

-- What the receiver is to make of it.
abbrev pub meaning : Message → Command
meaning (Message.reserve id t amount) = Command.reserve id t amount
meaning (Message.release id t amount) = Command.release id t amount
meaning (Message.grant id) = Command.granted id
meaning (Message.deny id) = Command.denied id
meaning _ = Command.ignored

-- A sendable message: its line is whole, is one line, and is read as it is meant.
pub record IsFramed (m : Message) : Type 0 where
  pub whole : formatted m ≡ message_text m ++ b'\n' ∷ []
  pub line : IsLine (message_text m)
  pub meant : parse_command (message_text m) ≡ meaning m

fits_buffer : (s : List ℕ) → length s ≤ 40 → take 1023 (s ++ b'\n' ∷ []) ≡ s ++ b'\n' ∷ []
fits_buffer s h = take_all 1023 (s ++ b'\n' ∷ []) (omega (arith, length-append s (b'\n' ∷ []), h))

-- What is printed in letters is a line.
is_line : List ℕ → Bool
is_line [] = true
is_line (c ∷ s) = not (c == 0) && not (c == b'\n') && is_line s

is_line-IsLine : (s : List ℕ) → is_line s ≡ true → IsLine s
unfolding is_line
is_line-IsLine [] h = tt
is_line-IsLine (c ∷ s) h = ground (arith, is_line-IsLine s)

amount-IsFramed :
    (word : List ℕ) (m : Message) (id amount : ℤ) (t : Resource)
    → message_text m ≡ text_of_amount word id t amount
    → formatted m ≡ take 1023 (message_text m ++ b'\n' ∷ [])
    → is_line word ≡ true
    → length word ≤ 7
    → IsInt id
    → IsInt amount
    → parse_command (message_text m) ≡ meaning m
    → IsFramed m
amount-IsFramed word m id amount t text shape h l i j meant = record {
  whole =
      shape ∙ fits_buffer (message_text m) (rw text (text_of_amount-length word id amount t l i j));
  line = rw text (text_of_amount-IsLine word id amount t (is_line-IsLine word h));
  meant = meant;
}

id-IsFramed :
    (word : List ℕ) (m : Message) (id : ℤ)
    → message_text m ≡ text_of_id word id []
    → formatted m ≡ take 1023 (message_text m ++ b'\n' ∷ [])
    → is_line word ≡ true
    → length word ≤ 7
    → IsInt id
    → parse_command (message_text m) ≡ meaning m
    → IsFramed m
id-IsFramed word m id text shape h l i meant = record {
  whole =
      shape
      ∙ fits_buffer (message_text m) (rw text (omega (arith, text_of_id-length word id [] i)));
  line = rw text (text_of_id-IsLine word id [] (is_line-IsLine word h) tt);
  meant = meant;
}

pub sendable-IsFramed : (m : Message) → IsSendable m → IsFramed m
unfolding message_text formatted is_line
sendable-IsFramed (Message.reserve id t amount) (i, j) =
    amount-IsFramed reserve_word (Message.reserve id t amount) id amount t refl refl refl
      (omega arith) i j (parse_command-message_text id amount t i j).0
sendable-IsFramed (Message.release id t amount) (i, j) =
    amount-IsFramed release_word (Message.release id t amount) id amount t refl refl refl
      (omega arith) i j (parse_command-message_text id amount t i j).1
sendable-IsFramed (Message.grant id) i =
    id-IsFramed granted_word (Message.grant id) id refl refl refl (omega arith) i
      (parse_command-message_text id id cpu i i).2
sendable-IsFramed (Message.deny id) i =
    id-IsFramed denied_word (Message.deny id) id refl refl refl (omega arith) i
      (parse_command-message_text id id cpu i i).3
sendable-IsFramed (Message.job_granted id) h = absurd h
sendable-IsFramed (Message.job_denied id) h = absurd h
sendable-IsFramed (Message.job_active id) h = absurd h
sendable-IsFramed (Message.job_unknown id) h = absurd h
sendable-IsFramed (Message.nodes line) h = absurd h
sendable-IsFramed Message.indeterminate h = absurd h
