-- ===== src/Manager/Wire.antt =====
-- The text of the messages: the format strings of `send_message` in agente_c/src/resource_manager.c,
-- and what the agent at the other end makes of them.
use tp_sist_op.Prelude.{
  ℕ, List, [], ◌∷◌, ◌++◌, some, ◌≡◌, refl, ap, ◌∙◌, inl, inr, arith, Bool-cases, bytes_eq,
}
use tp_sist_op.Prelude.Int.{ℤ, IsInt}
use tp_sist_op.ResourceTypes.{Resource, cpu, mem, gpu}
use tp_sist_op.Text.{print_int}
use tp_sist_op.Text.Scan.{
  literal, skip_spaces, scan_int, scan_signed, is_space, scan_word, span_until, not_empty,
}
use tp_sist_op.Text.Roundtrip.{Stops, scan_int-print_int}
use tp_sist_op.Parsing.{
  cpu_name, mem_name, gpu_name, resource_named, reserve_word, release_word, granted_word,
  denied_word, job_word, job_status_word, job_denied_word, scan_id, parse_id, parse_amount,
  parse_reserve, parse_release, parse_granted, parse_denied,
}
use tp_sist_op.Jobs.{Message}
use tp_sist_op.Manager.Events.{Command}
use tp_sist_op.Manager.Dispatch.{starts_with, if_valid, parse_command}

-- `resource_type_to_str`.
unfoldable pub resource_type_to_str : Resource → List ℕ
resource_type_to_str cpu = cpu_name
resource_type_to_str mem = mem_name
resource_type_to_str gpu = gpu_name

-- `<word> %d`.
unfoldable pub text_of_id : List ℕ → ℤ → List ℕ → List ℕ
unfolding print_int
text_of_id word id rest = word ++ b' ' ∷ (print_int id ++ rest)

-- `<word> %d %s %d`.
unfoldable pub text_of_amount : List ℕ → ℤ → Resource → ℤ → List ℕ
unfolding text_of_id resource_type_to_str print_int
text_of_amount word id t amount =
    text_of_id word id (b' ' ∷ (resource_type_to_str t ++ b' ' ∷ (print_int amount ++ [])))

abbrev active : List ℕ
active = b' ' ∷ b'A' ∷ b'C' ∷ b'T' ∷ b'I' ∷ b'V' ∷ b'E' ∷ []

abbrev unknown : List ℕ
unknown = b' ' ∷ b'U' ∷ b'N' ∷ b'K' ∷ b'N' ∷ b'O' ∷ b'W' ∷ b'N' ∷ []

-- A message without the end of its line; a buffer that was not written has no text.
unfoldable pub message_text : Message → List ℕ
unfolding text_of_id text_of_amount
message_text (Message.reserve id t amount) = text_of_amount reserve_word id t amount
message_text (Message.release id t amount) = text_of_amount release_word id t amount
message_text (Message.grant id) = text_of_id granted_word id []
message_text (Message.deny id) = text_of_id denied_word id []
message_text (Message.job_granted id) = text_of_id (job_word granted_word) id []
message_text (Message.job_denied id) = text_of_id job_denied_word id []
message_text (Message.job_active id) = text_of_id job_status_word id active
message_text (Message.job_unknown id) = text_of_id job_status_word id unknown
message_text (Message.nodes line) = line
message_text Message.indeterminate = []

pub literal-append : (word rest : List ℕ) → literal word (word ++ rest) ≡ some rest
unfolding literal
literal-append [] rest = refl
literal-append (c ∷ word) rest = ground (arith, literal-append word rest)

skip_spaces_twice : (s : List ℕ) → skip_spaces (skip_spaces s) ≡ skip_spaces s
unfolding skip_spaces
skip_spaces_twice [] = refl
skip_spaces_twice (c ∷ s) = elim (Bool-cases (is_space c)) [
  | inl blank ↦ rw blank (skip_spaces_twice s)
  | inr other ↦ rw other (rw other refl)
]

-- `%d` after a blank of the format.
scan_int-skip_spaces :
    (a : ℤ) (rest : List ℕ)
    → IsInt a
    → Stops rest
    → scan_int (skip_spaces (print_int a ++ rest)) ≡ some (a, rest)
unfolding scan_int
scan_int-skip_spaces a rest h k =
    ap scan_signed (skip_spaces_twice (print_int a ++ rest)) ∙ scan_int-print_int a rest h k

scan_id-text_of_id :
    (word : List ℕ) (id : ℤ) (rest : List ℕ)
    → IsInt id
    → Stops rest
    → scan_id word (text_of_id word id rest) ≡ some (id, rest)
unfolding scan_id text_of_id skip_spaces
scan_id-text_of_id word id rest h k =
    rw (literal-append word (b' ' ∷ (print_int id ++ rest))) (scan_int-skip_spaces id rest h k)

-- `%15s` after a blank of the format.
scan_word-resource_type_to_str :
    (t : Resource) (rest : List ℕ)
    → scan_word 15 (skip_spaces (b' ' ∷ (resource_type_to_str t ++ b' ' ∷ rest)))
      ≡ some (resource_type_to_str t, b' ' ∷ rest)
unfolding scan_word skip_spaces span_until not_empty resource_type_to_str
scan_word-resource_type_to_str cpu rest = refl
scan_word-resource_type_to_str mem rest = refl
scan_word-resource_type_to_str gpu rest = refl

resource_named-resource_type_to_str :
    (t : Resource) → resource_named (resource_type_to_str t) ≡ some t
unfolding resource_named resource_type_to_str bytes_eq
resource_named-resource_type_to_str cpu = refl
resource_named-resource_type_to_str mem = refl
resource_named-resource_type_to_str gpu = refl

scan_int-blank :
    (a : ℤ) → IsInt a → scan_int (skip_spaces (b' ' ∷ (print_int a ++ []))) ≡ some (a, [])
unfolding skip_spaces
scan_int-blank a h = scan_int-skip_spaces a [] h tt

parse_amount-text_of_amount :
    (word : List ℕ) (id amount : ℤ) (t : Resource)
    → IsInt id
    → IsInt amount
    → parse_amount word (text_of_amount word id t amount) ≡ some (id, t, amount)
unfolding parse_amount text_of_amount
parse_amount-text_of_amount word id amount t h k = rw (scan_id-text_of_id word id _ h refl) (
    rw (scan_word-resource_type_to_str t (print_int amount ++ []))
      (rw (scan_int-blank amount k) (rw (resource_named-resource_type_to_str t) refl)))

parse_id-text_of_id :
    (word : List ℕ) (id : ℤ) → IsInt id → parse_id word (text_of_id word id []) ≡ some id
unfolding parse_id
parse_id-text_of_id word id h = rw (scan_id-text_of_id word id [] h tt) refl

-- What one agent writes to another is read as it was meant: a RESERVE and a RELEASE with their job,
-- resource and amount, and a GRANTED and a DENIED with their job, for every value of an `int`.
pub parse_command-message_text :
    (id amount : ℤ) (t : Resource)
    → IsInt id
    → IsInt amount
    → (parse_command (message_text (Message.reserve id t amount)) ≡ Command.reserve id t amount)
      × (parse_command (message_text (Message.release id t amount)) ≡ Command.release id t amount)
      × (parse_command (message_text (Message.grant id)) ≡ Command.granted id)
      × (parse_command (message_text (Message.deny id)) ≡ Command.denied id)
unfolding message_text parse_command starts_with literal text_of_id text_of_amount parse_reserve
    parse_release parse_granted parse_denied
parse_command-message_text id amount t h k = (
  ap (if_valid (λ (id', t', n). Command.reserve id' t' n))
      (parse_amount-text_of_amount reserve_word id amount t h k),
  ap (if_valid (λ (id', t', n). Command.release id' t' n))
      (parse_amount-text_of_amount release_word id amount t h k),
  ap (if_valid (λ id'. Command.granted id')) (parse_id-text_of_id granted_word id h),
  ap (if_valid (λ id'. Command.denied id')) (parse_id-text_of_id denied_word id h),
)
