-- ===== src/Parsing.antt =====
-- agente_c/src/parsing.c and its header: the parsers of the messages, on the bytes of a line before
-- the terminating zero. A result whose `valido` is false is `none`.
pub mod JobRequest
pub mod Announce
pub mod Pairs
pub mod Progress
use tp_sist_op.Prelude.{
  ℕ, zero, suc, Bool, true, false, List, [], ◌∷◌, ◌++◌, Option, none, some, if◌then◌else◌, ◌==◌,
  ◌||◌, ltb, length, take, bytes_eq, ◌>>=◌,
}
use tp_sist_op.Prelude.Int.{ℤ, pos, negsuc, ltb_ℤ, eqb_ℤ}
use tp_sist_op.ResourceTypes.{Resource, cpu, mem, gpu}
use tp_sist_op.Text.Scan.{skip_spaces, literal, scan_int, scan_word, scan_field, tokens}

-- The words of the formats.
abbrev pub cpu_name : List ℕ
cpu_name = b'c' ∷ b'p' ∷ b'u' ∷ []

abbrev pub mem_name : List ℕ
mem_name = b'm' ∷ b'e' ∷ b'm' ∷ []

abbrev pub gpu_name : List ℕ
gpu_name = b'g' ∷ b'p' ∷ b'u' ∷ []

-- The `strcmp` chain.
unfoldable pub resource_named : List ℕ → Option Resource
unfolding bytes_eq
resource_named type =
    if bytes_eq type cpu_name
    then some cpu
    else if bytes_eq type mem_name
    then some mem
    else if bytes_eq type gpu_name
    then some gpu
    else none

abbrev pub reserve_word : List ℕ
reserve_word = b'R' ∷ b'E' ∷ b'S' ∷ b'E' ∷ b'R' ∷ b'V' ∷ b'E' ∷ []

abbrev pub release_word : List ℕ
release_word = b'R' ∷ b'E' ∷ b'L' ∷ b'E' ∷ b'A' ∷ b'S' ∷ b'E' ∷ []

abbrev pub granted_word : List ℕ
granted_word = b'G' ∷ b'R' ∷ b'A' ∷ b'N' ∷ b'T' ∷ b'E' ∷ b'D' ∷ []

abbrev pub denied_word : List ℕ
denied_word = b'D' ∷ b'E' ∷ b'N' ∷ b'I' ∷ b'E' ∷ b'D' ∷ []

-- `JOB_`, the start of the planner's words.
abbrev pub job_word : List ℕ → List ℕ
job_word w = b'J' ∷ b'O' ∷ b'B' ∷ b'_' ∷ w

abbrev pub job_request_word : List ℕ
job_request_word = job_word (b'R' ∷ b'E' ∷ b'Q' ∷ b'U' ∷ b'E' ∷ b'S' ∷ b'T' ∷ [])

abbrev pub job_release_word : List ℕ
job_release_word = job_word release_word

abbrev pub job_status_word : List ℕ
job_status_word = job_word (b'S' ∷ b'T' ∷ b'A' ∷ b'T' ∷ b'U' ∷ b'S' ∷ [])

abbrev pub job_denied_word : List ℕ
job_denied_word = job_word denied_word

abbrev pub job_timeout_word : List ℕ
job_timeout_word = job_word (b'T' ∷ b'I' ∷ b'M' ∷ b'E' ∷ b'O' ∷ b'U' ∷ b'T' ∷ [])

abbrev pub announce_word : List ℕ
announce_word = b'A' ∷ b'N' ∷ b'N' ∷ b'O' ∷ b'U' ∷ b'N' ∷ b'C' ∷ b'E' ∷ []

abbrev pub get_nodes_word : List ℕ
get_nodes_word = b'G' ∷ b'E' ∷ b'T' ∷ b'_' ∷ b'N' ∷ b'O' ∷ b'D' ∷ b'E' ∷ b'S' ∷ []

-- `sscanf(msg, "<word> %d", &job_id) == 1`.
unfoldable pub scan_id : List ℕ → List ℕ → Option (ℤ × List ℕ)
unfolding literal skip_spaces scan_int
scan_id word msg = do rest ← literal word msg; scan_int (skip_spaces rest)

-- The parsers of a word and an id.
unfoldable pub parse_id : List ℕ → List ℕ → Option ℤ
unfolding scan_id
parse_id word msg = do (job_id, rest) ← scan_id word msg; some job_id

-- `sscanf(msg, "<word> %d %15s %d", &job_id, type, &amount) == 3`, and the kind of resource.
unfoldable pub parse_amount : List ℕ → List ℕ → Option (ℤ × Resource × ℤ)
unfolding scan_id skip_spaces scan_word scan_int resource_named
parse_amount word msg = do
  (job_id, s) ← scan_id word msg
  (type, s') ← scan_word 15 (skip_spaces s)
  (amount, _) ← scan_int (skip_spaces s')
  r ← resource_named type
  some (job_id, r, amount)

unfoldable pub parse_reserve : List ℕ → Option (ℤ × Resource × ℤ)
unfolding parse_amount
parse_reserve msg = parse_amount reserve_word msg

unfoldable pub parse_release : List ℕ → Option (ℤ × Resource × ℤ)
unfolding parse_amount
parse_release msg = parse_amount release_word msg

unfoldable pub parse_granted : List ℕ → Option ℤ
unfolding parse_id
parse_granted msg = parse_id granted_word msg

unfoldable pub parse_denied : List ℕ → Option ℤ
unfolding parse_id
parse_denied msg = parse_id denied_word msg

unfoldable pub parse_job_release : List ℕ → Option ℤ
unfolding parse_id
parse_job_release msg = parse_id job_release_word msg

unfoldable pub parse_job_status : List ℕ → Option ℤ
unfolding parse_id
parse_job_status msg = parse_id job_status_word msg

unfoldable pub parse_job_denied : List ℕ → Option ℤ
unfolding parse_id
parse_job_denied msg = parse_id job_denied_word msg

unfoldable pub parse_job_timeout : List ℕ → Option ℤ
unfolding parse_id
parse_job_timeout msg = parse_id job_timeout_word msg
