-- ===== src/Parsing/JobRequest.antt =====
-- agente_c/src/parsing.c: `parse_job_request`.
use tp_sist_op.Prelude.{
  ℕ, zero, suc, Bool, true, false, List, [], ◌∷◌, ◌++◌, Option, none, some, if◌then◌else◌, ◌==◌,
  length, take, ◌>>=◌,
}
use tp_sist_op.Prelude.Int.{ℤ, pos, ltb_ℤ}
use tp_sist_op.ResourceTypes.{Resource}
use tp_sist_op.Text.Scan.{literal, scan_int, scan_field, tokens}
use tp_sist_op.Parsing.{resource_named, scan_id, job_request_word}

-- `resource_request_t`, without its link.
pub record ResourceRequest : Type 0 where
  pub ip : List ℕ
  pub type : Resource
  pub amount : ℤ

-- `resource_list_insert` puts the request at the end; `strncpy` into `char ip[16]` keeps 15 bytes.
unfoldable pub resource_list_insert :
    List ResourceRequest → List ℕ → Resource → ℤ → List ResourceRequest
resource_list_insert list ip type amount =
    list ++ record { ip = take 15 ip; type = type; amount = amount } ∷ []

-- `sscanf(rest, ":%7[^:]:%d%n", rec, &c_amt, &consumed) == 2`, with the text after it. A name of seven bytes
-- is read as such: the zero that the code writes behind `char rec[7]` is not modelled.
unfoldable pub scan_pair : List ℕ → Option (List ℕ × ℤ × List ℕ)
unfolding literal scan_field scan_int
scan_pair rest = do
  s ← literal (b':' ∷ []) rest
  (rec, s') ← scan_field 7 s
  s'' ← literal (b':' ∷ []) s'
  (c_amt, after) ← scan_int s''
  some (rec, c_amt, after)

unfoldable pub starts_pair : List ℕ → Bool
starts_pair [] = false
starts_pair (c ∷ s) = c == b':'

-- The inner loop, on fuel: each round reads some of the token.
unfoldable pub parse_pairs :
    ℕ → List ℕ → List ℕ → List ResourceRequest → Option (List ResourceRequest)
unfolding starts_pair scan_pair resource_named resource_list_insert
parse_pairs zero ip rest list = if starts_pair rest then none else some list
parse_pairs (suc fuel) ip rest list = elim (starts_pair rest) [
  | false ↦ some list
  | true ↦ do
    (rec, c_amt, after) ← scan_pair rest
    type ← resource_named rec
    let list' = if ltb_ℤ (pos 0) c_amt then resource_list_insert list ip type c_amt else list
    parse_pairs fuel ip after list'
]

-- One token: `sscanf(token, "@%15[^:]%n", ip, &ip_len) == 1`, and a pair at least.
unfoldable pub parse_token : List ℕ → List ResourceRequest → Option (List ResourceRequest)
unfolding literal scan_field starts_pair parse_pairs
parse_token token list = do
  s ← literal (b'@' ∷ []) token
  (ip, rest) ← scan_field 15 s
  if starts_pair rest then parse_pairs (length rest) ip rest list else none

unfoldable pub parse_tokens : List (List ℕ) → List ResourceRequest → Option (List ResourceRequest)
unfolding parse_token
parse_tokens [] list = some list
parse_tokens (token ∷ next) list = do list' ← parse_token token list; parse_tokens next list'

-- What is left after two calls of `strtok_r`.
unfoldable pub after_two : List (List ℕ) → List (List ℕ)
after_two [] = []
after_two (w ∷ []) = []
after_two (w ∷ v ∷ ws) = ws

unfoldable pub parse_job_request : List ℕ → Option (ℤ × List ResourceRequest)
unfolding scan_id tokens parse_tokens after_two
parse_job_request msg = do
  (job_id, _) ← scan_id job_request_word msg
  list ← parse_tokens (after_two (tokens msg)) []
  some (job_id, list)
