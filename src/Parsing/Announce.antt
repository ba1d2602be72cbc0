-- ===== src/Parsing/Announce.antt =====
-- agente_c/src/parsing.c: `parse_announce`.
use tp_sist_op.Prelude.{
  ℕ, zero, suc, Bool, List, [], ◌∷◌, Option, none, some, if◌then◌else◌, ◌||◌, take, bytes_eq, ◌>>=◌,
}
use tp_sist_op.Prelude.Int.{ℤ, negsuc, eqb_ℤ}
use tp_sist_op.Text.Scan.{literal, scan_int, tokens}
use tp_sist_op.Parsing.{cpu_name, mem_name, gpu_name, announce_word}

-- The variables `cpu`, `mem` and `gpu`.
pub record Amounts : Type 0 where
  pub c : ℤ
  pub m : ℤ
  pub g : ℤ

-- `announce_msg_t` of a valid message.
pub record AnnounceMsg : Type 0 where
  pub puerto : ℤ
  pub cpu : ℤ
  pub mem : ℤ
  pub gpu : ℤ

-- `sscanf(token, "<name>:%d", ...) == 1`.
unfoldable pub scan_component : List ℕ → List ℕ → Option ℤ
unfolding literal scan_int
scan_component name token = do
  s ← literal name token
  s' ← literal (b':' ∷ []) s
  (n, _) ← scan_int s'
  some n

-- The three tests of the loop, in their order.
unfoldable pub read_component : List ℕ → Amounts → Option Amounts
unfolding scan_component
read_component token a = elim (scan_component cpu_name token) [
  | some n ↦ some (record a { c = n })
  | none ↦ elim (scan_component mem_name token) [
    | some n ↦ some (record a { m = n })
    | none ↦ elim (scan_component gpu_name token) [
      | some n ↦ some (record a { g = n })
      | none ↦ none
    ]
  ]
]

-- The loop with `3 - i` rounds left.
unfoldable pub read_components : ℕ → List (List ℕ) → Amounts → Option Amounts
unfolding read_component
read_components left [] a = some a
read_components zero (token ∷ next) a = some a
read_components (suc left) (token ∷ next) a = do
  a' ← read_component token a
  read_components left next a'

unfoldable pub is_missing : ℤ → Bool
is_missing n = eqb_ℤ n (negsuc 0)

-- The tokens after `ANNOUNCE`.
unfoldable pub announce_fields : List (List ℕ) → Option AnnounceMsg
unfolding scan_int read_components is_missing
announce_fields [] = none
announce_fields (token ∷ next) = do
  (puerto, _) ← scan_int token
  a ← read_components 3 next (record { c = negsuc 0; m = negsuc 0; g = negsuc 0 })
  if is_missing a.c || is_missing a.m || is_missing a.g
      then none
      else some (record { puerto = puerto; cpu = a.c; mem = a.m; gpu = a.g })

unfoldable pub announce_tokens : List (List ℕ) → Option AnnounceMsg
unfolding announce_fields bytes_eq
announce_tokens [] = none
announce_tokens (token ∷ next) = if bytes_eq token announce_word then announce_fields next else none

-- `strncpy` into `char temp[256]` keeps 255 bytes.
unfoldable pub parse_announce : List ℕ → Option AnnounceMsg
unfolding tokens announce_tokens
parse_announce msg = announce_tokens (tokens (take 255 msg))
