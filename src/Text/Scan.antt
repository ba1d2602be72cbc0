-- ===== src/Text/Scan.antt =====
-- `sscanf` and `strtok_r`, as agente_c/src/parsing.c uses them: each directive takes the text that is
-- left and gives what it read, if it matches, with what follows.
use tp_sist_op.Prelude.{
  ℕ, zero, suc, ◌+◌, ◌-◌, ◌*◌, ◌^◌, Bool, true, false, List, [], ◌∷◌, Option, none, some, ◌&&◌,
  ◌||◌, if◌then◌else◌, leb, ltb, ◌==◌,
}
use tp_sist_op.Prelude.Int.{ℤ, pos, negsuc, wrap}

-- `isspace`: the blank, and tab to carriage return.
abbrev pub is_space : ℕ → Bool
is_space c = c == b' ' || (leb 9 c && leb c 13)

abbrev pub is_digit : ℕ → Bool
is_digit c = leb b'0' c && leb c b'9'

-- A blank in the format.
unfoldable pub skip_spaces : List ℕ → List ℕ
skip_spaces [] = []
skip_spaces (c ∷ s) = if is_space c then skip_spaces s else c ∷ s

-- Any other characters of the format.
unfoldable pub literal : List ℕ → List ℕ → Option (List ℕ)
literal [] s = some s
literal (f ∷ fs) [] = none
literal (f ∷ fs) (c ∷ s) = let rest = literal fs s in if f == c then rest else none

unfoldable pub read_digits : ℕ → List ℕ → ℕ × List ℕ
read_digits n [] = (n, [])
read_digits n (c ∷ s) =
    let more = read_digits (n * 10 + (c - b'0')) s in if is_digit c then more else (n, c ∷ s)

unfoldable pub scan_nat : List ℕ → Option (ℕ × List ℕ)
unfolding read_digits
scan_nat [] = none
scan_nat (c ∷ s) = if is_digit c then some (read_digits 0 (c ∷ s)) else none

unfoldable pub opposite : ℕ → ℤ
opposite zero = pos 0
opposite (suc k) = negsuc k

-- The `long` that `strtol` gives, clamped to 64 bits, stored as an `int`.
unfoldable pub to_int : Bool → ℕ → ℤ
unfolding wrap opposite
to_int true n = wrap (if leb n (2 ^ 63) then opposite n else opposite (2 ^ 63))
to_int false n = wrap (if ltb n (2 ^ 63) then pos n else pos (2 ^ 63 - 1))

unfoldable pub signed : Bool → Option (ℕ × List ℕ) → Option (ℤ × List ℕ)
unfolding to_int
signed minus none = none
signed minus (some (n, rest)) = some (to_int minus n, rest)

unfoldable pub scan_signed : List ℕ → Option (ℤ × List ℕ)
unfolding signed scan_nat
scan_signed [] = none
scan_signed (c ∷ s) =
    if c == b'-'
    then signed true (scan_nat s)
    else if c == b'+'
    then signed false (scan_nat s)
    else signed false (scan_nat (c ∷ s))

-- `%d`.
unfoldable pub scan_int : List ℕ → Option (ℤ × List ℕ)
unfolding skip_spaces scan_signed
scan_int s = scan_signed (skip_spaces s)

-- At most `n` characters that do not pass the test.
unfoldable pub span_until : (ℕ → Bool) → ℕ → List ℕ → List ℕ × List ℕ
span_until p zero s = ([], s)
span_until p (suc n) [] = ([], [])
span_until p (suc n) (c ∷ s) =
    let (w, rest) = span_until p n s in if p c then ([], c ∷ s) else (c ∷ w, rest)

unfoldable pub not_empty : List ℕ × List ℕ → Option (List ℕ × List ℕ)
not_empty ([], rest) = none
not_empty (c ∷ w, rest) = some (c ∷ w, rest)

-- `%<n>s`.
unfoldable pub scan_word : ℕ → List ℕ → Option (List ℕ × List ℕ)
unfolding skip_spaces span_until not_empty
scan_word n s = not_empty (span_until (λ c. is_space c) n (skip_spaces s))

-- `%<n>[^:]`.
unfoldable pub scan_field : ℕ → List ℕ → Option (List ℕ × List ℕ)
unfolding span_until not_empty
scan_field n s = not_empty (span_until (λ c. c == b':') n s)

unfoldable pub push : List ℕ → List (List ℕ) → List (List ℕ)
push [] ws = ws
push (c ∷ w) ws = (c ∷ w) ∷ ws

-- The word that the text starts with, which may be empty, and the tokens after it.
unfoldable pub split_words : List ℕ → List ℕ × List (List ℕ)
unfolding push
split_words [] = ([], [])
split_words (c ∷ s) =
    let (w, ws) = split_words s in if c == b' ' then ([], push w ws) else (c ∷ w, ws)

-- What `strtok_r(..., " ", ...)` gives, one call after another.
unfoldable pub tokens : List ℕ → List (List ℕ)
unfolding push split_words
tokens s = let (w, ws) = split_words s in push w ws
