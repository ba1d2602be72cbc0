-- ===== src/Parsing/Progress.antt =====
-- The inner loop of `parse_job_request` of agente_c/src/parsing.c: what each round reads.
use tp_sist_op.Prelude.{
  ℕ, zero, suc, ◌+◌, ◌-◌, ◌*◌, ◌<◌, ◌≤◌, Bool, true, false, List, [], ◌∷◌, Option, none, some, ◌≡◌,
  refl, ap, inl, inr, arith, if◌then◌else◌, ◌==◌, length, Bool-cases, Option-cases, ◌>>=◌, subst,
}
use tp_sist_op.Prelude.Int.{ℤ}
use tp_sist_op.Text.Scan.{
  literal, scan_int, scan_signed, signed, scan_nat, read_digits, skip_spaces, is_digit, scan_field,
  span_until, not_empty,
}
use tp_sist_op.Parsing.{resource_named}
use tp_sist_op.Parsing.JobRequest.{ResourceRequest, scan_pair, starts_pair, parse_pairs}
use tp_sist_op.Parsing.Pairs.{WhenSome, bind-WhenSome}

literal-length :
    (word s : List ℕ) → WhenSome (λ r. length word + length r ≡ length s) (literal word s)
unfolding literal
literal-length [] s = omega arith
literal-length (f ∷ fs) [] = tt
literal-length (f ∷ fs) (c ∷ s) = elim (Bool-cases (f == c)) [
  | inl same ↦
      rw (same, WhenSome)
        (elim (Option-cases (literal fs s)) [
          | inl bad ↦ rw (bad, WhenSome) tt
          | inr (r, good) ↦
              rw (good, WhenSome)
                (omega (
                  arith,
                  subst (WhenSome (λ r. length fs + length r ≡ length s)) good
                      (literal-length fs s),
                ))
        ])
  | inr other ↦ rw (other, WhenSome) tt
]

skip_spaces-length : (s : List ℕ) → length (skip_spaces s) ≤ length s
unfolding skip_spaces
skip_spaces-length [] = omega arith
skip_spaces-length (c ∷ s) = ground (arith, skip_spaces-length s)

read_digits-length : (n : ℕ) (s : List ℕ) → length (read_digits n s).1 ≤ length s
unfolding read_digits
read_digits-length n [] = omega arith
read_digits-length n (c ∷ s) = ground (arith, read_digits-length (n * 10 + (c - b'0')) s)

choose-WhenSome :
    {A : Type 0} (P : A → Type 0) (b : Bool) (o o' : Option A)
    → WhenSome P o
    → WhenSome P o'
    → WhenSome P (if b then o else o')
choose-WhenSome P true o o' h h' = h
choose-WhenSome P false o o' h h' = h'

scan_nat-length : (s : List ℕ) → WhenSome (λ q. length q.1 ≤ length s) (scan_nat s)
unfolding scan_nat
scan_nat-length [] = tt
scan_nat-length (c ∷ s) =
    choose-WhenSome _ (is_digit c) (some (read_digits 0 (c ∷ s))) none
      (read_digits-length 0 (c ∷ s)) tt

signed-length :
    (minus : Bool) (o : Option (ℕ × List ℕ)) (n : ℕ)
    → WhenSome (λ q. length q.1 ≤ n) o
    → WhenSome (λ q. length q.1 ≤ n) (signed minus o)
unfolding signed
signed-length minus none n h = tt
signed-length minus (some (k, rest)) n h = h

span_until-length : (p : ℕ → Bool) (n : ℕ) (s : List ℕ) → length (span_until p n s).1 ≤ length s
unfolding span_until
span_until-length p zero s = omega arith
span_until-length p (suc n) [] = omega arith
span_until-length p (suc n) (c ∷ s) = ground (arith, span_until-length p n s)

not_empty-length :
    (q : List ℕ × List ℕ) (n : ℕ) → length q.1 ≤ n → WhenSome (λ q'. length q'.1 ≤ n) (not_empty q)
unfolding not_empty
not_empty-length ([], rest) n h = tt
not_empty-length (c ∷ w, rest) n h = h

scan_field-length : (n : ℕ) (s : List ℕ) → WhenSome (λ q. length q.1 ≤ length s) (scan_field n s)
unfolding scan_field
scan_field-length n s = not_empty-length _ _ (span_until-length (λ c. c == b':') n s)

weaken :
    {A : Type 0} (o : Option (A × List ℕ)) (m n : ℕ)
    → m ≤ n
    → WhenSome (λ q. length q.1 ≤ m) o
    → WhenSome (λ q. length q.1 ≤ n) o
weaken none m n le h = tt
weaken (some q) m n le h = omega arith

scan_signed-length : (s : List ℕ) → WhenSome (λ q. length q.1 ≤ length s) (scan_signed s)
unfolding scan_signed
scan_signed-length [] = tt
scan_signed-length (c ∷ s) =
    let after_sign = λ (minus : Bool).
      signed-length minus (scan_nat s) (suc (length s))
        (weaken (scan_nat s) (length s) (suc (length s)) (omega arith) (scan_nat-length s)) in
    choose-WhenSome _ (c == b'-') _ _ (after_sign true) (
      choose-WhenSome _ (c == b'+') _ _ (after_sign false)
        (signed-length false (scan_nat (c ∷ s)) _ (scan_nat-length (c ∷ s))))

scan_int-length : (s : List ℕ) → WhenSome (λ q. length q.1 ≤ length s) (scan_int s)
unfolding scan_int
scan_int-length s =
    weaken (scan_signed (skip_spaces s)) _ _ (skip_spaces-length s)
      (scan_signed-length (skip_spaces s))

scan_pair-length : (rest : List ℕ) → WhenSome (λ q. length q.2 < length rest) (scan_pair rest)
unfolding scan_pair
scan_pair-length rest = bind-WhenSome _ (literal (b':' ∷ []) rest) _ (λ s e.
    bind-WhenSome _ (scan_field 7 s) _ (λ (rec, s1) e1.
      bind-WhenSome _ (literal (b':' ∷ []) s1) _ (λ s2 e2.
        bind-WhenSome _ (scan_int s2) _ (λ (n, after) e3. omega (
          arith,
          subst (WhenSome (λ r. 1 + length r ≡ length rest)) e (literal-length (b':' ∷ []) rest),
          subst (WhenSome (λ q. length q.1 ≤ length s)) e1 (scan_field-length 7 s),
          subst (WhenSome (λ r. 1 + length r ≡ length s1)) e2 (literal-length (b':' ∷ []) s1),
          subst (WhenSome (λ q. length q.1 ≤ length s2)) e3 (scan_int-length s2),
        )))))

shorter :
    (rest after rec : List ℕ) (n : ℤ) (fuel : ℕ)
    → scan_pair rest ≡ some (rec, n, after)
    → length rest ≤ suc fuel
    → length after ≤ fuel
shorter rest after rec n fuel e h =
    omega (arith, subst (WhenSome (λ q. length q.2 < length rest)) e (scan_pair-length rest))

bind_cong :
    {A B : Type 0} (o : Option A) (f g : A → Option B)
    → ((a : A) → o ≡ some a → f a ≡ g a)
    → (o >>= f) ≡ (o >>= g)
bind_cong none f g h = refl
bind_cong (some a) f g h = h a refl

-- The fuel of the inner loop of `parse_job_request` is enough: any two amounts of fuel that are at
-- least the length of the text give the same result, so the loop never ends for the lack of it.
pub parse_pairs_enough :
    (f g : ℕ) (ip rest : List ℕ) (list : List ResourceRequest)
    → length rest ≤ f
    → length rest ≤ g
    → parse_pairs f ip rest list ≡ parse_pairs g ip rest list
unfolding parse_pairs starts_pair
parse_pairs_enough zero zero ip rest list h k = refl
parse_pairs_enough zero (suc g) ip [] list h k = refl
parse_pairs_enough zero (suc g) ip (c ∷ s) list h k = absurd (omega arith)
parse_pairs_enough (suc f) zero ip [] list h k = refl
parse_pairs_enough (suc f) zero ip (c ∷ s) list h k = absurd (omega arith)
parse_pairs_enough (suc f) (suc g) ip rest list h k =
    ap (λ o. elim (starts_pair rest) [ false ↦ some list | true ↦ o ])
      (bind_cong (scan_pair rest) _ _ (λ (rec, n, after) e.
        bind_cong (resource_named rec) _ _ (λ type e1.
          parse_pairs_enough f g ip after _ (shorter rest after rec n f e h)
            (shorter rest after rec n g e k))))
