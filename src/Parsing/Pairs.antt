-- ===== src/Parsing/Pairs.antt =====
-- What `parse_job_request` of agente_c/src/parsing.c accepts.
use tp_sist_op.Prelude.{
  ℕ, zero, suc, ◌≤◌, Bool, true, false, List, [], ◌∷◌, Option, none, some, ◌≡◌, refl, inl, inr,
  arith, if◌then◌else◌, length, take, All, All-append, Bool-cases, ◌>>=◌, subst,
}
use tp_sist_op.Prelude.Int.{ℤ, pos, ltb_ℤ, ◌<ℤ◌}
use tp_sist_op.ResourceTypes.{Resource}
use tp_sist_op.Text.Scan.{literal, scan_field, tokens}
use tp_sist_op.Parsing.{resource_named, scan_id, job_request_word}
use tp_sist_op.Parsing.JobRequest.{
  ResourceRequest, resource_list_insert, scan_pair, starts_pair, parse_pairs, parse_token,
  parse_tokens, after_two, parse_job_request,
}

-- A request for something, of an IP that fits the buffer.
abbrev pub IsAsked : ResourceRequest → Type 0
IsAsked r = (pos 0 <ℤ r.amount) × (length r.ip ≤ 15)

-- What a parser gives, if anything.
abbrev pub WhenSome : {A : Type 0} → (A → Type 0) → Option A → Type 0
WhenSome P none = Unit
WhenSome P (some a) = P a

abbrev AllIfAny : Option (List ResourceRequest) → Type 0
AllIfAny = WhenSome (All IsAsked)

pub length-take : (n : ℕ) (s : List ℕ) → length (take n s) ≤ n
length-take zero s = omega arith
length-take (suc n) [] = omega arith
length-take (suc n) (c ∷ s) = omega (arith, length-take n s)

inserted-AllAsked :
    (list : List ResourceRequest) (ip : List ℕ) (type : Resource) (n : ℤ)
    → All IsAsked list
    → All IsAsked (if ltb_ℤ (pos 0) n then resource_list_insert list ip type n else list)
unfolding resource_list_insert
inserted-AllAsked list ip type n h = elim (Bool-cases (ltb_ℤ (pos 0) n)) [
  | inl positive ↦ rw positive (All-append IsAsked list _ h ((ground arith, length-take 15 ip), tt))
  | inr none_left ↦ rw none_left h
]

pub bind-WhenSome :
    {A B : Type 0} (P : B → Type 0) (o : Option A) (f : A → Option B)
    → ((a : A) → o ≡ some a → WhenSome P (f a))
    → WhenSome P (o >>= f)
bind-WhenSome P none f h = tt
bind-WhenSome P (some a) f h = h a refl

choose-AllIfAny :
    (b : Bool) (o o' : Option (List ResourceRequest))
    → AllIfAny o
    → AllIfAny o'
    → AllIfAny (if b then o else o')
choose-AllIfAny true o o' h h' = h
choose-AllIfAny false o o' h h' = h'

rounds-AllIfAny :
    (b : Bool) (o o' : Option (List ResourceRequest))
    → AllIfAny o
    → AllIfAny o'
    → AllIfAny (elim b [ false ↦ o' | true ↦ o ])
rounds-AllIfAny true o o' h h' = h
rounds-AllIfAny false o o' h h' = h'

parse_pairs-AllAsked :
    (fuel : ℕ) (ip rest : List ℕ) (list : List ResourceRequest)
    → All IsAsked list
    → AllIfAny (parse_pairs fuel ip rest list)
unfolding parse_pairs
parse_pairs-AllAsked zero ip rest list h = choose-AllIfAny (starts_pair rest) none (some list) tt h
parse_pairs-AllAsked (suc fuel) ip rest list h =
    rounds-AllIfAny (starts_pair rest) _ (some list)
      (bind-WhenSome (All IsAsked) (scan_pair rest) _ (λ (rec, n, after) e.
        bind-WhenSome (All IsAsked) (resource_named rec) _
          (λ type e'. parse_pairs-AllAsked fuel ip after _ (inserted-AllAsked list ip type n h))))
      h

parse_token-AllAsked :
    (token : List ℕ) (list : List ResourceRequest)
    → All IsAsked list
    → AllIfAny (parse_token token list)
unfolding parse_token
parse_token-AllAsked token list h =
    bind-WhenSome (All IsAsked) (literal (b'@' ∷ []) token) _ (λ s e.
      bind-WhenSome (All IsAsked) (scan_field 15 s) _ (λ (ip, rest) e'.
        choose-AllIfAny (starts_pair rest) (parse_pairs (length rest) ip rest list) none
          (parse_pairs-AllAsked (length rest) ip rest list h) tt))

parse_tokens-AllAsked :
    (ts : List (List ℕ)) (list : List ResourceRequest)
    → All IsAsked list
    → AllIfAny (parse_tokens ts list)
unfolding parse_tokens
parse_tokens-AllAsked [] list h = h
parse_tokens-AllAsked (t ∷ ts) list h =
    bind-WhenSome (All IsAsked) (parse_token t list) (λ list'. parse_tokens ts list')
      (λ list' e. parse_tokens-AllAsked ts list' (subst AllIfAny e (parse_token-AllAsked t list h)))

job_request-AllAsked : (msg : List ℕ) → WhenSome (λ q. All IsAsked q.1) (parse_job_request msg)
unfolding parse_job_request
job_request-AllAsked msg =
    bind-WhenSome (λ q. All IsAsked q.1) (scan_id job_request_word msg) _
      (λ a e.
        bind-WhenSome (λ q. All IsAsked q.1) (parse_tokens (after_two (tokens msg)) []) _
          (λ list e'. subst AllIfAny e' (parse_tokens-AllAsked (after_two (tokens msg)) [] tt)))

-- Every request of a JOB_REQUEST that was accepted asks for more than nothing, of an IP that fits
-- the buffer of 16 bytes.
pub parse_job_request-AllAsked :
    (msg : List ℕ) (id : ℤ) (reqs : List ResourceRequest)
    → parse_job_request msg ≡ some (id, reqs)
    → All IsAsked reqs
parse_job_request-AllAsked msg id reqs e =
    subst (WhenSome (λ q. All IsAsked q.1)) e (job_request-AllAsked msg)
