-- ===== src/Manager/Lines.antt =====
-- The invariant under `process_message` on a line that came in, in this model, in which a negative id and a
-- name that is too long for its buffer do no harm.
use tp_sist_op.Prelude.{
  ℕ, ◌^◌, ◌<◌, Bool, true, false, List, [], ◌∷◌, Option, none, some, ◌≡◌, refl, arith,
  if◌then◌else◌, All,
}
use tp_sist_op.Prelude.Int.{ℤ, pos, pos_part, neg_part, ◌<ℤ◌, negsuc}
use tp_sist_op.ResourceTypes.{Resource}
use tp_sist_op.Parsing.{
  reserve_word, release_word, granted_word, denied_word, job_request_word, get_nodes_word,
  announce_word, job_release_word, job_status_word, job_timeout_word, parse_reserve, parse_release,
  parse_granted, parse_denied, parse_job_release, parse_job_status, parse_job_timeout,
}
use tp_sist_op.Parsing.JobRequest.{ResourceRequest, parse_job_request}
use tp_sist_op.Parsing.Pairs.{IsAsked, parse_job_request-AllAsked}
use tp_sist_op.Manager.{ResourceManager}
use tp_sist_op.Manager.Events.{Command, Event, step}
use tp_sist_op.Manager.Dispatch.{starts_with, if_valid, parse_command, process_message}
use tp_sist_op.Manager.Invariant.{IsValid}
use tp_sist_op.Manager.Building.{AllAsked}
use tp_sist_op.Manager.Reachable.{IsLegalCommand, step-IsValid}

positive-neg_part : (a : ℤ) → pos 0 <ℤ a → neg_part a ≡ 0
positive-neg_part (pos n) h = refl
positive-neg_part (negsuc n) h = absurd (omega arith)

IsAsked-AllAsked : (reqs : List ResourceRequest) → All IsAsked reqs → AllAsked reqs
IsAsked-AllAsked [] h = tt
IsAsked-AllAsked (r ∷ reqs) h = (positive-neg_part r.amount h.0.0, IsAsked-AllAsked reqs h.1)

-- `IsLegalCommand` as a record, which shows its command.
record IsAllowed (c : Command) : Type 0 where
  legal : IsLegalCommand c

if_valid-IsAllowed :
    {A : Type 0} (f : A → Command) (o : Option A)
    → ((a : A) → o ≡ some a → IsLegalCommand (f a))
    → IsAllowed (if_valid f o)
unfolding if_valid
if_valid-IsAllowed f none h = record { legal = tt }
if_valid-IsAllowed f (some a) h = record { legal = h a refl }

choose-IsAllowed :
    (b : Bool) (c d : Command) → IsAllowed c → IsAllowed d → IsAllowed (if b then c else d)
choose-IsAllowed true c d h k = h
choose-IsAllowed false c d h k = k

module _ (msg : List ℕ)
    (asked : (id : ℤ) (t : Resource) (n : ℤ) → parse_reserve msg ≡ some (id, t, n) → neg_part n ≡ 0)
    (released : (id : ℤ) (t : Resource) (n : ℤ)
      → parse_release msg ≡ some (id, t, n)
      → pos_part n < 2 ^ 30) where
  parse_command-IsAllowed : IsAllowed (parse_command msg)
  unfolding parse_command
  parse_command-IsAllowed =
      choose-IsAllowed (starts_with reserve_word msg) _ _
        (if_valid-IsAllowed (λ (id, t, n). Command.reserve id t n) (parse_reserve msg)
          (λ (id, t, n) e. asked id t n e))
        (choose-IsAllowed (starts_with release_word msg) _ _
          (if_valid-IsAllowed (λ (id, t, n). Command.release id t n) (parse_release msg)
            (λ (id, t, n) e. released id t n e))
          (choose-IsAllowed (starts_with granted_word msg) _ _
            (if_valid-IsAllowed (λ id. Command.granted id) (parse_granted msg) (λ id e. tt))
            (choose-IsAllowed (starts_with denied_word msg) _ _
              (if_valid-IsAllowed (λ id. Command.denied id) (parse_denied msg) (λ id e. tt))
              (choose-IsAllowed (starts_with job_request_word msg) _ _
                (if_valid-IsAllowed (λ (id, reqs). Command.job_request id reqs)
                  (parse_job_request msg)
                  (λ (id, reqs) e.
                    IsAsked-AllAsked reqs (parse_job_request-AllAsked msg id reqs e)))
                (choose-IsAllowed (starts_with get_nodes_word msg) _ _ (record { legal = tt })
                  (choose-IsAllowed (starts_with announce_word msg) _ _ (record { legal = tt })
                    (choose-IsAllowed (starts_with job_release_word msg) _ _
                      (if_valid-IsAllowed (λ id. Command.job_release id) (parse_job_release msg)
                        (λ id e. tt))
                      (choose-IsAllowed (starts_with job_status_word msg) _ _
                        (if_valid-IsAllowed (λ id. Command.job_status id) (parse_job_status msg)
                          (λ id e. tt))
                        (choose-IsAllowed (starts_with job_timeout_word msg) _ _
                          (if_valid-IsAllowed (λ id. Command.job_timeout id) (parse_job_timeout msg)
                            (λ id e. tt))
                          (record { legal = tt }))))))))))

  pub process_message-IsValid :
      (conn : ℕ) (tries : List (Option ℕ)) (m : ResourceManager)
      → IsValid m
      → IsValid (process_message conn msg tries m)
  unfolding process_message step
  process_message-IsValid conn tries m v =
      step-IsValid m (Event.message conn (parse_command msg) tries) parse_command-IsAllowed.legal v
