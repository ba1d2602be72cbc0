-- ===== src/Manager/Dispatch.antt =====
-- agente_c/src/resource_manager.c: `process_message` and `process_announce` on the bytes that came in.
use tp_sist_op.Prelude.{ℕ, Bool, true, false, List, Option, none, some, if◌then◌else◌}
use tp_sist_op.Prelude.Int.{ℤ}
use tp_sist_op.Text.Scan.{literal}
use tp_sist_op.Parsing.{
  reserve_word, release_word, granted_word, denied_word, job_request_word, get_nodes_word,
  announce_word, job_release_word, job_status_word, job_timeout_word, parse_reserve, parse_release,
  parse_granted, parse_denied, parse_job_release, parse_job_status, parse_job_timeout,
}
use tp_sist_op.Parsing.JobRequest.{parse_job_request}
use tp_sist_op.Parsing.Announce.{parse_announce}
use tp_sist_op.Manager.{ResourceManager}
use tp_sist_op.Manager.Events.{Command, execute, process_announce}

-- `strncmp(msg, word, strlen(word)) == 0`.
unfoldable pub starts_with : List ℕ → List ℕ → Bool
unfolding literal
starts_with word msg = elim (literal word msg) [ none ↦ false | some rest ↦ true ]

-- A message that does not parse changes nothing.
unfoldable pub if_valid {ℓ} : {A : Type ℓ} → (A → Command) → Option A → Command
if_valid f none = Command.ignored
if_valid f (some a) = f a

-- The chain of tests, and the parser of each branch.
unfoldable pub parse_command : List ℕ → Command
unfolding starts_with if_valid parse_reserve parse_release parse_granted parse_denied
    parse_job_request parse_job_release parse_job_status parse_job_timeout
parse_command msg =
    if starts_with reserve_word msg
    then if_valid (λ (id, t, n). Command.reserve id t n) (parse_reserve msg)
    else if starts_with release_word msg
    then if_valid (λ (id, t, n). Command.release id t n) (parse_release msg)
    else if starts_with granted_word msg
    then if_valid (λ id. Command.granted id) (parse_granted msg)
    else if starts_with denied_word msg
    then if_valid (λ id. Command.denied id) (parse_denied msg)
    else if starts_with job_request_word msg
    then if_valid (λ (id, reqs). Command.job_request id reqs) (parse_job_request msg)
    else if starts_with get_nodes_word msg
    then Command.get_nodes
    else if starts_with announce_word msg
    then Command.ignored
    else if starts_with job_release_word msg
    then if_valid (λ id. Command.job_release id) (parse_job_release msg)
    else if starts_with job_status_word msg
    then if_valid (λ id. Command.job_status id) (parse_job_status msg)
    else if starts_with job_timeout_word msg
    then if_valid (λ id. Command.job_timeout id) (parse_job_timeout msg)
    else Command.ignored

unfoldable pub process_message : ℕ → List ℕ → List (Option ℕ) → ResourceManager → ResourceManager
unfolding parse_command execute
process_message conn msg tries m = execute conn (parse_command msg) tries m

-- `process_announce`, whose name the parsed message has, at the time `now`.
unfoldable pub receive_announce : List ℕ → List ℕ → ℤ → ResourceManager → ResourceManager
unfolding parse_announce process_announce
receive_announce ip_sender message now m = elim (parse_announce message) [
  | none ↦ m
  | some r ↦ process_announce ip_sender r.puerto r.cpu r.mem r.gpu now m
]
