-- ===== src/Tests/Wire.antt =====
-- The text of messages and the last theorems about the handlers, at concrete states.
use tp_sist_op.Prelude.{
  ℕ, ◌<◌, true, false, List, [], ◌∷◌, ◌++◌, none, some, ◌≡◌, refl, arith, All, length, get_or,
  replicate, set,
}
use tp_sist_op.Prelude.Int.{pos, ◌-ℤ◌}
use tp_sist_op.ResourceTypes.{cpu, gpu}
use tp_sist_op.Jobs.{tabla_jobs_insertar_job, Message, crear_outrequest, tabla_jobs_buscar_por_id}
use tp_sist_op.Jobs.Sweep.{tabla_jobs_get_pendientes_by_conn}
use tp_sist_op.Parsing.{job_request_word, announce_word}
use tp_sist_op.Parsing.JobRequest.{ResourceRequest, parse_job_request, parse_pairs}
use tp_sist_op.Parsing.Announce.{parse_announce}
use tp_sist_op.Parsing.Pairs.{IsAsked, parse_job_request-AllAsked}
use tp_sist_op.Parsing.Progress.{parse_pairs_enough}
use tp_sist_op.Conns.{tabla_conns_init, tabla_conns_lookup}
use tp_sist_op.Nodes.Purge.{announced}
use tp_sist_op.Manager.{ResourceManager, recurso, manager_init, can_serve, limpiar_colas_por_id}
use tp_sist_op.Manager.NodeList.{buff_size, last_is, node_list}
use tp_sist_op.Manager.Answer.{node_list_fits}
use tp_sist_op.Manager.Resources.{IsSound}
use tp_sist_op.Manager.Handlers.{on_reserve, on_release}
use tp_sist_op.Manager.Stranded.{
  limpiar_colas_por_id_strands, on_release_leaks, process_connection_ready_loses,
}
use tp_sist_op.Manager.Events.{Command, process_connection_ready}
use tp_sist_op.Manager.Dispatch.{parse_command}
use tp_sist_op.Manager.Wire.{message_text, parse_command-message_text}
use tp_sist_op.Manager.Invariant.{IsValid, manager_init-IsValid}
use tp_sist_op.Tests.Requests.{first_request, second_request, two_waiting, two_waiting-IsCounted}

-- `JOB_REQUEST 6 @1:cpu:2`.
abbrev pairs : List ℕ
pairs = b':' ∷ b'c' ∷ b'p' ∷ b'u' ∷ b':' ∷ b'2' ∷ []

abbrev job_line : List ℕ
job_line = job_request_word ++ b' ' ∷ b'6' ∷ b' ' ∷ b'@' ∷ b'1' ∷ pairs

abbrev two_cpus : ResourceRequest
two_cpus = record { ip = b'1' ∷ []; type = cpu; amount = pos 2 }

job_line-parses : parse_job_request job_line ≡ some (pos 6, two_cpus ∷ [])
unfolding parse_job_request
job_line-parses = refl

parse_job_request-AllAsked_example : All IsAsked (two_cpus ∷ [])
parse_job_request-AllAsked_example =
    parse_job_request-AllAsked job_line (pos 6) (two_cpus ∷ []) job_line-parses

parse_pairs_enough_example : parse_pairs 6 (b'1' ∷ []) pairs [] ≡ parse_pairs 9 (b'1' ∷ []) pairs []
parse_pairs_enough_example = parse_pairs_enough 6 9 (b'1' ∷ []) pairs [] (omega arith) (omega arith)

parse_command-message_text_example :
    (parse_command (message_text (Message.reserve (pos 5) cpu (pos 31)))
      ≡ Command.reserve (pos 5) cpu (pos 31))
    × (parse_command (message_text (Message.release (pos 5) cpu (pos 31)))
        ≡ Command.release (pos 5) cpu (pos 31))
    × (parse_command (message_text (Message.grant (pos 5))) ≡ Command.granted (pos 5))
    × (parse_command (message_text (Message.deny (pos 5))) ≡ Command.denied (pos 5))
parse_command-message_text_example =
    parse_command-message_text (pos 5) (pos 31) cpu (omega arith, omega arith)
      (omega arith, omega arith)

abbrev agent : ResourceManager
agent = manager_init (pos 4) (pos 8) (pos 1)

agent-IsValid : IsValid agent
agent-IsValid =
    manager_init-IsValid _ _ _ (omega arith, refl) (omega arith, refl) (omega arith, refl)

node_list_fits_example :
    (length (node_list ((announced (b'1' ∷ []) (pos 80) (pos 4) (pos 8) (pos 1) (pos 3) ∷ []) ∷ []))
      < buff_size)
    × (last_is b'\n'
          (node_list ((announced (b'1' ∷ []) (pos 80) (pos 4) (pos 8) (pos 1) (pos 3) ∷ []) ∷ []))
        ≡ true)
node_list_fits_example =
    node_list_fits ((announced (b'1' ∷ []) (pos 80) (pos 4) (pos 8) (pos 1) (pos 3) ∷ []) ∷ [])

-- Two of 6 CPUs are free, the first request wants 3 and the second one 2.
abbrev blocked : ResourceManager
blocked = record agent {
  recurso_cpu = record { available_amount = pos 2; total_amount = pos 6; cola = two_waiting };
}

blocked-IsSound : IsSound (recurso cpu blocked)
unfolding recurso
blocked-IsSound = record {
  total = (omega arith, refl);
  available = (omega arith, refl);
  within = omega arith;
  waits = (((omega arith, refl), omega arith), (((omega arith, refl), omega arith), tt));
  counted = two_waiting-IsCounted;
}

limpiar_colas_por_id_strands_example :
    (can_serve (recurso cpu blocked) ≡ false)
    × (can_serve (recurso cpu (limpiar_colas_por_id (pos 5) blocked)) ≡ true)
    × ((limpiar_colas_por_id (pos 5) blocked).out ≡ blocked.out)
unfolding recurso
limpiar_colas_por_id_strands_example =
    limpiar_colas_por_id_strands blocked cpu (pos 5) first_request second_request [] blocked-IsSound
      refl refl refl (omega arith) (omega arith)

on_release_leaks_example :
    (recurso cpu
      (on_release (pos 5) gpu (pos 0) (on_reserve 9 (pos 5) cpu (pos 3) agent))).available_amount
    ≡ (recurso cpu agent).available_amount -ℤ pos 3
unfolding recurso manager_init tabla_jobs_buscar_por_id get_or replicate
on_release_leaks_example =
    on_release_leaks agent cpu gpu 9 (pos 5) (pos 3) (agent-IsValid.sound cpu) refl (omega arith)
      refl

abbrev long_ip : List ℕ
long_ip =
    b'1' ∷ b'9' ∷ b'2' ∷ b'.' ∷ b'1' ∷ b'6' ∷ b'8' ∷ b'.' ∷ b'1' ∷ b'0' ∷ b'0' ∷ b'.' ∷ b'1' ∷ b'0'
    ∷ b'1' ∷ []

-- A job that waits for the answer of the node of this IP, to which connection 9 is being made.
abbrev asking : ResourceManager
asking = record agent {
  tabla = tabla_jobs_insertar_job agent.tabla (record {
    job_id = pos 4;
    conn = 2;
    confirmadas = [];
    pendientes = crear_outrequest long_ip 9 cpu (pos 2) none ∷ [];
  });
}

process_connection_ready_loses_example :
    tabla_conns_lookup (process_connection_ready 9 asking).conns long_ip
    ≡ tabla_conns_lookup asking.conns long_ip
unfolding tabla_conns_init replicate manager_init tabla_jobs_insertar_job set get_or
    tabla_jobs_get_pendientes_by_conn
process_connection_ready_loses_example =
    process_connection_ready_loses asking 9 ((long_ip, cpu, pos 2, none) ∷ []) long_ip refl refl
      refl

-- `ANNOUNCE 80 gpu:1 cpu:4 mem:8`.
abbrev announce_line : List ℕ
announce_line =
    announce_word
    ++ b' ' ∷ b'8' ∷ b'0' ∷ b' ' ∷ b'g' ∷ b'p' ∷ b'u' ∷ b':' ∷ b'1' ∷ b' ' ∷ b'c' ∷ b'p' ∷ b'u'
      ∷ b':' ∷ b'4' ∷ b' ' ∷ b'm' ∷ b'e' ∷ b'm' ∷ b':' ∷ b'8' ∷ []

announce_line-parses :
    parse_announce announce_line
    ≡ some (record { puerto = pos 80; cpu = pos 4; mem = pos 8; gpu = pos 1 })
unfolding parse_announce
announce_line-parses = refl
