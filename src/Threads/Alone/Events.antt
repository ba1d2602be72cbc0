-- ===== src/Threads/Alone/Events.antt =====
-- Each event alone: its program does what the model of the manager does in one step
-- (agente_c/src/resource_manager.c).
use tp_sist_op.Prelude.{
  ℕ, List, [], ◌∷◌, Option, ◌≡◌, refl, ◌∙◌, inl, inr, ◌&&◌, Bool-cases, Option-cases,
}
use tp_sist_op.Prelude.Int.{ℤ, pos, eqb_ℤ}
use tp_sist_op.ResourceTypes.{Resource}
use tp_sist_op.Queue.{Origin}
use tp_sist_op.Jobs.{
  Allocation, OutRequest, Job, is_local_granted, is_remote, job_confirmar, tabla_jobs_verificar,
  tabla_jobs_extract_by_id, tabla_jobs_buscar_por_id, tabla_jobs_get_conn,
}
use tp_sist_op.Conns.{tabla_conns_get_ip_by_conn}
use tp_sist_op.Manager.{ResourceManager, reserve_resource}
use tp_sist_op.Manager.Building.{Result-cases}
use tp_sist_op.Manager.NodeList.{on_get_nodes}
use tp_sist_op.Manager.Handlers.{
  on_reserve, on_release, release_ghost, confirm, on_granted, on_denied, release_alloc,
  release_allocs, on_job_release, on_job_status, on_job_timeout,
}
use tp_sist_op.Manager.Events.{
  Command, Event, drop_jobs, process_connection_failed, process_disconnect, send_requests,
  process_connection_ready, process_announce, execute, step,
}
use tp_sist_op.Threads.{Prog, alone}
use tp_sist_op.Threads.Calls.{reserve_resource_prog, unlink_by_id}
use tp_sist_op.Threads.Handlers.{
  on_reserve_prog, on_release_prog, release_ghost_prog, settle, confirm_prog, on_granted_prog,
  on_denied_prog, release_alloc_prog, release_allocs_prog, on_job_release_prog, on_job_status_prog,
  on_job_timeout_prog, on_get_nodes_prog, drop_jobs_prog, unlink_lost,
  process_connection_failed_prog, forget_conn, process_disconnect_prog, learn_conn,
  send_requests_prog, process_connection_ready_prog, execute_prog, in_nodos, event_prog,
}
use tp_sist_op.Threads.Alone.{alone_rules}
use tp_sist_op.Threads.Alone.Requests.{alone-on_job_request}

alone-on_reserve :
    (c : ℕ) (id : ℤ) (t : Resource) (n : ℤ) (m : ResourceManager)
    → alone (on_reserve_prog c id t n) m ≡ on_reserve c id t n m
unfolding alone on_reserve_prog reserve_resource_prog on_reserve
alone-on_reserve c id t n m = elim (Result-cases (reserve_resource t n id c Origin.remote m).1) [
  | inl e ↦ rw (e, alone, on_reserve) (simp alone_rules)
  | inr (inl e) ↦ rw (e, alone, on_reserve) refl
  | inr (inr e) ↦ rw (e, alone, on_reserve) (simp alone_rules)
]

alone-on_release :
    (id : ℤ) (t : Resource) (n : ℤ) (m : ResourceManager)
    → alone (on_release_prog id t n) m ≡ on_release id t n m
unfolding alone on_release_prog on_release
alone-on_release id t n m = elim (Bool-cases (eqb_ℤ n (pos 0))) [
  | inl e ↦ rw (e, alone, on_release) (simp alone_rules)
  | inr e ↦ rw (e, alone, on_release) (simp alone_rules)
]

alone-release_ghost :
    (c : ℕ) (id : ℤ) (k : Prog) (m : ResourceManager)
    → alone (release_ghost_prog c id k) m ≡ alone k (release_ghost c id m)
unfolding alone release_ghost_prog release_ghost
alone-release_ghost c id k m = simp alone_rules

alone-confirm :
    (j : Job) (ip : List ℕ) (id : ℤ) (k : Prog) (m : ResourceManager)
    → alone (confirm_prog j ip id k) m ≡ alone k (confirm j ip id m)
unfolding alone confirm_prog confirm settle
alone-confirm j ip id k m =
    elim (Bool-cases
      ((job_confirmar j ip id).1 && tabla_jobs_verificar (settle ip id m).tabla id)) [
        | inl e ↦ rw (e, alone, confirm) (simp alone_rules)
        | inr e ↦ rw (e, alone, confirm) refl
      ]

alone-on_granted :
    (c : ℕ) (id : ℤ) (m : ResourceManager) → alone (on_granted_prog c id) m ≡ on_granted c id m
unfolding alone on_granted_prog on_granted
alone-on_granted c id m = elim (Option-cases (tabla_conns_get_ip_by_conn m.conns c)) [
  | inl e ↦ rw (e, alone, on_granted) refl
  | inr (ip, e) ↦
      rw (e, alone, on_granted)
        (elim (Option-cases (tabla_jobs_buscar_por_id m.tabla id)) [
          | inl gone ↦ rw (gone, alone) (simp alone-release_ghost)
          | inr (j, found) ↦ rw (found, alone) (simp alone-confirm)
        ])
]

alone-on_denied : (id : ℤ) (m : ResourceManager) → alone (on_denied_prog id) m ≡ on_denied id m
unfolding alone on_denied_prog on_denied
alone-on_denied id m = elim (Option-cases (tabla_jobs_get_conn m.tabla id)) [
  | inl e ↦ rw (e, alone, on_denied) (simp alone_rules)
  | inr (c, e) ↦ rw (e, alone, on_denied) (simp alone_rules)
]

alone-release_alloc :
    (a : Allocation) (k : Prog) (m : ResourceManager)
    → alone (release_alloc_prog a k) m ≡ alone k (release_alloc a m)
unfolding alone release_alloc_prog release_alloc
alone-release_alloc a k m = elim (Bool-cases (is_local_granted a)) [
  | inl here ↦ rw here (elim (Bool-cases (is_remote a)) [
    | inl far ↦ rw far (simp alone_rules)
    | inr near ↦ rw near (simp alone_rules)
  ])
  | inr other ↦ rw other (elim (Bool-cases (is_remote a)) [
    | inl far ↦ rw far (simp alone_rules)
    | inr near ↦ rw near (simp alone_rules)
  ])
]

alone-release_allocs :
    (l : List Allocation) (k : Prog) (m : ResourceManager)
    → alone (release_allocs_prog l k) m ≡ alone k (release_allocs l m)
unfolding release_allocs_prog release_allocs
alone-release_allocs [] k m = refl
alone-release_allocs (a ∷ l) k m =
    alone-release_alloc a (release_allocs_prog l k) m ∙ alone-release_allocs l k (release_alloc a m)

alone-on_job_release :
    (id : ℤ) (m : ResourceManager) → alone (on_job_release_prog id) m ≡ on_job_release id m
unfolding alone on_job_release_prog on_job_release unlink_by_id
alone-on_job_release id m = elim (Option-cases (tabla_jobs_extract_by_id m.tabla id).1) [
  | inl e ↦ rw (e, alone, on_job_release) refl
  | inr (j, e) ↦ rw (e, alone, on_job_release) (simp (alone-release_allocs, alone_rules))
]

alone-on_job_status :
    (c : ℕ) (id : ℤ) (m : ResourceManager)
    → alone (on_job_status_prog c id) m ≡ on_job_status c id m
unfolding alone on_job_status_prog on_job_status
alone-on_job_status c id m = elim (Option-cases (tabla_jobs_get_conn m.tabla id)) [
  | inl e ↦ rw (e, alone, on_job_status) (simp alone_rules)
  | inr (d, e) ↦ rw (e, alone, on_job_status) (simp alone_rules)
]

alone-drop_jobs :
    (js : List Job) (k : Prog) (m : ResourceManager)
    → alone (drop_jobs_prog js k) m ≡ alone k (drop_jobs js m)
unfolding alone drop_jobs_prog drop_jobs
alone-drop_jobs [] k m = refl
alone-drop_jobs (j ∷ js) k m = simp (alone_rules, alone-drop_jobs js)

alone-failed :
    (c : ℕ) (k : Prog) (m : ResourceManager)
    → alone (process_connection_failed_prog c k) m ≡ alone k (process_connection_failed c m)
unfolding alone process_connection_failed_prog process_connection_failed unlink_lost
alone-failed c k m = simp alone-drop_jobs

alone-disconnect :
    (c : ℕ) (m : ResourceManager) → alone (process_disconnect_prog c) m ≡ process_disconnect c m
unfolding alone process_disconnect_prog process_disconnect forget_conn
alone-disconnect c m = simp (alone_rules, alone-failed)

alone-send_requests :
    (c : ℕ) (l : List OutRequest) (k : Prog) (m : ResourceManager)
    → alone (send_requests_prog c l k) m ≡ alone k (send_requests c l m)
unfolding alone send_requests_prog send_requests learn_conn
alone-send_requests c [] k m = refl
alone-send_requests c (r ∷ l) k m = simp (alone_rules, alone-send_requests c l)

alone-ready :
    (c : ℕ) (m : ResourceManager)
    → alone (process_connection_ready_prog c) m ≡ process_connection_ready c m
unfolding alone process_connection_ready_prog process_connection_ready
alone-ready c m = simp alone-send_requests

alone-execute :
    (c : ℕ) (d : Command) (tries : List (Option ℕ)) (m : ResourceManager)
    → alone (execute_prog c d tries) m ≡ execute c d tries m
unfolding alone execute_prog execute
alone-execute c (Command.reserve id t n) tries m = alone-on_reserve c id t n m
alone-execute c (Command.release id t n) tries m = alone-on_release id t n m
alone-execute c (Command.granted id) tries m = alone-on_granted c id m
alone-execute c (Command.denied id) tries m = alone-on_denied id m
alone-execute c (Command.job_request id reqs) tries m = alone-on_job_request c id reqs tries m
alone-execute c Command.get_nodes tries m =
    unfold on_get_nodes_prog on_get_nodes in simp alone_rules
alone-execute c (Command.job_release id) tries m = alone-on_job_release id m
alone-execute c (Command.job_status id) tries m = alone-on_job_status c id m
alone-execute c (Command.job_timeout id) tries m =
    unfold on_job_timeout_prog on_job_timeout in simp alone_rules
alone-execute c Command.ignored tries m = refl

-- Without other threads, the program of every event, with its locks and its accesses one by one, does to
-- the state what `step` does.
pub alone-event_prog : (e : Event) (m : ResourceManager) → alone (event_prog e) m ≡ step m e
unfolding alone event_prog step in_nodos
alone-event_prog (Event.message c d tries) m = alone-execute c d tries m
alone-event_prog (Event.announce ip puerto c g n now) m = unfold process_announce in refl
alone-event_prog (Event.purge timeout now) m = refl
alone-event_prog (Event.disconnect c) m = alone-disconnect c m
alone-event_prog (Event.connection_ready c) m = alone-ready c m
alone-event_prog (Event.connection_failed c) m = simp alone-failed
