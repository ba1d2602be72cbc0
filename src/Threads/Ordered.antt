-- ===== src/Threads/Ordered.antt =====
-- The discipline of the locks in agente_c/src/resource_manager.c and agente_c/src/tabla_jobs.c: the table of jobs is
-- locked first, then one resource, and the other locks last.
pub mod Building
pub mod Handlers
pub mod Releasing
use tp_sist_op.Prelude.{
  ℕ, zero, suc, ◌<◌, Bool, true, false, List, [], ◌∷◌, Option, none, some, ◌≡◌, refl, arith, All,
  if◌then◌else◌, length, inl, inr, Bool-cases,
}
use tp_sist_op.Prelude.Int.{ℤ}
use tp_sist_op.ResourceTypes.{Resource, cpu, mem, gpu}
use tp_sist_op.Queue.{ColaPendingRequest, PendingRequest, Origin}
use tp_sist_op.Jobs.{
  Allocation, Result, Message, is_local_granted, is_remote, tabla_jobs_verificar,
  tabla_jobs_extract_by_id,
}
use tp_sist_op.Conns.{tabla_conns_lookup}
use tp_sist_op.Manager.{
  ResourceManager, Dest, erlang_local, agente_remoto, recurso, reserve_resource, can_serve,
  take_off, accepts,
}
use tp_sist_op.Threads.{Lock, Prog, done, lock, unlock, access, holds, lock_eq}
use tp_sist_op.Threads.Guarded.{
  IsGuarded, look-IsGuarded, set_recurso-IsGuarded, set_tabla-IsGuarded, send_message-IsGuarded,
}
use tp_sist_op.Threads.Calls.{
  look, lock_tabla_if, unlock_tabla_if, send_message_prog, reserve_resource_prog, notify_prog,
  serve_top_prog, serve_prog, release_resource_prog, clean_prog, limpiar_colas_prog,
  limpiar_colas_por_id_prog, limpiar_colas_por_conn_prog, lookup_prog, release_remote_prog,
  drop_alloc_prog, drop_allocs_prog, allocations_of, unlink_by_id, tabla_jobs_remove_prog,
}

abbrev pub rank : Lock → ℕ
rank Lock.tabla = 0
rank (Lock.recurso t) = 1
rank Lock.conns = 2
rank Lock.nodos = 2
rank (Lock.write c) = 2

abbrev pub AllBelow : ℕ → List Lock → Type 0
AllBelow n = All (λ h. rank h < n)

-- With these locks held, the program takes a lock only above all that it holds, releases the last one
-- first, writes only what it has the lock of, and ends with none.
abbrev pub IsOrdered : List Lock → Prog → Type 0
IsOrdered held done = held ≡ []
IsOrdered held (lock l p) = AllBelow (rank l) held × IsOrdered (l ∷ held) p
IsOrdered [] (unlock l p) = ⊥
IsOrdered (h ∷ held) (unlock l p) = (h ≡ l) × IsOrdered held p
IsOrdered held (access f k) = IsGuarded held f × ((m : ResourceManager) → IsOrdered held (k m))

-- What a caller holds that wants the callee to take the lock of the table, and one that has it.
abbrev pub outside : Bool → List Lock
outside take_lock = if take_lock then [] else Lock.tabla ∷ []

pub lock_tabla_if-IsOrdered :
    (b : Bool) (k : Prog)
    → IsOrdered (Lock.tabla ∷ []) k
    → IsOrdered (outside b) (lock_tabla_if b k)
unfolding lock_tabla_if
lock_tabla_if-IsOrdered true k h = (tt, h)
lock_tabla_if-IsOrdered false k h = h

pub unlock_tabla_if-IsOrdered :
    (b : Bool) (k : Prog)
    → IsOrdered (outside b) k
    → IsOrdered (Lock.tabla ∷ []) (unlock_tabla_if b k)
unfolding unlock_tabla_if
unlock_tabla_if-IsOrdered true k h = (refl, h)
unlock_tabla_if-IsOrdered false k h = h

-- A test, and what a search found.
module _ (held : List Lock) where
  pub if-IsOrdered :
      (p q : Prog) (b : Bool)
      → IsOrdered held p
      → IsOrdered held q
      → IsOrdered held (if b then p else q)
  if-IsOrdered p q true h k = h
  if-IsOrdered p q false h k = k

  pub elim-IsOrdered :
      {A : Type 0} (p : Prog) (f : A → Prog) (o : Option A)
      → IsOrdered held p
      → ((a : A) → IsOrdered held (f a))
      → IsOrdered held (elim o [ none ↦ p | some a ↦ f a ])
  elim-IsOrdered p f none h k = h
  elim-IsOrdered p f (some a) h k = k a

-- An operation that takes and releases one lock.
module _ (held : List Lock) (k : Prog) (next : IsOrdered held k) where
  pub send_message-IsOrdered :
      (c : ℕ) (d : Dest) (msg : Message)
      → AllBelow 2 held
      → IsOrdered held (send_message_prog c d msg k)
  unfolding send_message_prog
  send_message-IsOrdered c d msg low =
      (low, (send_message-IsGuarded c d msg held, λ m. (refl, next)))

  clean-IsOrdered :
      (f : ColaPendingRequest → ColaPendingRequest) (t : Resource)
      → AllBelow 1 held
      → IsOrdered held (clean_prog f t k)
  unfolding clean_prog
  clean-IsOrdered f t low = (low, (set_recurso-IsGuarded t _ held, λ m. (refl, next)))

pub limpiar_colas-IsOrdered :
    (held : List Lock) (f : ColaPendingRequest → ColaPendingRequest) (k : Prog)
    → AllBelow 1 held
    → IsOrdered held k
    → IsOrdered held (limpiar_colas_prog f k)
unfolding limpiar_colas_prog
limpiar_colas-IsOrdered held f k low h =
    clean-IsOrdered held _ (clean-IsOrdered held _ (clean-IsOrdered held k h f gpu low) f mem low) f
      cpu low

pub limpiar_colas_por_id-IsOrdered :
    (held : List Lock) (id : ℤ) (k : Prog)
    → AllBelow 1 held
    → IsOrdered held k
    → IsOrdered held (limpiar_colas_por_id_prog id k)
unfolding limpiar_colas_por_id_prog
limpiar_colas_por_id-IsOrdered held id k low h = limpiar_colas-IsOrdered held _ k low h

pub reserve_resource-IsOrdered :
    (held : List Lock) (t : Resource) (n id : ℤ) (c : ℕ) (o : Origin) (k : Result → Prog)
    → AllBelow 1 held
    → ((r : Result) → IsOrdered held (k r))
    → IsOrdered held (reserve_resource_prog t n id c o k)
unfolding reserve_resource_prog reserve_resource
reserve_resource-IsOrdered held t n id c o k low h =
    (low, (set_recurso-IsGuarded t _ held, λ m. (refl, h (reserve_resource t n id c o m).1)))

pub lookup-IsOrdered :
    (held : List Lock) (ip : List ℕ) (k : Option ℕ → Prog)
    → AllBelow 2 held
    → ((o : Option ℕ) → IsOrdered held (k o))
    → IsOrdered held (lookup_prog ip k)
unfolding lookup_prog
lookup-IsOrdered held ip k low h =
    (low, (look-IsGuarded _, λ m. (refl, h (tabla_conns_lookup m.conns ip))))
