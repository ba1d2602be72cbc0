-- ===== src/Threads/Kept.antt =====
-- The invariant of the manager at every access of the operations of agente_c/src/resource_manager.c and
-- agente_c/src/tabla_jobs.c, with other threads taking turns between any two of them.
pub mod Building
pub mod Handlers
pub mod Releasing
pub mod System
use tp_sist_op.Prelude.{
  ℕ, zero, suc, ◌^◌, ◌<◌, Bool, true, false, List, [], ◌∷◌, Option, none, some, ◌≡◌, refl, ◌∙◌, ap,
  inl, inr, arith, All, if◌then◌else◌, length, Bool-cases,
}
use tp_sist_op.Prelude.Int.{ℤ, pos_part, neg_part}
use tp_sist_op.ResourceTypes.{Resource, resource_eq_refl}
use tp_sist_op.Queue.{ColaPendingRequest, PendingRequest, Origin}
use tp_sist_op.Jobs.{
  Allocation, Job, Result, Message, is_local_granted, is_remote, tabla_jobs_verificar,
  tabla_jobs_extract_by_id,
}
use tp_sist_op.Jobs.Payable.{IsPayable, Payable}
use tp_sist_op.Jobs.Every.{WhenFound}
use tp_sist_op.Conns.{tabla_conns_lookup}
use tp_sist_op.Manager.{
  Recurso, ResourceManager, Dest, erlang_local, agente_remoto, recurso, set_recurso,
  reserve_resource, can_serve, take_off, accepts, give_back, with_cola,
}
use tp_sist_op.Manager.Resources.{IsSound, give_back-IsSound}
use tp_sist_op.Manager.Draining.{take_off-IsSound'}
use tp_sist_op.Manager.Closed.{delete_by_id-IsSound}
use tp_sist_op.Manager.Dropped.{payable_of_granted}
use tp_sist_op.Manager.Invariant.{
  IsValid, IsValid-closed, set_recurso-IsValid, send_message-IsValid,
}
use tp_sist_op.Manager.Preserves.{reserve_resource-IsValid, extract-IsValid, when_found}
use tp_sist_op.Threads.{Lock, Prog, done, lock, unlock, access, holds, lock_eq}
use tp_sist_op.Threads.Ordered.{outside}
use tp_sist_op.Threads.Calls.{
  look, lock_tabla_if, unlock_tabla_if, send_message_prog, reserve_resource_prog, notify_prog,
  serve_top_prog, serve_prog, release_resource_prog, clean_prog, limpiar_colas_prog,
  limpiar_colas_por_id_prog, limpiar_colas_por_conn_prog, lookup_prog, release_remote_prog,
  drop_alloc_prog, drop_allocs_prog, allocations_of, unlink_by_id, tabla_jobs_remove_prog,
}

-- The resources whose locks are held are as they were.
abbrev pub Agrees : List Lock → ResourceManager → ResourceManager → Type 0
Agrees held s m = (t : Resource) → holds (Lock.recurso t) held ≡ true → recurso t m ≡ recurso t s

-- `s` is the state at the last turn of the thread. Others may have changed it since, but not what the
-- locks guard, and they left it in order; each access of the program then leaves it in order.
abbrev pub Keeps : List Lock → ResourceManager → Prog → Type 0
Keeps held s done = Unit {0}
Keeps held s (lock l p) = (m : ResourceManager) → IsValid m → Agrees held s m → Keeps (l ∷ held) m p
Keeps [] s (unlock l p) = Unit {0}
Keeps (h ∷ held) s (unlock l p) =
    (m : ResourceManager) → IsValid m → Agrees (h ∷ held) s m → Keeps held m p
Keeps held s (access f k) =
    (m : ResourceManager) → IsValid m → Agrees held s m → IsValid (f m) × Keeps held (f m) (k m)

abbrev pub Always : List Lock → Prog → Type 0
Always held p = (s : ResourceManager) → Keeps held s p

pub holds_first :
    (t : Resource) (held : List Lock) → holds (Lock.recurso t) (Lock.recurso t ∷ held) ≡ true
unfolding holds lock_eq
holds_first t held = rw (resource_eq_refl t) refl

module _ (held : List Lock) where
  pub if-Keeps :
      (p q : Prog) (b : Bool) → Always held p → Always held q → Always held (if b then p else q)
  if-Keeps p q true h k = h
  if-Keeps p q false h k = k

  pub elim-Keeps :
      {A : Type 0} (p : Prog) (f : A → Prog) (o : Option A)
      → Always held p
      → ((a : A) → o ≡ some a → Always held (f a))
      → Always held (elim o [ none ↦ p | some a ↦ f a ])
  elim-Keeps p f none h k = h
  elim-Keeps p f (some a) h k = k a refl

pub lock_tabla_if-Keeps :
    (b : Bool) (k : Prog) → Always (Lock.tabla ∷ []) k → Always (outside b) (lock_tabla_if b k)
unfolding lock_tabla_if
lock_tabla_if-Keeps true k h s = λ m v a. h m
lock_tabla_if-Keeps false k h s = h s

pub unlock_tabla_if-Keeps :
    (b : Bool) (k : Prog) → Always (outside b) k → Always (Lock.tabla ∷ []) (unlock_tabla_if b k)
unfolding unlock_tabla_if
unlock_tabla_if-Keeps true k h s = λ m v a. h m
unlock_tabla_if-Keeps false k h s = h s

module _ (held : List Lock) (k : Prog) (next : Always held k) where
  pub send_message-Keeps :
      (c : ℕ) (d : Dest) (msg : Message) → Always held (send_message_prog c d msg k)
  unfolding send_message_prog
  send_message-Keeps c d msg s =
      λ m v a m' v' a'. (send_message-IsValid m' v' c d msg, λ n w b. next n)

  clean-Keeps :
      (f : ColaPendingRequest → ColaPendingRequest)
      → ((r : Recurso) → IsSound r → IsSound (with_cola f r))
      → (t : Resource) → Always held (clean_prog f t k)
  unfolding clean_prog
  clean-Keeps f keeps t s = λ m v a m' v' a'.
      (set_recurso-IsValid m' v' t _ (keeps (recurso t m') (v'.sound t)), λ n w b. next n)

pub limpiar_colas-Keeps :
    (held : List Lock) (f : ColaPendingRequest → ColaPendingRequest) (k : Prog)
    → ((r : Recurso) → IsSound r → IsSound (with_cola f r))
    → Always held k
    → Always held (limpiar_colas_prog f k)
unfolding limpiar_colas_prog
limpiar_colas-Keeps held f k keeps h =
    clean-Keeps held _
      (clean-Keeps held _ (clean-Keeps held k h f keeps Resource.gpu) f keeps Resource.mem) f keeps
      Resource.cpu

pub limpiar_colas_por_id-Keeps :
    (held : List Lock) (id : ℤ) (k : Prog)
    → Always held k
    → Always held (limpiar_colas_por_id_prog id k)
unfolding limpiar_colas_por_id_prog
limpiar_colas_por_id-Keeps held id k h = limpiar_colas-Keeps held _ k (delete_by_id-IsSound id) h

-- What the result is, is known of the state of the reservation.
pub reserve_resource-Keeps :
    (held : List Lock) (t : Resource) (n id : ℤ) (c : ℕ) (o : Origin) (k : Result → Prog)
    → neg_part n ≡ 0
    → ((m : ResourceManager) → IsValid m → Always held (k (reserve_resource t n id c o m).1))
    → Always held (reserve_resource_prog t n id c o k)
unfolding reserve_resource_prog
reserve_resource-Keeps held t n id c o k h next s =
    λ m v a m' v' a'. (reserve_resource-IsValid t n id c o m' h v', λ n w b. next m' v' n)

pub lookup-Keeps :
    (held : List Lock) (ip : List ℕ) (k : Option ℕ → Prog)
    → ((o : Option ℕ) → Always held (k o))
    → Always held (lookup_prog ip k)
unfolding lookup_prog
lookup-Keeps held ip k h s = λ m v a m' v' a'. (v', λ n w b. h (tabla_conns_lookup m'.conns ip) n)
