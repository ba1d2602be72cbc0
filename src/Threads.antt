-- ===== src/Threads.antt =====
-- The threads of the agent (agente_c/src/main.c starts them) that run the calls of
-- agente_c/src/resource_manager.c at the same time. A call is a program: locks, unlocks and accesses to the
-- state of the manager, in the order of the code. The threads take turns at every one of these.
pub mod Calls
pub mod Handlers
pub mod Building
pub mod Alone
pub mod Guarded
pub mod Ordered
pub mod Deadlock
pub mod Exclusion
pub mod Finished
pub mod Kept
use tp_sist_op.Prelude.{
  ℕ, ◌+◌, ◌<◌, Bool, true, false, List, [], ◌∷◌, ◌≡◌, ◌==◌, ◌||◌, if◌then◌else◌, map, All,
}
use tp_sist_op.ResourceTypes.{Resource, resource_eq}
use tp_sist_op.Manager.{ResourceManager}

-- `manager.tabla.lock`, the mutex of each resource, those of `conns` and `tabla_nodos`, and the
-- `write_mutex` of each connection.
pub data Lock : Type 0 where
  tabla : Lock
  recurso : Resource → Lock
  conns : Lock
  nodos : Lock
  write : ℕ → Lock

unfoldable pub lock_eq : Lock → Lock → Bool
unfolding resource_eq
lock_eq tabla tabla = true
lock_eq (recurso t) (recurso u) = resource_eq t u
lock_eq conns conns = true
lock_eq nodos nodos = true
lock_eq (write c) (write d) = c == d
lock_eq _ _ = false

-- `access f k` changes the state by `f`, and goes on as what it read of the state says.
pub data Prog : Type 0 where
  done : Prog
  lock : Lock → Prog → Prog
  unlock : Lock → Prog → Prog
  access : (ResourceManager → ResourceManager) → (ResourceManager → Prog) → Prog

-- The program alone: no other thread takes a turn, and every lock is free.
unfoldable pub alone : Prog → ResourceManager → ResourceManager
alone done m = m
alone (lock l p) m = alone p m
alone (unlock l p) m = alone p m
alone (access f k) m = alone (k m) (f m)

unfoldable pub holds : Lock → List Lock → Bool
unfolding lock_eq
holds l [] = false
holds l (h ∷ held) = lock_eq l h || holds l held

unfoldable pub give_up_lock : Lock → List Lock → List Lock
unfolding lock_eq
give_up_lock l [] = []
give_up_lock l (h ∷ held) = if lock_eq l h then held else h ∷ give_up_lock l held

-- The locks that a thread holds, the last one first, and what it has still to do.
pub data Thread : Type 0 where
  at : List Lock → Prog → Thread

unfoldable pub held_by : Thread → List Lock
held_by (at held p) = held

unfoldable pub rest_of : Thread → Prog
rest_of (at held p) = p

unfoldable pub is_free : Lock → List Thread → Bool
unfolding holds held_by
is_free l [] = true
is_free l (th ∷ ths) = if holds l (held_by th) then false else is_free l ths

-- One turn of a thread, among all the threads, from the state `m`: `pthread_mutex_lock` waits until
-- nobody has the lock.
pub data Turn (m : ResourceManager) (all : List Thread)
    : Thread → ResourceManager → Thread → Type 0 where
  locks :
      {l : Lock} {p : Prog} {held : List Lock}
      → is_free l all ≡ true
      → Turn m all (at held (lock l p)) m (at (l ∷ held) p)
  unlocks :
      {l : Lock} {p : Prog} {held : List Lock}
      → Turn m all (at held (unlock l p)) m (at (give_up_lock l held) p)
  accesses :
      {f : ResourceManager → ResourceManager} {k : ResourceManager → Prog} {held : List Lock}
      → Turn m all (at held (access f k)) (f m) (at held (k m))

-- A turn of one of the threads.
pub data Step (m : ResourceManager) (all : List Thread)
    : List Thread → ResourceManager → List Thread → Type 0 where
  here :
      {th th' : Thread} {ths : List Thread} {m' : ResourceManager}
      → Turn m all th m' th'
      → Step m all (th ∷ ths) m' (th' ∷ ths)
  there :
      {th : Thread} {ths ths' : List Thread} {m' : ResourceManager}
      → Step m all ths m' ths'
      → Step m all (th ∷ ths) m' (th ∷ ths')

-- The threads start with these programs and no lock.
unfoldable pub started : List Prog → List Thread
started [] = []
started (p ∷ ps) = at [] p ∷ started ps

pub data Reach (m : ResourceManager) (ths : List Thread)
    : ResourceManager → List Thread → Type 0 where
  start : Reach m ths m ths
  later :
      {m' m'' : ResourceManager} {ths' ths'' : List Thread}
      → Reach m ths m' ths'
      → Step m' ths' ths' m'' ths''
      → Reach m ths m'' ths''

-- Every thread has done all that it had to do.
abbrev pub AllDone : List Thread → Type 0
AllDone = All (λ th. rest_of th ≡ done)
