-- ===== src/Threads/Deadlock.antt =====
-- No deadlock among the calls of agente_c/src/resource_manager.c: the threads take the locks in an order.
use tp_sist_op.Prelude.{
  ℕ, zero, suc, ◌+◌, ◌<◌, ◌≤◌, true, false, List, [], ◌∷◌, ◌≡◌, refl, ◌∙◌, ap, arith, ◌⊎◌, inl, inr,
  All, Bool-cases, ==_iff,
}
use tp_sist_op.ResourceTypes.{resource_eq_iff}
use tp_sist_op.Manager.{ResourceManager}
use tp_sist_op.Threads.{
  Lock, Prog, done, lock, unlock, access, lock_eq, holds, Thread, at, held_by, rest_of, is_free,
  Turn, locks, unlocks, accesses, Step, here, there, AllDone,
}
use tp_sist_op.Threads.Ordered.{rank, AllBelow, IsOrdered}

abbrev pub AllOrdered : List Thread → Type 0
AllOrdered = All (λ th. IsOrdered (held_by th) (rest_of th))

-- The place of a thread in the list.
pub data Among (th : Thread) : List Thread → Type 0 where
  first : {ths : List Thread} → Among th (th ∷ ths)
  next : {other : Thread} {ths : List Thread} → Among th ths → Among th (other ∷ ths)

pub IsOrdered-Among :
    {th : Thread} {ths : List Thread}
    → AllOrdered ths
    → Among th ths
    → IsOrdered (held_by th) (rest_of th)
IsOrdered-Among o first = o.0
IsOrdered-Among o (next i) = IsOrdered-Among o.1 i

-- A turn of one thread is a step of all.
pub step-Turn :
    {m m' : ResourceManager} {all : List Thread} {th th' : Thread} {ths : List Thread}
    → Among th ths
    → Turn m all th m' th'
    → (ths' : List Thread) × Step m all ths m' ths'
step-Turn first t = (_, here t)
step-Turn (next i) t = let (ths', s) = step-Turn i t in (_, there s)

holder :
    (l : Lock) (ths : List Thread)
    → is_free l ths ≡ false
    → (held : List Lock) × (p : Prog) × Among (at held p) ths × (holds l held ≡ true)
unfolding is_free held_by
holder l [] h = cc
holder l (at held p ∷ ths) h = elim (Bool-cases (holds l held)) [
  | inl mine ↦ (held, p, first, mine)
  | inr other ↦ let (held', p', i, has) = holder l ths (rw other at h) in (held', p', next i, has)
]

pub eq_of_lock_eq : (l h : Lock) → lock_eq l h ≡ true → l ≡ h
unfolding lock_eq
eq_of_lock_eq Lock.tabla Lock.tabla e = refl
eq_of_lock_eq (Lock.recurso t) (Lock.recurso u) e = ap Lock.recurso ((resource_eq_iff t u).0 e)
eq_of_lock_eq Lock.conns Lock.conns e = refl
eq_of_lock_eq Lock.nodos Lock.nodos e = refl
eq_of_lock_eq (Lock.write c) (Lock.write d) e = ap Lock.write ((==_iff c d).0 e)
eq_of_lock_eq _ _ e = cc

rank-holds :
    (l : Lock) (held : List Lock) (n : ℕ) → holds l held ≡ true → AllBelow n held → rank l < n
unfolding holds
rank-holds l [] n h low = cc
rank-holds l (k ∷ held) n h low = elim (Bool-cases (lock_eq l k)) [
  | inl e ↦ omega (arith, ap rank (eq_of_lock_eq l k e), low.0)
  | inr e ↦ rank-holds l held n (rw e at h) low.1
]

rank-le : (l : Lock) → rank l ≤ 2
rank-le Lock.tabla = omega arith
rank-le (Lock.recurso t) = omega arith
rank-le Lock.conns = omega arith
rank-le Lock.nodos = omega arith
rank-le (Lock.write c) = omega arith

module _ (m : ResourceManager) (all : List Thread) (o : AllOrdered all) where
  abbrev Moves : Type 0
  Moves = (m' : ResourceManager) × (ths' : List Thread) × Step m all all m' ths'

  moves : {m' : ResourceManager} {th th' : Thread} → Among th all → Turn m all th m' th' → Moves
  moves {m'} i t = let (ths', s) = step-Turn i t in (m', ths', s)

  -- A thread that holds a lock has a turn, or waits for a lock of higher rank, whose holder has one.
  holder_moves :
      (fuel : ℕ) (l : Lock) (held : List Lock) (p : Prog)
      → Among (at held p) all
      → IsOrdered held p
      → holds l held ≡ true
      → 2 ≤ rank l + fuel
      → Moves
  unfolding held_by rest_of
  holder_moves fuel l held done i d h f = absurd (none_held (ap (holds l) d ∙ refl))
    where
      none_held : holds l held ≡ holds l [] → ⊥
      none_held e = unfold holds in cc
  holder_moves fuel l held (access g k) i d h f = moves i accesses
  holder_moves fuel l held (unlock x p) i d h f = moves i unlocks
  holder_moves zero l held (lock x p) i d h f =
      absurd (omega (arith, rank-holds l held (rank x) h d.0, rank-le x))
  holder_moves (suc fuel) l held (lock x p) i d h f = elim (Bool-cases (is_free x all)) [
    | inl free ↦ moves i (locks free)
    | inr taken ↦
        let (held', p', j, has) = holder x all taken in
        holder_moves fuel x held' p' j (IsOrdered-Among o j) has
          (omega (arith, rank-holds l held (rank x) h d.0))
  ]

  thread_moves : (held : List Lock) (p : Prog) → Among (at held p) all → (p ≡ done) ⊎ Moves
  unfolding held_by rest_of
  thread_moves held done i = inl refl
  thread_moves held (access g k) i = inr (moves i accesses)
  thread_moves held (unlock x p) i = inr (moves i unlocks)
  thread_moves held (lock x p) i = elim (Bool-cases (is_free x all)) [
    | inl free ↦ inr (moves i (locks free))
    | inr taken ↦
        let (held', p', j, has) = holder x all taken in
        inr (holder_moves 2 x held' p' j (IsOrdered-Among o j) has (omega arith))
  ]

  threads_move :
      (ths : List Thread) → ((th : Thread) → Among th ths → Among th all) → AllDone ths ⊎ Moves
  unfolding rest_of
  threads_move [] i = inl tt
  threads_move (at held p ∷ ths) i = elim (thread_moves held p (i (at held p) first)) [
    | inr s ↦ inr s
    | inl d ↦ elim (threads_move ths (λ th j. i th (next j))) [
      | inl ds ↦ inl (d, ds)
      | inr s ↦ inr s
    ]
  ]

  -- Unless all are done, some thread has a turn.
  pub moves_or_done : AllDone all ⊎ Moves
  moves_or_done = threads_move all (λ th i. i)
