-- ===== src/Queue/Linked/Correct.antt =====
-- The pointers of agente_c/src/pending_request.c stand for the sequence of the requests: each operation on
-- them does what it does on the list, and follows no NULL and no freed pointer.
use tp_sist_op.Prelude.{
  ℕ, true, false, List, [], ◌∷◌, ◌++◌, Option, none, some, ◌≡◌, refl, subst, sym, ap, ◌∙◌, inl, inr,
  if◌then◌else◌,
}
use tp_sist_op.Prelude.Int.{ℤ, add_int, sub_int}
use tp_sist_op.Queue.{PendingRequest, ColaPendingRequest, queue_enqueue, take_top, queue_dequeue}
use tp_sist_op.Queue.Linked.{
  Node, Cola, Memory, write, is_null, is_empty, set_sig, enqueue, dequeue,
}
use tp_sist_op.Queue.Linked.Segments.{
  Cell, link, last, Segment, IsDistinct, write_other, write_own, Segment-frame, Segment-split,
  Segment-join, link-append, ==_sym, Misses-append, Segment-Misses, IsDistinct-snoc, Segment-relink,
  last-snoc, snoc_cases,
}

-- The pointers are those of a chain of cells.
pub record IsQueue (s : Memory) (l : List Cell) : Type 0 where
  pub top : s.cola.top ≡ link l none
  pub bottom : s.cola.bottom ≡ last none l
  pub chained : Segment s.heap l none
  pub distinct : IsDistinct l

abbrev pub requests : List Cell → List PendingRequest
requests [] = []
requests (x ∷ l) = x.request ∷ requests l

requests-append : (l r : List Cell) → requests (l ++ r) ≡ requests l ++ requests r
requests-append [] r = refl
requests-append (x ∷ l) r = ap (◌∷◌ x.request) (requests-append l r)

-- The memory holds the queue.
pub record Shows (s : Memory) (q : ColaPendingRequest) : Type 0 where
  pub cells : List Cell
  pub queue : IsQueue s cells
  pub nodes : requests cells ≡ q.nodes
  pub counter : s.cola.amount ≡ q.amount

is_empty_null : (c : Cola) → c.top ≡ none → c.bottom ≡ none → is_empty c ≡ true
unfolding is_empty is_null
is_empty_null c t b = rw t (rw b refl)

is_empty-some : (c : Cola) (a : ℕ) → c.top ≡ some a → is_empty c ≡ false
unfolding is_empty is_null
is_empty-some c a t = rw t refl

abbrev new_node : PendingRequest → Option Node
new_node p = some (record { request = p; sig = none })

-- The memory after the first node came, and after another one was linked to the last cell.
abbrev with_first : ℕ → PendingRequest → Memory → Memory
with_first new p s = record {
  heap = write new (new_node p) s.heap;
  cola = record { top = some new; bottom = some new; amount = add_int s.cola.amount p.amount };
}

abbrev with_last : ℕ → PendingRequest → Cell → Memory → Memory
with_last new p x s = record {
  heap =
      write x.at (some (record { request = x.request; sig = some new }))
        (write new (new_node p) s.heap);
  cola = record s.cola { bottom = some new; amount = add_int s.cola.amount p.amount };
}

enqueue_first :
    (new : ℕ) (p : PendingRequest) (s : Memory)
    → IsQueue s []
    → (enqueue new p s ≡ some (with_first new p s))
      × IsQueue (with_first new p s) (record { at = new; request = p } ∷ [])
unfolding enqueue
enqueue_first new p s q = (
  rw (is_empty_null s.cola q.top q.bottom) refl,
  record {
    top = refl;
    bottom = refl;
    chained = (write_own s.heap new (new_node p), tt);
    distinct = (tt, tt);
  },
)

pub link-snoc :
    (l : List Cell) (x : Cell) (e : Option ℕ) → link (l ++ x ∷ []) e ≡ link l (some x.at)
link-snoc l x e = link-append l (x ∷ []) e

pub link-some : (l : List Cell) (a : ℕ) → (b : ℕ) × (link l (some a) ≡ some b)
link-some [] a = (a, refl)
link-some (x ∷ l) a = (x.at, refl)

enqueue_last :
    (new : ℕ) (p : PendingRequest) (s : Memory) (l : List Cell) (x : Cell)
    → IsQueue s (l ++ x ∷ [])
    → s.heap new ≡ none
    → (enqueue new p s ≡ some (with_last new p x s))
      × IsQueue (with_last new p x s) ((l ++ x ∷ []) ++ record { at = new; request = p } ∷ [])
unfolding enqueue set_sig
enqueue_last new p s l x q fresh =
    let old = l ++ x ∷ [] in
    let h = write new (new_node p) s.heap in
    let misses = Segment-Misses s.heap new old none fresh q.chained in
    let apart = (Misses-append new l (x ∷ []) misses).1.0 in
    let framed = Segment-frame s.heap new (new_node p) old none misses q.chained in
    let found : h x.at ≡ some (record { request = x.request; sig = none }) =
      (Segment-split h l (x ∷ []) none framed).1.0 in
    let (b, first) = link-some l x.at in
    let new_cell : Cell = record { at = new; request = p } in
    (
      rw (is_empty-some s.cola b (q.top ∙ link-snoc l x none ∙ first))
          (rw q.bottom (rw (last-snoc none l x) (rw found refl))),
      record {
        top =
            q.top
            ∙ link-snoc l x none
            ∙ sym (link-append old (new_cell ∷ []) none ∙ link-snoc l x (some new));
        bottom = sym (last-snoc none old new_cell);
        chained =
            Segment-join _ old (new_cell ∷ []) none
              (Segment-relink h l x none (some new) q.distinct framed)
              (
                write_other h x.at new _ (==_sym x.at new apart)
                    ∙ write_own s.heap new (new_node p),
                tt,
              );
        distinct = IsDistinct-snoc old new_cell q.distinct misses;
      },
    )

-- What `queue_enqueue` does to the list and to the counter.
pub enqueue-Shows :
    (new : ℕ) (p : PendingRequest) (max_amount : ℤ) (s : Memory) (q : ColaPendingRequest)
    → Shows s q
    → s.heap new ≡ none
    → (s' : Memory) × (enqueue new p s ≡ some s')
      × Shows s' (queue_enqueue q p.job_id p.amount p.owner_conn max_amount p.origen).0
unfolding queue_enqueue
enqueue-Shows new p max_amount s q h fresh = elim (snoc_cases h.cells) [
  | inl e ↦
      let (ran, queue) = enqueue_first new p s (subst (λ l. IsQueue s l) e h.queue) in
      (
        with_first new p s,
        ran,
        record {
          cells = record { at = new; request = p } ∷ [];
          queue = queue;
          nodes = ap (λ ns. ns ++ p ∷ []) (sym (ap requests e) ∙ h.nodes);
          counter = ap (λ n. add_int n p.amount) h.counter;
        },
      )
  | inr (l, x, e) ↦
      let (ran, queue) = enqueue_last new p s l x (subst (λ l. IsQueue s l) e h.queue) fresh in
      (
        with_last new p x s,
        ran,
        record {
          cells = (l ++ x ∷ []) ++ record { at = new; request = p } ∷ [];
          queue = queue;
          nodes =
              requests-append (l ++ x ∷ []) (record { at = new; request = p } ∷ [])
              ∙ ap (λ ns. ns ++ p ∷ []) (sym (ap requests e) ∙ h.nodes);
          counter = ap (λ n. add_int n p.amount) h.counter;
        },
      )
]

abbrev without_first : Cell → List Cell → Memory → Memory
without_first x l s = record {
  heap = write x.at (new_node x.request) s.heap;
  cola = record {
    top = link l none;
    bottom = if is_null (link l none) then none else s.cola.bottom;
    amount = sub_int s.cola.amount x.request.amount;
  };
}

bottom_left :
    (x : Cell) (l : List Cell) (b : Option ℕ)
    → b ≡ last none (x ∷ l)
    → (if is_null (link l none) then none else b) ≡ last none l
unfolding is_null
bottom_left x [] b e = refl
bottom_left x (y ∷ l) b e = e

dequeue_first :
    (s : Memory) (x : Cell) (l : List Cell)
    → IsQueue s (x ∷ l)
    → (dequeue s ≡ some (some x.at, without_first x l s)) × IsQueue (without_first x l s) l
unfolding dequeue
dequeue_first s x l q = (
  rw (is_empty-some s.cola x.at q.top) (rw q.top (rw q.chained.0 refl)),
  record {
    top = refl;
    bottom = bottom_left x l s.cola.bottom q.bottom;
    chained = Segment-frame s.heap x.at (new_node x.request) l none q.distinct.0 q.chained.1;
    distinct = q.distinct.1;
  },
)

-- What comes off the queue: nothing, or a node with the request, in no chain.
abbrev pub Gives : Memory → Option ℕ → Option PendingRequest → Type 0
Gives s none o = o ≡ none
Gives s (some a) o =
    (p : PendingRequest) × (o ≡ some p) × (s.heap a ≡ some (record { request = p; sig = none }))

-- The result of `queue_dequeue` on the pointers, beside that on the list.
abbrev pub Dequeues : Memory → ColaPendingRequest × Option PendingRequest → Type 0
Dequeues s (q, o) =
    (a : Option ℕ) × (s' : Memory) × (dequeue s ≡ some (a, s')) × Shows s' q × Gives s' a o

dequeue_cells :
    (s : Memory) (l : List Cell) (t : ℤ)
    → IsQueue s l
    → s.cola.amount ≡ t
    → Dequeues s (take_top (requests l) t)
unfolding dequeue take_top
dequeue_cells s [] t i e = (
  none,
  s,
  rw (is_empty_null s.cola i.top i.bottom) refl,
  record { cells = []; queue = i; nodes = refl; counter = e },
  refl,
)
dequeue_cells s (x ∷ l) t i e =
    let (ran, queue) = dequeue_first s x l i in
    (
      some x.at,
      without_first x l s,
      ran,
      record {
        cells = l;
        queue = queue;
        nodes = refl;
        counter = ap (λ n. sub_int n x.request.amount) e;
      },
      (x.request, refl, write_own s.heap x.at (new_node x.request)),
    )

pub dequeue-Shows : (s : Memory) (q : ColaPendingRequest) → Shows s q → Dequeues s (queue_dequeue q)
unfolding queue_dequeue
dequeue-Shows s q h =
    subst (λ ns. Dequeues s (take_top ns q.amount)) h.nodes
      (dequeue_cells s h.cells q.amount h.queue h.counter)
