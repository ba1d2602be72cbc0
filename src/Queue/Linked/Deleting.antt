-- ===== src/Queue/Linked/Deleting.antt =====
-- The loop of both deletions of agente_c/src/pending_request.c, on the pointers.
use tp_sist_op.Prelude.{
  ℕ, zero, suc, ◌<◌, Bool, true, false, List, [], ◌∷◌, ◌++◌, Option, none, some, ◌≡◌, refl, subst,
  sym, ap, ◌∙◌, inl, inr, arith, ◌==◌, if◌then◌else◌, length, Bool-cases, All, discard,
}
use mathlib.Core.List.{append_assoc}
use tp_sist_op.Prelude.Int.{sub_int}
use tp_sist_op.Queue.{PendingRequest, ColaPendingRequest, unlink}
use tp_sist_op.Queue.Fifo.{unlink-nodes}
use tp_sist_op.Queue.Linked.{Node, Heap, Memory, write, set_sig, same, unlink_node, delete_loop}
use tp_sist_op.Queue.Linked.Segments.{
  Cell, link, last, Misses, IsDistinct, Segment-frame, Segment-split, Segment-join,
  IsDistinct-split, Segment-relink, last-snoc, last-append, snoc_cases, link-append, ==_sym,
}
use tp_sist_op.Queue.Linked.Correct.{IsQueue, requests, link-snoc, Shows}

last_missed :
    (a : ℕ) (b : Option ℕ) (y : Cell) (l : List Cell)
    → Misses a (y ∷ l)
    → (k : ℕ) × (last b (y ∷ l) ≡ some k) × ((k == a) ≡ false)
last_missed a b y [] m = (y.at, refl, m.0)
last_missed a b y (z ∷ l) m = last_missed a (some y.at) z l m.1

-- `bottom` goes back to `prev` exactly if the last node is unlinked.
bottom_unlinked :
    (a : ℕ) (prev bottom : Option ℕ) (l : List Cell)
    → Misses a l
    → bottom ≡ last (some a) l
    → (if same bottom a then prev else bottom) ≡ last prev l
unfolding same
bottom_unlinked a prev bottom [] m e =
    let own : (a == a) ≡ true = ground arith in rw e (rw own refl)
bottom_unlinked a prev bottom (y ∷ l) m e =
    let (k, found, other) = last_missed a (some a) y l m in rw (e ∙ found) (rw other (sym found))

-- The memory without the cell `x`.
abbrev without : Option ℕ → Option ℕ → Heap → Cell → Memory → Memory
without top prev h x s = record {
  heap = write x.at none h;
  cola = record {
    top = top;
    bottom = if same s.cola.bottom x.at then prev else s.cola.bottom;
    amount = sub_int s.cola.amount x.request.amount;
  };
}

abbrev node : Cell → List Cell → Node
node x l = record { request = x.request; sig = link l none }

-- What an unlinking leaves.
abbrev Unlinks : Option ℕ → Cell → List Cell → List Cell → Memory → Type 0
Unlinks prev x done rest s =
    (s' : Memory) × (unlink_node prev x.at (node x rest) s ≡ some s')
    × IsQueue s' (done ++ rest)
    × (s'.cola.amount ≡ sub_int s.cola.amount x.request.amount)

unlink_first :
    (x : Cell) (rest : List Cell) (s : Memory) → IsQueue s (x ∷ rest) → Unlinks none x [] rest s
unfolding unlink_node
unlink_first x rest s q = (
  without (link rest none) none s.heap x s,
  refl,
  record {
    top = refl;
    bottom = bottom_unlinked x.at none s.cola.bottom rest q.distinct.0 q.bottom;
    chained = Segment-frame s.heap x.at none rest none q.distinct.0 q.chained.1;
    distinct = q.distinct.1;
  },
  refl,
)

All_last :
    (l : List Cell) (z : Cell) (r : List Cell)
    → All (λ y. Misses y.at r) (l ++ z ∷ [])
    → Misses z.at r
All_last [] z r h = h.0
All_last (y ∷ l) z r h = All_last l z r h.1

missed_by : (a : Cell) (l r : List Cell) → All (λ y. Misses y.at (a ∷ r)) l → Misses a.at l
missed_by a [] r h = tt
missed_by a (y ∷ l) r h = (==_sym a.at y.at h.0.0, missed_by a l r h.1)

IsDistinct-without : (l r : List Cell) (x : Cell) → IsDistinct (l ++ x ∷ r) → IsDistinct (l ++ r)
IsDistinct-without [] r x d = d.1
IsDistinct-without (y ∷ l) r x d = (Misses-without y.at l r x d.0, IsDistinct-without l r x d.1)
  where
    Misses-without :
        (a : ℕ) (l r : List Cell) (x : Cell) → Misses a (l ++ x ∷ r) → Misses a (l ++ r)
    Misses-without a [] r x m = m.1
    Misses-without a (y ∷ l) r x m = (m.0, Misses-without a l r x m.1)

unlink_later :
    (l : List Cell) (z x : Cell) (rest : List Cell) (s : Memory)
    → IsQueue s ((l ++ z ∷ []) ++ x ∷ rest)
    → Unlinks (some z.at) x (l ++ z ∷ []) rest s
unfolding unlink_node set_sig
unlink_later l z x rest s q =
    let done = l ++ z ∷ [] in
    let (before, here) = Segment-split s.heap done (x ∷ rest) none q.chained in
    let (d, dr, apart) = IsDistinct-split done (x ∷ rest) q.distinct in
    let found : s.heap z.at ≡ some (record { request = z.request; sig = some x.at }) =
      (Segment-split s.heap l (z ∷ []) (some x.at) before).1.0 in
    let linked = some (record { request = z.request; sig = link rest none }) in
    let h = write z.at linked s.heap in
    (
      without s.cola.top (some z.at) h x s,
      rw found refl,
      record {
        top =
            q.top
            ∙ link-append done (x ∷ rest) none
            ∙ link-snoc l z (some x.at)
            ∙ sym (link-append done rest none ∙ link-snoc l z (link rest none));
        bottom =
            bottom_unlinked x.at (some z.at) s.cola.bottom rest dr.0
              (q.bottom ∙ last-append none done (x ∷ rest))
            ∙ sym (last-append none done rest ∙ ap (λ b. last b rest) (last-snoc none l z));
        chained =
            Segment-join _ done rest none
              (Segment-frame h x.at none done (link rest none) (missed_by x done rest apart)
                (Segment-relink s.heap l z (some x.at) (link rest none) d before))
              (Segment-frame h x.at none rest none dr.0 (
                Segment-frame s.heap z.at linked rest none (All_last l z (x ∷ rest) apart).1
                  here.1));
        distinct = IsDistinct-without done rest x q.distinct;
      },
      refl,
    )

unlink_any :
    (done rest : List Cell) (x : Cell) (s : Memory)
    → IsQueue s (done ++ x ∷ rest)
    → Unlinks (last none done) x done rest s
unlink_any done rest x s q = elim (snoc_cases done) [
  | inl e ↦
      subst (λ d. Unlinks (last none d) x d rest s) (sym e)
        (unlink_first x rest s (subst (λ d. IsQueue s (d ++ x ∷ rest)) e q))
  | inr (l, z, e) ↦
      subst (λ d. Unlinks (last none d) x d rest s) (sym e)
        (subst (λ b. Unlinks b x (l ++ z ∷ []) rest s) (sym (last-snoc none l z))
          (unlink_later l z x rest s (subst (λ d. IsQueue s (d ++ x ∷ rest)) e q)))
]

length-requests : (l : List Cell) → length (requests l) ≡ length l
length-requests [] = refl
length-requests (x ∷ l) = ap suc (length-requests l)

module _ (p : PendingRequest → Bool) where
  abbrev kept : List Cell → List Cell
  kept l = discard (λ x. p x.request) l

  requests-kept : (l : List Cell) → requests (kept l) ≡ discard p (requests l)
  unfolding discard
  requests-kept [] = refl
  requests-kept (x ∷ l) = elim (Bool-cases (p x.request)) [
    | inl gone ↦ rw gone (requests-kept l)
    | inr stays ↦ rw stays (ap (◌∷◌ x.request) (requests-kept l))
  ]

  -- What the loop leaves from here on.
  abbrev Leaves : ℕ → List Cell → List Cell → Memory → Type 0
  Leaves fuel done rest s =
      (s' : Memory) × (delete_loop fuel p (last none done) (link rest none) s ≡ some s')
      × IsQueue s' (done ++ kept rest)
      × (s'.cola.amount ≡ (unlink p (requests rest) s.cola.amount).amount)

  loop-Leaves :
      (rest done : List Cell) (fuel : ℕ) (s : Memory)
      → length rest < fuel
      → IsQueue s (done ++ rest)
      → Leaves fuel done rest s
  unfolding delete_loop unlink discard
  loop-Leaves rest done zero s lt q = absurd (omega arith)
  loop-Leaves [] done (suc fuel) s lt q = (s, refl, q, refl)
  loop-Leaves (x ∷ rest) done (suc fuel) s lt q =
      let found = (Segment-split s.heap done (x ∷ rest) none q.chained).1.0 in
      elim (Bool-cases (p x.request)) [
        | inl gone ↦
            let (s1, ran, q1, a1) = unlink_any done rest x s q in
            let (s', ran', q', a') = loop-Leaves rest done fuel s1 (omega arith) q1 in
            (
              s',
              rw found (rw gone (rw ran ran')),
              rw gone q',
              rw gone (a' ∙ ap (λ t. (unlink p (requests rest) t).amount) a1),
            )
        | inr stays ↦
            let q1 = subst (λ l. IsQueue s l) (sym (append_assoc done (x ∷ []) rest)) q in
            let (s', ran, q', a') = loop-Leaves rest (done ++ x ∷ []) fuel s (omega arith) q1 in
            (
              s',
              rw found (rw stays (rw (sym (last-snoc none done x)) ran)),
              rw stays (subst (λ l. IsQueue s' l) (append_assoc done (x ∷ []) (kept rest)) q'),
              rw stays a',
            )
      ]

  -- The loop of a deletion, from the top of the queue, with fuel for one round more than there are
  -- requests: it ends without a fault, and what it leaves is the list without the requests that pass
  -- the test, and their amounts off the counter.
  pub delete_loop-Shows :
      (fuel : ℕ) (s : Memory) (q : ColaPendingRequest)
      → Shows s q
      → length q.nodes < fuel
      → (s' : Memory) × (delete_loop fuel p none s.cola.top s ≡ some s')
        × Shows s' (unlink p q.nodes q.amount)
  delete_loop-Shows fuel s q h lt =
      let (s', ran, queue, amount) =
        loop-Leaves h.cells [] fuel s (omega (arith, length-requests h.cells, ap length h.nodes))
          h.queue in
      (
        s',
        ap (λ t. delete_loop fuel p none t s) h.queue.top ∙ ran,
        record {
          cells = kept h.cells;
          queue = queue;
          nodes =
              requests-kept h.cells
              ∙ ap (discard p) h.nodes
              ∙ sym (unlink-nodes p q.nodes q.amount);
          counter =
              amount
              ∙ ap (λ ns. (unlink p ns s.cola.amount).amount) h.nodes
              ∙ ap (λ t. (unlink p q.nodes t).amount) h.counter;
        },
      )
