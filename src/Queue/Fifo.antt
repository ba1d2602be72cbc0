-- ===== src/Queue/Fifo.antt =====
-- The queue as a sequence: what each operation of pending_request.c leaves, in order, and the
-- counter as the sum of the amounts that wait.
use tp_sist_op.Prelude.{
  ℕ, Bool, false, List, [], ◌∷◌, ◌++◌, inl, inr, length, zero, suc, ◌+◌, ◌≤◌, none, some, ◌≡◌, refl,
  sym, ap, ◌∙◌, arith, ◌==◌, discard, Bool-cases, All, discard-All, length-append,
}
use mathlib.Core.List.{append-nil, append_assoc}
use tp_sist_op.Prelude.Int.{
  ℤ, pos, ◌+ℤ◌, eqb_ℤ, add_int, sub_int, wrap, ◌-ℤ◌, +ℤ_assoc, +ℤ_zero, zero_+ℤ, +ℤ-sub_cancel,
  +ℤ_left_comm,
}
use tp_sist_op.Queue.{
  PendingRequest, ColaPendingRequest, Origin, unlink, queue_delete_by_conn, queue_delete_by_job_id,
  queue_enqueue, queue_dequeue,
}

-- The sum of the amounts in `int` arithmetic, added up from the bottom.
unfoldable pub waiting : List PendingRequest → ℤ
waiting [] = pos 0
waiting (p ∷ ps) = p.amount +ℤ waiting ps

-- The counter agrees with the nodes, up to the wrap of `int`.
abbrev pub IsCounted : ColaPendingRequest → Type 0
IsCounted c = c.amount ≡ wrap (waiting c.nodes)

pub wrap-add : (a b : ℤ) → wrap (wrap a +ℤ b) ≡ wrap (a +ℤ b)
unfolding wrap ◌+ℤ◌
wrap-add a b = ground arith

pub wrap-sub : (a b : ℤ) → wrap (wrap a -ℤ b) ≡ wrap (a -ℤ b)
unfolding wrap ◌-ℤ◌
wrap-sub a b = ground arith

pub unlink-nodes :
    (p : PendingRequest → Bool) (ns : List PendingRequest) (t : ℤ)
    → (unlink p ns t).nodes ≡ discard p ns
unfolding unlink discard
unlink-nodes p [] t = refl
unlink-nodes p (n ∷ ns) t =
    ground (arith, unlink-nodes p ns t, unlink-nodes p ns (sub_int t n.amount))

sub-waiting : (a b : ℤ) → sub_int (wrap (a +ℤ b)) a ≡ wrap b
unfolding sub_int
sub-waiting a b = wrap-sub (a +ℤ b) a ∙ ap wrap (+ℤ-sub_cancel a b)

-- What is left of the counter is what is left of the sum, beside any amount `k` that stays ahead.
unlink-amount :
    (p : PendingRequest → Bool) (ns : List PendingRequest) (k : ℤ)
    → (unlink p ns (wrap (k +ℤ waiting ns))).amount ≡ wrap (k +ℤ waiting (discard p ns))
unfolding unlink discard waiting
unlink-amount p [] k = refl
unlink-amount p (n ∷ ns) k = elim (Bool-cases (p n)) [
  | inl gone ↦ rw gone (
      ap (λ t. (unlink p ns (sub_int (wrap t) n.amount)).amount)
        (+ℤ_left_comm k n.amount (waiting ns))
      ∙ ap (λ t. (unlink p ns t).amount) (sub-waiting n.amount (k +ℤ waiting ns))
      ∙ unlink-amount p ns k)
  | inr kept ↦ rw kept (
      ap (λ t. (unlink p ns (wrap t)).amount) (sym (+ℤ_assoc k n.amount (waiting ns)))
      ∙ unlink-amount p ns (k +ℤ n.amount)
      ∙ ap wrap (+ℤ_assoc k n.amount (waiting (discard p ns))))
]

waiting-append : (xs ys : List PendingRequest) → waiting (xs ++ ys) ≡ waiting xs +ℤ waiting ys
unfolding waiting
waiting-append [] ys = sym (zero_+ℤ (waiting ys))
waiting-append (x ∷ xs) ys =
    rw (waiting-append xs ys) (sym (+ℤ_assoc x.amount (waiting xs) (waiting ys)))

module _ (p : PendingRequest → Bool) (c : ColaPendingRequest) (h : IsCounted c) where
  pub unlink-IsCounted : IsCounted (unlink p c.nodes c.amount)
  unlink-IsCounted =
      rw (h, unlink-nodes)
        (ap (λ t. (unlink p c.nodes (wrap t)).amount) (sym (zero_+ℤ (waiting c.nodes)))
          ∙ unlink-amount p c.nodes (pos 0)
          ∙ ap wrap (zero_+ℤ (waiting (discard p c.nodes))))

-- In a queue whose counter is right, deletion by connection leaves the requests of the other
-- connections in their order, none of this one's, and the counter right.
pub queue_delete_by_conn_correct :
    (c : ColaPendingRequest) (conn : ℕ)
    → IsCounted c
    → let d = queue_delete_by_conn c conn in
      (d.nodes ≡ discard (λ q. q.owner_conn == conn) c.nodes)
      × All (λ q. (q.owner_conn == conn) ≡ false) d.nodes
      × IsCounted d
unfolding queue_delete_by_conn
queue_delete_by_conn_correct c conn h = (
  unlink-nodes _ c.nodes c.amount,
  rw unlink-nodes (discard-All _ c.nodes),
  unlink-IsCounted _ c h,
)

-- In a queue whose counter is right, deletion by job leaves the requests of the other jobs in
-- their order, none of this one's, and the counter right.
pub queue_delete_by_job_id_correct :
    (c : ColaPendingRequest) (job_id : ℤ)
    → IsCounted c
    → let d = queue_delete_by_job_id c job_id in
      (d.nodes ≡ discard (λ q. eqb_ℤ q.job_id job_id) c.nodes)
      × All (λ q. eqb_ℤ q.job_id job_id ≡ false) d.nodes
      × IsCounted d
unfolding queue_delete_by_job_id
queue_delete_by_job_id_correct c job_id h = (
  unlink-nodes _ c.nodes c.amount,
  rw unlink-nodes (discard-All _ c.nodes),
  unlink-IsCounted _ c h,
)

pub queue_enqueue-IsCounted :
    (c : ColaPendingRequest) (id amount : ℤ) (conn : ℕ) (max_amount : ℤ) (o : Origin)
    → IsCounted c
    → IsCounted (queue_enqueue c id amount conn max_amount o).0
unfolding queue_enqueue add_int waiting
queue_enqueue-IsCounted c id amount conn max_amount o h =
    ap (λ t. wrap (t +ℤ amount)) h
    ∙ wrap-add (waiting c.nodes) amount
    ∙ ap wrap (sym (waiting-append c.nodes _ ∙ ap (◌+ℤ◌ (waiting c.nodes)) (+ℤ_zero amount)))

pub queue_dequeue-IsCounted : (c : ColaPendingRequest) → IsCounted c → IsCounted (queue_dequeue c).0
unfolding queue_dequeue waiting
queue_dequeue-IsCounted c h = go c.nodes c.amount h
  where
    go :
        (ns : List PendingRequest) (t : ℤ)
        → t ≡ wrap (waiting ns)
        → IsCounted (queue_dequeue (record { nodes = ns; amount = t })).0
    go [] t e = e
    go (n ∷ ns) t e = ap (λ s. sub_int s n.amount) e ∙ sub-waiting n.amount (waiting ns)

pub enqueue_all : ColaPendingRequest → List PendingRequest → ColaPendingRequest
enqueue_all c [] = c
enqueue_all c (p ∷ ps) =
    enqueue_all (queue_enqueue c p.job_id p.amount p.owner_conn p.amount p.origen).0 ps

-- What the first `n` calls of `queue_dequeue` return, until one returns NULL.
pub dequeue_all : ℕ → ColaPendingRequest → List PendingRequest
dequeue_all zero c = []
dequeue_all (suc n) c =
    let (c', top) = queue_dequeue c in elim top [ none ↦ [] | some p ↦ p ∷ dequeue_all n c' ]

enqueue_all-nodes :
    (c : ColaPendingRequest) (ps : List PendingRequest) → (enqueue_all c ps).nodes ≡ c.nodes ++ ps
unfolding enqueue_all queue_enqueue
enqueue_all-nodes c [] = sym (append-nil c.nodes)
enqueue_all-nodes c (p ∷ ps) =
    enqueue_all-nodes (queue_enqueue c p.job_id p.amount p.owner_conn p.amount p.origen).0 ps
    ∙ append_assoc c.nodes (p ∷ []) ps

dequeue_all-nodes :
    (n : ℕ) (ns : List PendingRequest) (t : ℤ)
    → length ns ≤ n
    → dequeue_all n (record { nodes = ns; amount = t }) ≡ ns
unfolding dequeue_all queue_dequeue
dequeue_all-nodes zero [] t h = refl
dequeue_all-nodes zero (p ∷ ns) t h = absurd (omega arith)
dequeue_all-nodes (suc n) [] t h = refl
dequeue_all-nodes (suc n) (p ∷ ns) t h = ap (◌∷◌ p) (dequeue_all-nodes n ns _ (omega arith))

-- First in, first out: requests that are put into a queue come out in that order, behind those that
-- were there, and then the queue is empty; `n` is any number of calls that is not too small.
pub dequeue_all-enqueue_all :
    (c : ColaPendingRequest) (ps : List PendingRequest) (n : ℕ)
    → length c.nodes + length ps ≤ n
    → dequeue_all n (enqueue_all c ps) ≡ c.nodes ++ ps
dequeue_all-enqueue_all c ps n h =
    let e = enqueue_all-nodes c ps in
    dequeue_all-nodes n (enqueue_all c ps).nodes (enqueue_all c ps).amount
      (omega (arith, ap length e, length-append c.nodes ps))
    ∙ e
