-- ===== src/Queue/Linked/Segments.antt =====
-- Chains of nodes in the memory of agente_c/src/pending_request.c.
use tp_sist_op.Prelude.{
  ℕ, true, false, List, [], ◌∷◌, ◌++◌, Option, none, some, ◌≡◌, refl, sym, ◌∙◌, ◌⊎◌, ap, inl, inr,
  arith, ◌==◌, ==_iff, Bool-cases, All,
}
use tp_sist_op.Queue.{PendingRequest}
use tp_sist_op.Queue.Linked.{Node, Heap, write}

-- A node by its address, with its request.
pub record Cell : Type 0 where
  pub at : ℕ
  pub request : PendingRequest

-- The address of the first cell, or what comes after the last one.
abbrev pub link : List Cell → Option ℕ → Option ℕ
link [] e = e
link (x ∷ l) e = some x.at

-- The address of the last cell, or what comes before the first one.
abbrev pub last : Option ℕ → List Cell → Option ℕ
last b [] = b
last b (x ∷ l) = last (some x.at) l

-- The cells are in memory, each linked to the next one, and the last one to `e`.
abbrev pub Segment : Heap → List Cell → Option ℕ → Type 0
Segment h [] e = Unit
Segment h (x ∷ l) e =
    (h x.at ≡ some (record { request = x.request; sig = link l e })) × Segment h l e

abbrev pub Misses : ℕ → List Cell → Type 0
Misses a l = All (λ x. (x.at == a) ≡ false) l

-- No address twice.
abbrev pub IsDistinct : List Cell → Type 0
IsDistinct [] = Unit
IsDistinct (x ∷ l) = Misses x.at l × IsDistinct l

pub write_other : (h : Heap) (a k : ℕ) (o : Option Node) → (k == a) ≡ false → write a o h k ≡ h k
unfolding write
write_other h a k o e = rw e refl

pub write_own : (h : Heap) (a : ℕ) (o : Option Node) → write a o h a ≡ o
unfolding write
write_own h a o = let e : (a == a) ≡ true = ground arith in rw e refl

-- A write elsewhere leaves a segment.
pub Segment-frame :
    (h : Heap) (a : ℕ) (o : Option Node) (l : List Cell) (e : Option ℕ)
    → Misses a l
    → Segment h l e
    → Segment (write a o h) l e
Segment-frame h a o [] e m s = tt
Segment-frame h a o (x ∷ l) e m s =
    (write_other h a x.at o m.0 ∙ s.0, Segment-frame h a o l e m.1 s.1)

pub link-append : (l r : List Cell) (e : Option ℕ) → link (l ++ r) e ≡ link l (link r e)
link-append [] r e = refl
link-append (x ∷ l) r e = refl

pub Segment-split :
    (h : Heap) (l r : List Cell) (e : Option ℕ)
    → Segment h (l ++ r) e
    → Segment h l (link r e) × Segment h r e
Segment-split h [] r e s = (tt, s)
Segment-split h (x ∷ l) r e s =
    let (sl, sr) = Segment-split h l r e s.1 in ((rw (sym (link-append l r e)) s.0, sl), sr)

pub Segment-join :
    (h : Heap) (l r : List Cell) (e : Option ℕ)
    → Segment h l (link r e)
    → Segment h r e
    → Segment h (l ++ r) e
Segment-join h [] r e sl sr = sr
Segment-join h (x ∷ l) r e sl sr = (rw (link-append l r e) sl.0, Segment-join h l r e sl.1 sr)

pub Misses-append : (a : ℕ) (l r : List Cell) → Misses a (l ++ r) → Misses a l × Misses a r
Misses-append a [] r m = (tt, m)
Misses-append a (x ∷ l) r m = let (ml, mr) = Misses-append a l r m.1 in ((m.0, ml), mr)

pub ==_sym : (a b : ℕ) → (a == b) ≡ false → (b == a) ≡ false
==_sym a b h = ground arith

pub IsDistinct-split :
    (l r : List Cell)
    → IsDistinct (l ++ r)
    → IsDistinct l × IsDistinct r × All (λ x. Misses x.at r) l
IsDistinct-split [] r d = (tt, d, tt)
IsDistinct-split (x ∷ l) r d =
    let (dl, dr, m) = IsDistinct-split l r d.1 in
    let (ml, mr) = Misses-append x.at l r d.0 in ((ml, dl), dr, (mr, m))

-- A fresh address is in no segment.
pub Segment-Misses :
    (h : Heap) (a : ℕ) (l : List Cell) (e : Option ℕ) → h a ≡ none → Segment h l e → Misses a l
Segment-Misses h a [] e fresh s = tt
Segment-Misses h a (x ∷ l) e fresh s = (
  elim (Bool-cases (x.at == a)) [
    | inl own ↦ absurd (let found = ap h ((==_iff x.at a).0 own) in cc)
    | inr other ↦ other
  ],
  Segment-Misses h a l e fresh s.1,
)

pub Misses-snoc :
    (a : ℕ) (l : List Cell) (x : Cell) → Misses a l → (x.at == a) ≡ false → Misses a (l ++ x ∷ [])
Misses-snoc a [] x m k = (k, tt)
Misses-snoc a (y ∷ l) x m k = (m.0, Misses-snoc a l x m.1 k)

pub IsDistinct-snoc :
    (l : List Cell) (x : Cell) → IsDistinct l → Misses x.at l → IsDistinct (l ++ x ∷ [])
IsDistinct-snoc [] x d m = (tt, tt)
IsDistinct-snoc (y ∷ l) x d m =
    (Misses-snoc y.at l x d.0 (==_sym y.at x.at m.0), IsDistinct-snoc l x d.1 m.1)

-- The last cell is linked to something else.
pub Segment-relink :
    (h : Heap) (l : List Cell) (x : Cell) (e e' : Option ℕ)
    → IsDistinct (l ++ x ∷ [])
    → Segment h (l ++ x ∷ []) e
    → Segment (write x.at (some (record { request = x.request; sig = e' })) h) (l ++ x ∷ []) e'
Segment-relink h [] x e e' d s = (write_own h x.at _, tt)
Segment-relink h (y ∷ l) x e e' d s =
    let apart = (Misses-append y.at l (x ∷ []) d.0).1.0 in
    (
      write_other h x.at y.at _ (==_sym x.at y.at apart)
          ∙ s.0
          ∙ ap (λ k. some (record { request = y.request; sig = k }))
              (link-append l (x ∷ []) e ∙ sym (link-append l (x ∷ []) e')),
      Segment-relink h l x e e' d.1 s.1,
    )

pub last-snoc : (b : Option ℕ) (l : List Cell) (x : Cell) → last b (l ++ x ∷ []) ≡ some x.at
last-snoc b [] x = refl
last-snoc b (y ∷ l) x = last-snoc (some y.at) l x

pub last-append : (b : Option ℕ) (l r : List Cell) → last b (l ++ r) ≡ last (last b l) r
last-append b [] r = refl
last-append b (y ∷ l) r = last-append (some y.at) l r

-- A list is empty, or has a last cell.
pub snoc_cases : (l : List Cell) → (l ≡ []) ⊎ ((r : List Cell) × (x : Cell) × (l ≡ r ++ x ∷ []))
snoc_cases [] = inl refl
snoc_cases (y ∷ l) = elim (snoc_cases l) [
  | inl e ↦ inr ([], y, ap (◌∷◌ y) e)
  | inr (r, x, e) ↦ inr (y ∷ r, x, ap (◌∷◌ y) e)
]
