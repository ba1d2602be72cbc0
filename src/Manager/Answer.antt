-- ===== src/Manager/Answer.antt =====
-- The length and the end of the answer to GET_NODES.
use tp_sist_op.Prelude.{
  ℕ, suc, ◌+◌, ◌<◌, ◌≤◌, true, List, [], ◌∷◌, ◌++◌, ◌≡◌, refl, inl, inr, arith, ltb, ◌&&◌, length,
  length-append, Bool-cases,
}
use tp_sist_op.Nodes.{NodeEntry, TablaNodos}
use tp_sist_op.Manager.NodeList.{
  buff_size, heading, print_node, append_node, append_nodes, append_buckets, last_is, set_last,
  end_line, node_list,
}

append_node-length :
    (buf : List ℕ) (curr : NodeEntry) → length buf < 1022 → length (append_node buf curr) < 1022
unfolding append_node
append_node-length buf curr h =
    elim (Bool-cases (ltb (length buf + length (print_node curr)) 1022)) [
      | inl fits ↦ rw fits (ground (arith, length-append buf (print_node curr)))
      | inr full ↦ rw full h
    ]

append_nodes-length :
    (buf : List ℕ) (b : List NodeEntry) → length buf < 1022 → length (append_nodes buf b) < 1022
unfolding append_nodes
append_nodes-length buf [] h = h
append_nodes-length buf (curr ∷ next) h =
    append_nodes-length (append_node buf curr) next (append_node-length buf curr h)

append_buckets-length :
    (buf : List ℕ) (t : TablaNodos) → length buf < 1022 → length (append_buckets buf t) < 1022
unfolding append_buckets
append_buckets-length buf [] h = h
append_buckets-length buf (b ∷ bs) h =
    append_buckets-length (append_nodes buf b) bs (append_nodes-length buf b h)

length-set_last : (c : ℕ) (s : List ℕ) → length (set_last c s) ≡ length s
unfolding set_last
length-set_last c [] = refl
length-set_last c (x ∷ []) = refl
length-set_last c (x ∷ y ∷ s) = omega (arith, length-set_last c (y ∷ s))

last_is-set_last : (c : ℕ) (s : List ℕ) → 0 < length s → last_is c (set_last c s) ≡ true
unfolding last_is set_last
last_is-set_last c [] h = absurd (omega arith)
last_is-set_last c (x ∷ []) h = ground arith
last_is-set_last c (x ∷ y ∷ []) h = ground arith
last_is-set_last c (x ∷ y ∷ z ∷ s) h = last_is-set_last c (y ∷ z ∷ s) (omega arith)

last_is-append : (c : ℕ) (s : List ℕ) → last_is c (s ++ c ∷ []) ≡ true
unfolding last_is
last_is-append c [] = ground arith
last_is-append c (x ∷ []) = ground arith
last_is-append c (x ∷ y ∷ s) = last_is-append c (y ∷ s)

end_line-length : (s : List ℕ) → length (end_line s) ≤ suc (length s)
unfolding end_line
end_line-length s = elim (Bool-cases (ltb 6 (length s) && last_is b';' s)) [
  | inl ends ↦ rw ends (omega (arith, length-set_last b'\n' s))
  | inr open_end ↦ rw open_end (omega (arith, length-append s (b'\n' ∷ [])))
]

end_line-last_is : (s : List ℕ) → last_is b'\n' (end_line s) ≡ true
unfolding end_line
end_line-last_is s = elim (Bool-cases (ltb 6 (length s) && last_is b';' s)) [
  | inl ends ↦ rw ends (last_is-set_last b'\n' s (ground arith))
  | inr open_end ↦ rw open_end (last_is-append b'\n' s)
]

-- The answer to GET_NODES fits `char buf[BUFF_SIZE]` with its terminating zero, however many nodes
-- are known, and ends its line.
pub node_list_fits :
    (t : TablaNodos) → (length (node_list t) < buff_size) × (last_is b'\n' (node_list t) ≡ true)
unfolding node_list
node_list_fits t =
    let text = append_buckets heading t in
    (
      omega (arith, append_buckets-length heading t (omega arith), end_line-length text),
      end_line-last_is text,
    )
