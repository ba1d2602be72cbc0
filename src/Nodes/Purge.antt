-- ===== src/Nodes/Purge.antt =====
-- The table of nodes as a map from IPs to announcements, and what the purge keeps.
use tp_sist_op.Prelude.{
  ℕ, zero, suc, ◌≤◌, false, List, [], ◌∷◌, Option, none, some, ◌≡◌, refl, ◌⊎◌, inl, inr, arith,
  ◌==◌, ==_iff, if◌then◌else◌, length, get_or, set, take_all, bytes_eq, bytes_eq_iff, Bool-cases,
  All,
}
use tp_sist_op.Prelude.Int.{ℤ}
use tp_sist_op.Hash.{hash_ip, IsTable, bucket-set_hash}
use tp_sist_op.Nodes.{
  NodeEntry, TablaNodos, update_entry, tabla_nodos_insert_or_update, find_node, is_expired,
  purge_bucket, tabla_nodos_purge,
}

-- The node that the table knows under an IP.
pub node_of : TablaNodos → List ℕ → Option NodeEntry
node_of t ip = find_node ip (get_or t (hash_ip ip) [])

abbrev pub announced : List ℕ → ℤ → ℤ → ℤ → ℤ → ℤ → NodeEntry
announced ip puerto c m g now = record {
  ip = ip;
  puerto = puerto;
  cpu_disp = c;
  mem_disp = m;
  gpu_disp = g;
  last_seen = now;
}

module _ (ip : List ℕ) (puerto c m g now : ℤ) where
  abbrev Updates : List NodeEntry → Type 0
  Updates b =
      ((update_entry ip puerto c m g now b ≡ none) × (find_node ip b ≡ none))
      ⊎ ((b' : List NodeEntry) × (update_entry ip puerto c m g now b ≡ some b')
          × ((k : List ℕ)
              → find_node k b'
                ≡ (if bytes_eq ip k then some (announced ip puerto c m g now) else find_node k b)))

  update_entry-Updates : (b : List NodeEntry) → Updates b
  unfolding update_entry find_node
  update_entry-Updates [] = inl (refl, refl)
  update_entry-Updates (e ∷ b) = elim (Bool-cases (bytes_eq e.ip ip)) [
    | inl hit ↦ inr (
      announced e.ip puerto c m g now ∷ b,
      rw hit,
      λ k. ground (arith, (bytes_eq_iff e.ip ip).0 hit),
    )
    | inr miss ↦ elim (update_entry-Updates b) [
      | inl (none_here, absent) ↦ inl (rw (miss, none_here), rw (miss, absent))
      | inr (b', found, reads) ↦ inr (
        e ∷ b',
        rw (miss, found),
        λ k. ground (arith, reads k, bytes_eq_iff e.ip ip, bytes_eq_iff e.ip k, bytes_eq_iff ip k),
      )
    ]
  ]

  write_home :
      (t : TablaNodos) (b : List NodeEntry) (k : List ℕ)
      → IsTable t
      → ((k : List ℕ)
          → find_node k b ≡ (
              if bytes_eq ip k
              then some (announced ip puerto c m g now)
              else find_node k (get_or t (hash_ip ip) [])))
      → node_of (set t (hash_ip ip) b) k
        ≡ (if bytes_eq ip k then some (announced ip puerto c m g now) else node_of t k)
  unfolding node_of
  write_home t b k w reads =
      rw (bucket-set_hash t ip (hash_ip k) _ w) (elim (Bool-cases (hash_ip ip == hash_ip k)) [
        | inl same ↦ rw same (ground (arith, reads k, (==_iff _ _).0 same))
        | inr apart ↦ rw apart (ground (arith, bytes_eq_iff ip k))
      ])

  -- In a table of 71 buckets an announcement replaces what is known of its node, whether or not
  -- the node was known, and nothing that is known of another, for an IP that fits the buffer.
  pub node_of-insert_or_update :
      (t : TablaNodos) (k : List ℕ)
      → IsTable t
      → length ip ≤ 15
      → node_of (tabla_nodos_insert_or_update t ip puerto c m g now) k
        ≡ (if bytes_eq ip k then some (announced ip puerto c m g now) else node_of t k)
  unfolding tabla_nodos_insert_or_update
  node_of-insert_or_update t k w fits = elim (update_entry-Updates (get_or t (hash_ip ip) [])) [
    | inl (e, absent) ↦
        rw (e, tabla_nodos_insert_or_update, take_all 15 ip fits)
          (write_home t _ k w (λ k. unfold find_node in refl))
    | inr (b', e, reads) ↦ rw (e, tabla_nodos_insert_or_update) (write_home t b' k w reads)
  ]

find_node-purge :
    (now timeout : ℤ) (ip : List ℕ) (b : List NodeEntry) (n : NodeEntry)
    → find_node ip b ≡ some n
    → is_expired now timeout n ≡ false
    → find_node ip (purge_bucket now timeout b) ≡ some n
unfolding find_node purge_bucket
find_node-purge now timeout ip [] n h fresh = cc
find_node-purge now timeout ip (e ∷ b) n h fresh =
    ground (arith, find_node-purge now timeout ip b n)

purge_bucket-All :
    (now timeout : ℤ) (b : List NodeEntry)
    → All (λ n. is_expired now timeout n ≡ false) (purge_bucket now timeout b)
unfolding purge_bucket
purge_bucket-All now timeout [] = tt
purge_bucket-All now timeout (e ∷ b) = ground (arith, purge_bucket-All now timeout b)

get_or-purge :
    (t : TablaNodos) (timeout now : ℤ) (i : ℕ)
    → get_or (tabla_nodos_purge t timeout now) i [] ≡ purge_bucket now timeout (get_or t i [])
unfolding get_or tabla_nodos_purge purge_bucket
get_or-purge [] timeout now i = refl
get_or-purge (b ∷ bs) timeout now zero = refl
get_or-purge (b ∷ bs) timeout now (suc i) = get_or-purge bs timeout now i

-- The purge leaves no expired node in any bucket, and a node that is known and not expired stays
-- known, with its data.
pub tabla_nodos_purge_correct :
    (t : TablaNodos) (timeout now : ℤ)
    → ((i : ℕ)
        → All
            (λ n. is_expired now timeout n ≡ false)
            (get_or (tabla_nodos_purge t timeout now) i []))
      × ((ip : List ℕ) (n : NodeEntry)
          → node_of t ip ≡ some n
          → is_expired now timeout n ≡ false
          → node_of (tabla_nodos_purge t timeout now) ip ≡ some n)
unfolding node_of
tabla_nodos_purge_correct t timeout now = (
  λ i. rw get_or-purge (purge_bucket-All now timeout (get_or t i [])),
  λ ip n h fresh.
      rw get_or-purge (find_node-purge now timeout ip (get_or t (hash_ip ip) []) n h fresh),
)
