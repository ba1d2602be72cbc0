-- ===== src/Conns/Lookup.antt =====
-- The table of connections as a map, and what a deletion leaves of a connection.
use tp_sist_op.Prelude.{
  ℕ, zero, suc, ◌-◌, ◌≤◌, false, List, [], ◌∷◌, none, some, ◌≡◌, refl, subst, ◌∙◌, inl, inr, arith,
  ◌==◌, ==_iff, if◌then◌else◌, length, get_or, take_all, bytes_eq, bytes_eq_iff, Bool-cases,
}
use tp_sist_op.Hash.{hash_ip, IsTable, bucket-set_hash}
use tp_sist_op.Conns.{
  ConnEntry, TablaConns, tabla_conns_insert, tabla_conns_lookup, find_conn, unlink_first,
  tabla_conns_delete, tabla_conns_delete_by_conn,
}

-- In a table of 71 buckets the latest connection to an IP is the one found, and the other IPs find
-- what they found before, for an IP that fits the buffer of 16 bytes.
pub lookup-insert :
    (t : TablaConns) (ip k : List ℕ) (conn : ℕ)
    → IsTable t
    → length ip ≤ 15
    → tabla_conns_lookup (tabla_conns_insert t ip conn) k
      ≡ (if bytes_eq ip k then some conn else tabla_conns_lookup t k)
unfolding tabla_conns_lookup tabla_conns_insert find_conn
lookup-insert t ip k conn w fits =
    rw (bucket-set_hash t ip (hash_ip k) _ w, take_all 15 ip fits)
      (elim (Bool-cases (hash_ip ip == hash_ip k)) [
        | inl same ↦ rw same (ground (arith, (==_iff _ _).0 same))
        | inr apart ↦ rw apart (ground (arith, bytes_eq_iff ip k))
      ])

-- The entries of a connection in one bucket.
pub entries_of : ℕ → List ConnEntry → ℕ
entries_of conn [] = 0
entries_of conn (c ∷ next) =
    let rest = entries_of conn next in if c.conn == conn then suc rest else rest

entries_of-unlink_first :
    (conn : ℕ) (b : List ConnEntry)
    → entries_of conn (unlink_first (λ s. s.conn == conn) b) ≡ entries_of conn b - 1
unfolding entries_of unlink_first
entries_of-unlink_first conn [] = omega arith
entries_of-unlink_first conn (c ∷ b) = ground (arith, entries_of-unlink_first conn b)

entries_of_other :
    (conn k : ℕ) (b : List ConnEntry)
    → (conn == k) ≡ false
    → entries_of k (unlink_first (λ s. s.conn == conn) b) ≡ entries_of k b
unfolding entries_of unlink_first
entries_of_other conn k [] h = refl
entries_of_other conn k (c ∷ b) h = ground (arith, entries_of_other conn k b h)

-- Deletion by connection takes one entry of the connection from every bucket that has one, not all
-- of them, and no entry of another connection.
pub delete_by_conn-entries_of :
    (t : TablaConns) (conn k i : ℕ)
    → entries_of k (get_or (tabla_conns_delete_by_conn t conn) i [])
      ≡ (if conn == k then entries_of k (get_or t i []) - 1 else entries_of k (get_or t i []))
unfolding tabla_conns_delete_by_conn get_or entries_of
delete_by_conn-entries_of [] conn k i = ground arith
delete_by_conn-entries_of (b ∷ bs) conn k zero = elim (Bool-cases (conn == k)) [
  | inl same ↦ rw same (
      subst (λ z. entries_of z (unlink_first (λ s. s.conn == conn) b) ≡ entries_of z b - 1)
        ((==_iff conn k).0 same) (entries_of-unlink_first conn b))
  | inr other ↦ rw other (entries_of_other conn k b other)
]
delete_by_conn-entries_of (b ∷ bs) conn k (suc i) = delete_by_conn-entries_of bs conn k i

-- No two entries of a bucket have one IP.
abbrev pub IsUnique : List ConnEntry → Type 0
IsUnique [] = Unit
IsUnique (c ∷ next) = (find_conn c.ip next ≡ none) × IsUnique next

find_conn-unlink_first :
    (ip k : List ℕ) (b : List ConnEntry)
    → IsUnique b
    → find_conn k (unlink_first (λ s. bytes_eq s.ip ip) b)
      ≡ (if bytes_eq ip k then none else find_conn k b)
unfolding find_conn unlink_first
find_conn-unlink_first ip k [] u = ground arith
find_conn-unlink_first ip k (c ∷ b) u = ground (
  arith,
  find_conn-unlink_first ip k b u.1,
  bytes_eq_iff ip k,
  bytes_eq_iff c.ip ip,
  bytes_eq_iff c.ip k,
)

-- In a table of 71 buckets, after a deletion by IP, that IP is unknown and the others find what
-- they found before, if its bucket holds an IP once at most.
pub lookup-delete :
    (t : TablaConns) (ip k : List ℕ)
    → IsTable t
    → IsUnique (get_or t (hash_ip ip) [])
    → tabla_conns_lookup (tabla_conns_delete t ip) k
      ≡ (if bytes_eq ip k then none else tabla_conns_lookup t k)
unfolding tabla_conns_lookup tabla_conns_delete
lookup-delete t ip k w u =
    rw (bucket-set_hash t ip (hash_ip k) _ w) (elim (Bool-cases (hash_ip ip == hash_ip k)) [
      | inl same ↦ rw same (
          find_conn-unlink_first ip k (get_or t (hash_ip ip) []) u
          ∙ ground (arith, (==_iff _ _).0 same))
      | inr apart ↦ rw apart (ground (arith, bytes_eq_iff ip k))
    ])
