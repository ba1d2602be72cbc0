-- ===== src/Hash.antt =====
-- `hash_ip` of agente_c/src/tabla_conns.c and agente_c/src/tabla_node_entry.c, which have the same
-- text, and the tables that it indexes: an array of 71 buckets, each a list.
use tp_sist_op.Prelude.{
  ℕ, ◌+◌, ◌*◌, ◌%◌, ◌^◌, ◌<◌, List, [], ◌∷◌, ◌≡◌, arith, length, get_or, set, get_or-set,
  if◌then◌else◌, ◌==◌,
}

abbrev pub tam_tabla_conn : ℕ
tam_tabla_conn = 71

-- `hash = hash * 31 + (unsigned char)(*ip)` in `unsigned int`.
hash_loop : List ℕ → ℕ → ℕ
hash_loop [] hash = hash
hash_loop (c ∷ ip) hash = hash_loop ip ((hash * 31 + c) % 2 ^ 32)

unfoldable pub hash_ip : List ℕ → ℕ
unfolding hash_loop
hash_ip ip = hash_loop ip 0 % tam_tabla_conn

-- Every read and write through the hash is inside the array.
pub hash_ip-lt : (ip : List ℕ) → hash_ip ip < tam_tabla_conn
unfolding hash_ip
hash_ip-lt ip = omega arith

module _ {ℓ} {A : Type ℓ} where
  abbrev pub IsTable : List (List A) → Type 0
  IsTable t = length t ≡ tam_tabla_conn

  pub bucket-set_hash :
      (t : List (List A)) (ip : List ℕ) (k : ℕ) (b : List A)
      → IsTable t
      → get_or (set t (hash_ip ip) b) k [] ≡ (if hash_ip ip == k then b else get_or t k [])
  bucket-set_hash t ip k b w = get_or-set t (hash_ip ip) k b [] (omega (arith, hash_ip-lt ip))
