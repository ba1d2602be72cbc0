-- ===== src/Conns.antt =====
-- agente_c/src/tabla_conns.c and its header: the table of connections to other agents, by IP.
pub mod Lookup
use tp_sist_op.Prelude.{
  ℕ, Bool, true, false, List, [], ◌∷◌, Option, none, some, ◌==◌, if◌then◌else◌, get_or, set,
  replicate, take, bytes_eq,
}
use tp_sist_op.Hash.{hash_ip, tam_tabla_conn}

pub record ConnEntry : Type 0 where
  pub ip : List ℕ
  pub conn : ℕ

abbrev pub TablaConns : Type 0
TablaConns = List (List ConnEntry)

unfoldable pub tabla_conns_init : TablaConns
tabla_conns_init = replicate tam_tabla_conn []

-- `strncpy` into `char ip[16]` keeps 15 bytes; the bucket is that of the whole string.
unfoldable pub tabla_conns_insert : TablaConns → List ℕ → ℕ → TablaConns
unfolding hash_ip
tabla_conns_insert t ip conn =
    let idx = hash_ip ip in set t idx (record { ip = take 15 ip; conn = conn } ∷ get_or t idx [])

unfoldable pub find_conn : List ℕ → List ConnEntry → Option ℕ
find_conn ip [] = none
find_conn ip (start ∷ next) = if bytes_eq start.ip ip then some start.conn else find_conn ip next

-- `none` is NULL.
unfoldable pub tabla_conns_lookup : TablaConns → List ℕ → Option ℕ
unfolding hash_ip find_conn
tabla_conns_lookup t ip = find_conn ip (get_or t (hash_ip ip) [])

unfoldable pub find_ip : ℕ → List ConnEntry → Option (List ℕ)
find_ip conn [] = none
find_ip conn (c ∷ next) = if c.conn == conn then some c.ip else find_ip conn next

unfoldable pub tabla_conns_get_ip_by_conn : TablaConns → ℕ → Option (List ℕ)
unfolding find_ip
tabla_conns_get_ip_by_conn [] conn = none
tabla_conns_get_ip_by_conn (b ∷ bs) conn =
    let rest = tabla_conns_get_ip_by_conn bs conn in
    elim (find_ip conn b) [ some ip ↦ some ip | none ↦ rest ]

-- The first entry that passes the test is unlinked, and the walk stops there.
unfoldable pub unlink_first : (ConnEntry → Bool) → List ConnEntry → List ConnEntry
unlink_first p [] = []
unlink_first p (start ∷ next) = if p start then next else start ∷ unlink_first p next

unfoldable pub tabla_conns_delete : TablaConns → List ℕ → TablaConns
unfolding hash_ip unlink_first
tabla_conns_delete t ip =
    let idx = hash_ip ip in
    set t idx (unlink_first (λ start. bytes_eq start.ip ip) (get_or t idx []))

-- In each bucket, up to the first hit.
unfoldable pub tabla_conns_delete_by_conn : TablaConns → ℕ → TablaConns
unfolding unlink_first
tabla_conns_delete_by_conn [] conn = []
tabla_conns_delete_by_conn (b ∷ bs) conn =
    unlink_first (λ start. start.conn == conn) b ∷ tabla_conns_delete_by_conn bs conn

unfoldable pub tabla_conns_destroy : TablaConns → TablaConns
tabla_conns_destroy [] = []
tabla_conns_destroy (b ∷ bs) = [] ∷ tabla_conns_destroy bs
