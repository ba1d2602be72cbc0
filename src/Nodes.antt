-- ===== src/Nodes.antt =====
-- agente_c/src/tabla_node_entry.c and its header: the nodes heard of by UDP, with the resources that
-- each announced. `time(NULL)` is an argument of the operations that read the clock.
pub mod Purge
use tp_sist_op.Prelude.{
  ℕ, Bool, true, false, List, [], ◌∷◌, Option, none, some, ◌==◌, if◌then◌else◌, get_or, set,
  replicate, take, bytes_eq,
}
use tp_sist_op.Prelude.Int.{ℤ, negsuc, ◌-ℤ◌, ltb_ℤ}
use tp_sist_op.Hash.{hash_ip, tam_tabla_conn}

pub record NodeEntry : Type 0 where
  pub ip : List ℕ
  pub puerto : ℤ
  pub cpu_disp : ℤ
  pub mem_disp : ℤ
  pub gpu_disp : ℤ
  pub last_seen : ℤ

abbrev pub TablaNodos : Type 0
TablaNodos = List (List NodeEntry)

unfoldable pub tabla_nodos_init : TablaNodos
tabla_nodos_init = replicate tam_tabla_conn []

-- The first entry of this IP gets the new data, in place; `none` if there is none.
unfoldable pub update_entry : List ℕ → ℤ → ℤ → ℤ → ℤ → ℤ → List NodeEntry → Option (List NodeEntry)
update_entry ip puerto c m g now [] = none
update_entry ip puerto c m g now (curr ∷ next) =
    let rest = update_entry ip puerto c m g now next in
    if bytes_eq curr.ip ip
    then some (
        record curr { puerto = puerto; cpu_disp = c; mem_disp = m; gpu_disp = g; last_seen = now }
        ∷ next)
    else elim rest [ none ↦ none | some b ↦ some (curr ∷ b) ]

unfoldable pub tabla_nodos_insert_or_update : TablaNodos → List ℕ → ℤ → ℤ → ℤ → ℤ → ℤ → TablaNodos
unfolding hash_ip update_entry
tabla_nodos_insert_or_update t ip puerto c m g now =
    let idx = hash_ip ip in
    let nuevo : NodeEntry = record {
      ip = take 15 ip;
      puerto = puerto;
      cpu_disp = c;
      mem_disp = m;
      gpu_disp = g;
      last_seen = now;
    } in
    elim (update_entry ip puerto c m g now (get_or t idx [])) [
      | some b ↦ set t idx b
      | none ↦ set t idx (nuevo ∷ get_or t idx [])
    ]

unfoldable pub find_node : List ℕ → List NodeEntry → Option NodeEntry
find_node ip [] = none
find_node ip (curr ∷ next) = if bytes_eq curr.ip ip then some curr else find_node ip next

-- -1 if the IP is not known.
unfoldable pub tabla_nodos_get_puerto : TablaNodos → List ℕ → ℤ
unfolding hash_ip find_node
tabla_nodos_get_puerto t ip = elim (find_node ip (get_or t (hash_ip ip) [])) [
  | none ↦ negsuc 0
  | some curr ↦ curr.puerto
]

-- `now - curr->last_seen > timeout_secs`; `time_t` has 64 bits and does not wrap here.
unfoldable pub is_expired : ℤ → ℤ → NodeEntry → Bool
unfolding ◌-ℤ◌
is_expired now timeout_secs curr = ltb_ℤ timeout_secs (now -ℤ curr.last_seen)

unfoldable pub purge_bucket : ℤ → ℤ → List NodeEntry → List NodeEntry
unfolding is_expired
purge_bucket now timeout_secs [] = []
purge_bucket now timeout_secs (curr ∷ next) =
    if is_expired now timeout_secs curr
    then purge_bucket now timeout_secs next
    else curr ∷ purge_bucket now timeout_secs next

unfoldable pub tabla_nodos_purge : TablaNodos → ℤ → ℤ → TablaNodos
unfolding purge_bucket
tabla_nodos_purge [] timeout_secs now = []
tabla_nodos_purge (b ∷ bs) timeout_secs now =
    purge_bucket now timeout_secs b ∷ tabla_nodos_purge bs timeout_secs now

unfoldable pub tabla_nodos_destroy : TablaNodos → TablaNodos
tabla_nodos_destroy [] = []
tabla_nodos_destroy (b ∷ bs) = [] ∷ tabla_nodos_destroy bs
