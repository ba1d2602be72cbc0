-- ===== src/Manager/NodeList.antt =====
-- agente_c/src/resource_manager.c: the branch GET_NODES of `process_message`.
use tp_sist_op.Prelude.{
  ℕ, ◌+◌, ◌-◌, Bool, false, List, [], ◌∷◌, ◌++◌, if◌then◌else◌, ltb, ◌==◌, ◌&&◌, length, take,
}
use tp_sist_op.Text.{print_int}
use tp_sist_op.Jobs.{Message}
use tp_sist_op.Nodes.{NodeEntry, TablaNodos}
use tp_sist_op.Manager.{ResourceManager, erlang_local, send_message}

abbrev pub buff_size : ℕ
buff_size = 1024

-- `"NODES "`, `":cpu:"`, `":mem:"` and `":gpu:"`.
abbrev pub heading : List ℕ
heading = b'N' ∷ b'O' ∷ b'D' ∷ b'E' ∷ b'S' ∷ b' ' ∷ []

abbrev field : ℕ → ℕ → ℕ → List ℕ
field a b c = b':' ∷ a ∷ b ∷ c ∷ b':' ∷ []

-- `snprintf` into `char tmp[128]` keeps 127 bytes.
unfoldable pub print_node : NodeEntry → List ℕ
unfolding print_int
print_node curr = take 127 (
    curr.ip
    ++ (b':' ∷ print_int curr.puerto)
    ++ (field b'c' b'p' b'u' ++ print_int curr.cpu_disp)
    ++ (field b'm' b'e' b'm' ++ print_int curr.mem_disp)
    ++ (field b'g' b'p' b'u' ++ print_int curr.gpu_disp)
    ++ (b';' ∷ []))

-- `strcat`, unless the buffer would be too full.
unfoldable pub append_node : List ℕ → NodeEntry → List ℕ
unfolding print_node
append_node buf curr =
    let tmp = print_node curr in
    if ltb (length buf + length tmp) (buff_size - 2) then buf ++ tmp else buf

unfoldable pub append_nodes : List ℕ → List NodeEntry → List ℕ
unfolding append_node
append_nodes buf [] = buf
append_nodes buf (curr ∷ next) = append_nodes (append_node buf curr) next

unfoldable pub append_buckets : List ℕ → TablaNodos → List ℕ
unfolding append_nodes
append_buckets buf [] = buf
append_buckets buf (b ∷ bs) = append_buckets (append_nodes buf b) bs

-- `buf[len - 1]`, and the write of it.
unfoldable pub last_is : ℕ → List ℕ → Bool
last_is c [] = false
last_is c (x ∷ []) = x == c
last_is c (x ∷ y ∷ xs) = last_is c (y ∷ xs)

unfoldable pub set_last : ℕ → List ℕ → List ℕ
set_last c [] = []
set_last c (x ∷ []) = c ∷ []
set_last c (x ∷ y ∷ xs) = x ∷ set_last c (y ∷ xs)

-- The last `;` becomes the end of the line, and a list of no nodes gets one.
unfoldable pub end_line : List ℕ → List ℕ
unfolding last_is set_last
end_line buf =
    if ltb 6 (length buf) && last_is b';' buf then set_last b'\n' buf else buf ++ b'\n' ∷ []

unfoldable pub node_list : TablaNodos → List ℕ
unfolding append_buckets end_line
node_list t = end_line (append_buckets heading t)

unfoldable pub on_get_nodes : ℕ → ResourceManager → ResourceManager
unfolding node_list send_message
on_get_nodes conn m = send_message conn erlang_local (Message.nodes (node_list m.nodos)) m
