-- ===== src/Startup/Heartbeat.antt =====
-- A node that keeps announcing itself (agente_c/src/main.c) in the table of another agent, which hears
-- others too and purges its table in each round of its own `broadcast_loop`.
use tp_sist_op.Prelude.{ℕ, ◌≤◌, List, [], ◌∷◌, some, ◌≡◌, length, if◌then◌else◌, bytes_eq}
use tp_sist_op.Prelude.Int.{ℤ, pos, ◌-ℤ◌, ◌≤ℤ◌}
use tp_sist_op.Hash.{IsTable}
use tp_sist_op.Nodes.{NodeEntry}
use tp_sist_op.Nodes.Purge.{node_of, announced}
use tp_sist_op.Manager.{ResourceManager}
use tp_sist_op.Manager.Dispatch.{receive_announce}
use tp_sist_op.Startup.{Config, BroadcastCalls, announce_msg, broadcast_round}

-- What happens to the table: a datagram is heard, with its sender and the time, or a round begins.
pub data Tick : Type 0 where
  heard : List ℕ → List ℕ → ℤ → Tick
  round : Config → BroadcastCalls → ℤ → Tick

abbrev pub tick : ResourceManager → Tick → ResourceManager
tick m (heard ip text now) = receive_announce ip text now m
tick m (round own calls now) = (broadcast_round own calls now m).1

abbrev pub ticks : ResourceManager → List Tick → ResourceManager
ticks m [] = m
ticks m (t ∷ ts) = ticks (tick m t) ts

module _ (cfg : Config) (ip : List ℕ) where
  -- When the node was heard last.
  abbrev pub last_heard : ℤ → List Tick → ℤ
  last_heard last [] = last
  last_heard last (heard from text now ∷ ts) =
      last_heard (if bytes_eq from ip then now else last) ts
  last_heard last (round own calls now ∷ ts) = last_heard last ts

  -- What comes from the node is its announcement, any other text comes from an IP that fits its
  -- buffer, and at most 15 seconds pass from an announcement of the node to a round after it.
  abbrev pub IsOnTime : ℤ → List Tick → Type 0
  IsOnTime last [] = Unit
  IsOnTime last (heard from text now ∷ ts) =
      (length from ≤ 15)
      × (from ≡ ip → text ≡ announce_msg cfg)
      × IsOnTime (if bytes_eq from ip then now else last) ts
  IsOnTime last (round own calls now ∷ ts) = (now -ℤ last ≤ℤ pos 15) × IsOnTime last ts

  abbrev pub entry : ℤ → NodeEntry
  entry now = announced ip cfg.port cfg.cpu cfg.mem cfg.gpu now

  -- The table knows the node, as it was heard last.
  pub record Knows (m : ResourceManager) (last : ℤ) : Type 0 where
    pub width : IsTable m.nodos
    pub known : node_of m.nodos ip ≡ some (entry last)
