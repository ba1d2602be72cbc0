-- ===== src/Startup/Announcement.antt =====
-- What another agent reads in the announcement of this one: `broadcast_loop` of agente_c/src/main.c,
-- then `parse_announce` of agente_c/src/parsing.c.
use tp_sist_op.Prelude.{ℕ, false, List, [], ◌∷◌, ◌≡◌}
use tp_sist_op.Prelude.Int.{negsuc, eqb_ℤ, IsInt}
use tp_sist_op.Parsing.Announce.{Amounts, AnnounceMsg}
use tp_sist_op.Startup.{Config}

-- The fields are values of an `int`, and no amount is -1, which `parse_announce` takes for missing.
pub record IsAnnounceable (cfg : Config) : Type 0 where
  pub port : IsInt cfg.port
  pub cpu : IsInt cfg.cpu
  pub mem : IsInt cfg.mem
  pub gpu : IsInt cfg.gpu
  pub cpu_given : eqb_ℤ cfg.cpu (negsuc 0) ≡ false
  pub mem_given : eqb_ℤ cfg.mem (negsuc 0) ≡ false
  pub gpu_given : eqb_ℤ cfg.gpu (negsuc 0) ≡ false

-- A text that is not empty.
abbrev IsFull : List ℕ → Type 0
IsFull [] = ⊥
IsFull (c ∷ s) = Unit

abbrev start : Amounts
start = record { c = negsuc 0; m = negsuc 0; g = negsuc 0 }

abbrev pub message_of : Config → AnnounceMsg
message_of cfg = record { puerto = cfg.port; cpu = cfg.cpu; mem = cfg.mem; gpu = cfg.gpu }
