-- ===== src/Setup/PortsLaws.antt =====
-- When two configs of bin/python/create_config_files.py share a port.
use xbridge_witness.Base.{ℕ, ◌<◌, ◌≡◌, ◌≢◌, List, [], ◌∷◌, arith, All}
use xbridge_witness.Setup.Ports.{
  Ports, init_ports, loop_indexes, net_indexes, cfg_type_indexes, network_indexes,
}

-- The four ports of a config.
abbrev pub all_ports : Ports → List ℕ
all_ports p = p.peer_port ∷ p.http_admin_port ∷ p.ws_public_port ∷ p.ws_admin_port ∷ []

-- No port of the one list is in the other.
abbrev pub Apart : List ℕ → List ℕ → Type 0
Apart ps qs = All (λ p. All (λ q. p ≢ q) qs) ps

-- No number stands twice.
abbrev pub Unrepeated : List ℕ → Type 0
Unrepeated [] = Unit
Unrepeated (p ∷ ps) = All (λ q. p ≢ q) ps × Unrepeated ps

-- Configs with different indexes below 1000 share no port, and each uses four different ports.
pub init_ports-Apart :
    (i j : ℕ)
    → i < 1000
    → j < 1000
    → i ≢ j
    → Apart (all_ports (init_ports i)) (all_ports (init_ports j))
      × Unrepeated (all_ports (init_ports i))
unfolding init_ports
init_ports-Apart i j hi hj d = ground arith

-- The loops of `main` give out 24 consecutive indexes, whichever they start at.
loop_indexes-network_indexes : (n : ℕ) → loop_indexes n ≡ network_indexes 24 n
unfolding loop_indexes net_indexes cfg_type_indexes network_indexes
loop_indexes-network_indexes n = ground arith
