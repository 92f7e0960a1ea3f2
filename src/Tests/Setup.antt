-- ===== src/Tests/Setup.antt =====
-- The theorems on ports and quorums at concrete inputs.
use xbridge_witness.Base.{◌*◌, ◌≤◌, ◌≡◌, ◌↔◌, refl, ◌∷◌, arith}
use xbridge_witness.Setup.Ports.{init_ports, network_indexes, main_indexes}
use xbridge_witness.Setup.PortsLaws.{all_ports, Apart, Unrepeated, init_ports-Apart}
use xbridge_witness.Setup.Quorum.{quorum, quorum-least}

init_ports-Apart_example :
    Apart (all_ports (init_ports 3)) (all_ports (init_ports 999))
    × Unrepeated (all_ports (init_ports 3))
init_ports-Apart_example = init_ports-Apart 3 999 (omega arith) (omega arith) (λ e. omega arith)

quorum-least_example : ((quorum 7 ≤ 6) ↔ (4 * 7 ≤ 5 * 6)) × (quorum 7 ≤ 7)
quorum-least_example = quorum-least 7 6

-- The side servers of the multi-node network have the indexes 2 to 6, and the loops start at 3.
main_indexes_test : main_indexes ≡ 0 ∷ 1 ∷ 2 ∷ 3 ∷ 4 ∷ 5 ∷ 6 ∷ network_indexes 24 3
unfolding main_indexes
main_indexes_test = refl
