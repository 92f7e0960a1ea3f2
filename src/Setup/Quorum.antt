-- ===== src/Setup/Quorum.antt =====
-- The quorum that `setup_mainchain` and `setup_sidechain` of bin/python/sidechain.py set.
use xbridge_witness.Base.{ℕ, ◌+◌, ◌-◌, ◌*◌, ◌/◌, ◌≤◌, ◌↔◌, arith}

-- `divide = 4 * len(witness_configs)`, `by = 5` and `(divide + by - 1) // by`
unfoldable pub quorum : ℕ → ℕ
quorum witnesses = let divide = 4 * witnesses in let by : ℕ = 5 in (divide + by - 1) / by

-- The quorum is the least number that is at least four fifths of the number of witnesses, and it is
-- no more than there are witnesses.
pub quorum-least : (n q : ℕ) → ((quorum n ≤ q) ↔ (4 * n ≤ 5 * q)) × (quorum n ≤ n)
unfolding quorum
quorum-least n q = ((λ h. omega arith, λ h. omega arith), omega arith)
