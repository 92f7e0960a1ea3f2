-- ===== src/Repl/ClaimLaws.antt =====
-- `do_xchain_claim` of bin/python/interactive.py sends nothing.
use xbridge_witness.Base.{String, refl}
use xbridge_witness.Repl.State.{Repl, Shell}
use xbridge_witness.Repl.Transfers.{do_xchain_claim}
use xbridge_witness.Repl.Keeps.Bridges.{Keeps-do_xchain_claim}
use xbridge_witness.Repl.PayLaws.{OnlyPrinted, printing}

-- No line makes `do_xchain_claim` send anything to a server: where the proof is known, the constructor of the
-- claim refuses it before the claim is sent, and where it is not, the message raises. All that any line
-- changes is what was printed.
pub do_xchain_claim-OnlyPrinted :
    {W : Type 0} (shell : Shell W) (line : String) (r : Repl) (w : W)
    → OnlyPrinted r w (do_xchain_claim shell line r w).1 (do_xchain_claim shell line r w).2
do_xchain_claim-OnlyPrinted shell line r w =
    (Keeps-do_xchain_claim (printing r w) shell line).at r w (refl, refl)
