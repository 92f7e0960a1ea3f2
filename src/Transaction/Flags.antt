-- ===== src/Transaction/Flags.antt =====
-- Flags of transactions in bin/python/transaction.py and bin/python/command.py.
use xbridge_witness.Base.{
  ℕ, ◌≡◌, Bool, some, err, type_error, name_error, ◌>>=◌, Option-cases, inl, inr, refl, ap, is_some,
  if◌then◌else◌,
}
use xbridge_witness.Transaction.Types.{Header, Body}
use xbridge_witness.Transaction.Setters.{set_flag, write_bit}
use xbridge_witness.Transaction.Encode.{header_to_cmd_obj, body_fields, to_cmd_obj}

header_refused : (h : Header) (f : ℕ) → h.flags ≡ some f → header_to_cmd_obj h ≡ err name_error
unfolding header_to_cmd_obj
header_refused h f e = rw e

-- Setting or clearing a flag, whichever it is, leaves no transaction that can be sent: without flags
-- from the constructor it raises a TypeError, and with them the dictionary raises a NameError.
pub set_flag-to_cmd_obj :
    (bit : ℕ) (value : Bool) (h : Header) (b : Body)
    → (set_flag bit value h >>= λ h'. to_cmd_obj (record { header = h'; body = b }))
      ≡ err (if is_some h.flags then name_error else type_error)
unfolding set_flag to_cmd_obj
set_flag-to_cmd_obj bit value h b = elim (Option-cases h.flags) [
  | inl e ↦ rw e
  | inr (f, e) ↦
      let flagged = record h { flags = some (write_bit bit value f) } in
      rw e (ap (λ r. r >>= body_fields b) (header_refused flagged (write_bit bit value f) refl))
]
