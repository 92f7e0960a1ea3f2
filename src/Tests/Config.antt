-- ===== src/Tests/Config.antt =====
-- The theorems on configuration files at concrete inputs.
use xbridge_witness.Base.{◌≡◌, refl, [], ◌∷◌, ◌++◌, ok, err, value_error, String}
use xbridge_witness.Base.Text.{strip, split}
use xbridge_witness.Base.Dict.{lookup, Dict}
use xbridge_witness.Config.Section.{Section, section_header}
use xbridge_witness.Config.File.{parse_error, parse_file}
use xbridge_witness.Config.RoundTrip.{parse_file-render}
use xbridge_witness.Config.Render.{render, last_named, IsContent, IsWritable, pair_line}
use xbridge_witness.Config.Errors.{IsOrphan, parse_file_orphan}

abbrev server_section : Section
server_section = record {
  name = "port_ws";
  lines = "ledger" ∷ [];
  kv_pairs = ("port", "6005") ∷ [];
}

ledger_IsContent : IsContent "ledger"
unfolding strip section_header
ledger_IsContent = record { stripped = refl; not_empty = refl; no_comment = refl; no_header = refl }

port_IsContent : IsContent (pair_line ("port", "6005"))
unfolding strip section_header
port_IsContent = record { stripped = refl; not_empty = refl; no_comment = refl; no_header = refl }

server_section-IsWritable : IsWritable server_section
unfolding strip split lookup
server_section-IsWritable = record {
  named = refl;
  plain_lines = (record { content = ledger_IsContent; no_pair = refl }, tt);
  pairs = (
    record {
      content = port_IsContent;
      key_stripped = refl;
      value_stripped = refl;
      key_lacks = (refl, (refl, (refl, (refl, tt))));
      value_lacks = (refl, (refl, (refl, (refl, tt))));
    },
    tt,
  );
  distinct = (refl, tt);
}

parse_file-render_example :
    (d : Dict Section) × (parse_file "a.cfg" (render (server_section ∷ [])) ≡ ok d)
    × ((name : String) → lookup name d ≡ last_named name (server_section ∷ []))
parse_file-render_example =
    parse_file-render "a.cfg" (server_section ∷ []) (server_section-IsWritable, tt)

ledger_IsOrphan : IsOrphan "ledger"
unfolding strip section_header
ledger_IsOrphan = record { read = refl; no_header = refl }

parse_file_orphan_example :
    parse_file "a.cfg" (("# a comment" ∷ []) ++ "ledger" ∷ "[port_ws]" ∷ [])
    ≡ err (value_error (parse_error "a.cfg" 1 (strip "ledger")))
unfolding strip
parse_file_orphan_example =
    parse_file_orphan "a.cfg" ("# a comment" ∷ []) "ledger" ("[port_ws]" ∷ []) (refl, tt)
      ledger_IsOrphan
