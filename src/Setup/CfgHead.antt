-- ===== src/Setup/CfgHead.antt =====
-- How `ConfigFile` reads the sections of the ports of a config that `generate_cfg_dir` writes.
use Prim.Native.Char.{code}
use xbridge_witness.Base.{
  ℕ, ◌+◌, String, true, false, List, [], ◌∷◌, ◌++◌, ◌≡◌, refl, ap, ◌∙◌, ok, Result, ◌>>=◌, ◌=ℕ◌,
  arith,
}
use xbridge_witness.Base.Text.{append, strip, lstrip, rstrip, split, truthy}
use xbridge_witness.Base.Decimal.{
  show_ℕ, IsDigits, IsDigits-show_ℕ, truthy-show_ℕ, NoSpace, rstrip-NoSpace,
}
use xbridge_witness.Base.Dict.{Dict, insert}
use xbridge_witness.Config.Section.{Section, section_header, init_section, add_line}
use xbridge_witness.Config.File.{Loop, no_sections, add_section, parse_line, parse_lines}
use xbridge_witness.Config.Render.{Lacks}
use xbridge_witness.Setup.Ports.{Ports}
use xbridge_witness.Setup.CfgText.{server_lines, port_lines}
use xbridge_witness.Setup.CfgLines.{split-Lacks, Lacks-append, lines_of, lines_of_all}
use xbridge_witness.Setup.CfgRead.{inside}

NoSpace-of_IsDigits : (v : String) → IsDigits v → NoSpace v
NoSpace-of_IsDigits String.[] h = tt
NoSpace-of_IsDigits (String.◌∷◌ c v) h = (ground (arith, h.0), NoSpace-of_IsDigits v h.1)

pub Lacks-newline : (v : String) → IsDigits v → Lacks b'\n' v
Lacks-newline String.[] h = tt
Lacks-newline (String.◌∷◌ c v) h = (ground (arith, h.0), Lacks-newline v h.1)

pub split_of_IsDigits : (v : String) → IsDigits v → split b'=' v ≡ v ∷ []
unfolding split
split_of_IsDigits String.[] h = refl
split_of_IsDigits (String.◌∷◌ c v) h =
    let e : (code c =ℕ b'=') ≡ false = ground (arith, h.0) in rw (e, split_of_IsDigits v h.1)

strip_port :
    (v : String) → IsDigits v → truthy v ≡ true → strip (append "port = " v) ≡ append "port = " v
unfolding strip lstrip rstrip
strip_port String.[] h t = ground arith
strip_port (String.◌∷◌ c v) h t =
    rw (rstrip-NoSpace (String.◌∷◌ c v) (NoSpace-of_IsDigits (String.◌∷◌ c v) h))

strip_space : (v : String) → IsDigits v → strip (append " " v) ≡ v
unfolding strip lstrip
strip_space String.[] h = unfold rstrip in refl
strip_space (String.◌∷◌ c v) h =
    let p = NoSpace-of_IsDigits (String.◌∷◌ c v) h in rw p.0 (rstrip-NoSpace (String.◌∷◌ c v) p)

abbrev with_port : String → Section → Section
with_port v s = record s { kv_pairs = insert "port" v s.kv_pairs }

add_line_port :
    (v : String) (s : Section) → IsDigits v → add_line (append "port = " v) s ≡ with_port v s
unfolding add_line split
add_line_port v s h =
    rw (split_of_IsDigits v h)
      (ap (λ w. record s { kv_pairs = insert "port" w s.kv_pairs }) (strip_space v h))

module _ (file : String) where
  parse_line_text :
      (n : ℕ) (v : String) (d : Dict Section) (s : Section)
      → parse_line file n (append "port = " v) (inside d s)
        ≡ ok (inside d (add_line (append "port = " v) s))
  unfolding parse_line section_header
  parse_line_text n v d s = refl

  parse_line_port :
      (n : ℕ) (v : String) (d : Dict Section) (s : Section)
      → IsDigits v
      → truthy v ≡ true
      → parse_line file n (strip (append "port = " v)) (inside d s) ≡ ok (inside d (with_port v s))
  parse_line_port n v d s h t =
      ap (λ l. parse_line file n l (inside d s)) (strip_port v h t)
      ∙ parse_line_text n v d s
      ∙ ap (λ s. ok (inside d s)) (add_line_port v s h)

  -- Behind the line of a port, its section has the port.
  parse_port :
      (n : ℕ) (p : ℕ) (d : Dict Section) (s : Section) (rest : List String)
      → parse_lines file n (append "port = " (show_ℕ p) ∷ rest) (inside d s)
        ≡ parse_lines file (n + 1) rest (inside d (with_port (show_ℕ p) s))
  unfolding parse_lines
  parse_port n p d s rest =
      ap (λ r. r >>= parse_lines file (n + 1) rest)
        (parse_line_port n (show_ℕ p) d s (IsDigits-show_ℕ p) (truthy-show_ℕ p))

abbrev port_section : String → ℕ → List (String × String) → Section
port_section name p pairs = record {
  name = name;
  lines = [];
  kv_pairs = ("port", show_ℕ p) ∷ pairs;
}

abbrev pub admin_section : Ports → Section
admin_section p =
    port_section "port_ws_admin_local" p.ws_admin_port
      (("ip", "127.0.0.1") ∷ ("admin", "127.0.0.1") ∷ ("protocol", "ws") ∷ [])

abbrev pub public_section : Ports → Section
public_section p =
    port_section "port_ws_public" p.ws_public_port (("ip", "127.0.0.1") ∷ ("protocol", "ws") ∷ [])

abbrev server_section : Section
server_section = record {
  name = "server";
  lines = "port_rpc_admin_local" ∷ "port_peer" ∷ "port_ws_admin_local" ∷ "port_ws_public" ∷ [];
  kv_pairs = [];
}

abbrev rpc_section : Ports → Section
rpc_section p =
    port_section "port_rpc_admin_local" p.http_admin_port
      (("ip", "127.0.0.1") ∷ ("admin", "127.0.0.1") ∷ ("protocol", "http") ∷ [])

abbrev peer_section : Ports → Section
peer_section p =
    port_section "port_peer" p.peer_port (("ip", "0.0.0.0") ∷ ("protocol", "peer") ∷ [])

-- The sections that are complete when the last of the ports' is open.
abbrev pub head_sections : Ports → Dict Section
head_sections p =
    ("server", server_section)
    ∷ ("port_rpc_admin_local", rpc_section p)
    ∷ ("port_peer", peer_section p)
    ∷ ("port_ws_admin_local", admin_section p)
    ∷ []

abbrev drop {ℓ} : {A : Type ℓ} → ℕ → List A → List A
drop ℕ.zero xs = xs
drop (ℕ.suc n) [] = []
drop (ℕ.suc n) (x ∷ xs) = drop n xs

module _ (file : String) (p : Ports) (rest : List String) where
  -- What is left below the first `k` lines of the ports.
  abbrev below : ℕ → List String
  below k = drop k (port_lines p ++ rest)

  -- The parser at the line of a port, and behind it.
  abbrev at_port : ℕ → ℕ → Dict Section → String → Result Loop
  at_port n k d name = parse_lines file n (below k) (inside d (init_section name))

  abbrev behind : ℕ → ℕ → Dict Section → String → ℕ → Result Loop
  behind n k d name port =
      parse_lines file (n + 1) (below k) (inside d (with_port (show_ℕ port) (init_section name)))

  to_rpc :
      parse_lines file 0 (server_lines ++ (port_lines p ++ rest)) no_sections
      ≡ at_port 10 1 (("server", server_section) ∷ []) "port_rpc_admin_local"
  unfolding parse_lines parse_line section_header add_line split strip lstrip rstrip insert
      add_section
  to_rpc = refl

  to_peer :
      behind 10 2 (("server", server_section) ∷ []) "port_rpc_admin_local" p.http_admin_port
      ≡ at_port 16 7
          (("server", server_section) ∷ ("port_rpc_admin_local", rpc_section p) ∷ [])
          "port_peer"
  unfolding parse_lines parse_line section_header add_line split strip lstrip rstrip insert
      add_section
  to_peer = refl

  abbrev three_sections : Dict Section
  three_sections =
      ("server", server_section)
      ∷ ("port_rpc_admin_local", rpc_section p)
      ∷ ("port_peer", peer_section p)
      ∷ []

  to_admin :
      behind 16 8
        (("server", server_section) ∷ ("port_rpc_admin_local", rpc_section p) ∷ [])
        "port_peer"
        p.peer_port
      ≡ at_port 21 12 three_sections "port_ws_admin_local"
  unfolding parse_lines parse_line section_header add_line split strip lstrip rstrip insert
      add_section
  to_admin = refl

  to_public :
      behind 21 13 three_sections "port_ws_admin_local" p.ws_admin_port
      ≡ at_port 27 18 (head_sections p) "port_ws_public"
  unfolding parse_lines parse_line section_header add_line split strip lstrip rstrip insert
      add_section
  to_public = refl

  to_rest :
      behind 27 19 (head_sections p) "port_ws_public" p.ws_public_port
      ≡ parse_lines file 32 rest (inside (head_sections p) (public_section p))
  unfolding parse_lines parse_line section_header add_line split strip lstrip rstrip insert
      add_section
  to_rest = refl

  -- The parser reads the sections of the ports, and is then in the last of them.
  pub parse_lines-head :
      parse_lines file 0 (server_lines ++ (port_lines p ++ rest)) no_sections
      ≡ parse_lines file 32 rest (inside (head_sections p) (public_section p))
  parse_lines-head =
      to_rpc
      ∙ parse_port file 10 p.http_admin_port _ _ (below 2)
      ∙ to_peer
      ∙ parse_port file 16 p.peer_port _ _ (below 8)
      ∙ to_admin
      ∙ parse_port file 21 p.ws_admin_port _ _ (below 13)
      ∙ to_public
      ∙ parse_port file 27 p.ws_public_port _ _ (below 19)
      ∙ to_rest

lines_of-port : (n : ℕ) → lines_of (append "port = " (show_ℕ n)) ≡ append "port = " (show_ℕ n) ∷ []
lines_of-port n = split-Lacks (append "port = " (show_ℕ n)) (
    Lacks-append b'\n' "port = " (show_ℕ n) (ground arith)
      (Lacks-newline (show_ℕ n) (IsDigits-show_ℕ n)))

-- The texts of the head are lines.
pub lines_of_all-head :
    (p : Ports) (rest : List String)
    → lines_of_all (server_lines ++ (port_lines p ++ rest))
      ≡ server_lines ++ (port_lines p ++ lines_of_all rest)
unfolding split
lines_of_all-head p rest = rw (
  lines_of-port p.http_admin_port,
  lines_of-port p.peer_port,
  lines_of-port p.ws_admin_port,
  lines_of-port p.ws_public_port,
)
