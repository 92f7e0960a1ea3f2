-- ===== src/Repl/Recording.antt =====
-- The commands of bin/python/interactive.py over servers that record what they are sent.
use xbridge_witness.Base.{List}
use xbridge_witness.Value.{Fields}
use xbridge_witness.Session.Recording.{recording}
use xbridge_witness.Repl.State.{Shell}

-- What is outside, where the servers of both chains add their messages to one list.
abbrev pub recording_shell : {W : Type 0} → Shell W → Shell (List Fields × W)
recording_shell shell = record {
  server = λ c. recording (shell.server c);
  sleep = λ n (sent, w). (sent, shell.sleep n w);
  floats = shell.floats;
  hooks_dir = shell.hooks_dir;
  path = shell.path;
  slash = shell.slash;
  is_file = λ f (sent, w). shell.is_file f w;
  read_bytes = λ f (sent, w). let (x, w') = shell.read_bytes f w in (x, (sent, w'));
  read_lines = λ f (sent, w). let (x, w') = shell.read_lines f w in (x, (sent, w'));
  load_json = λ f (sent, w). let (x, w') = shell.load_json f w in (x, (sent, w'));
  append_file = λ f s (sent, w). let (x, w') = shell.append_file f s w in (x, (sent, w'));
  dumps = shell.dumps;
  show_value = shell.show_value;
  repr_exn = shell.repr_exn;
  str_exn = shell.str_exn;
  show_bridge = shell.show_bridge;
  show_bridges = shell.show_bridges;
  render_accounts = shell.render_accounts;
  render_assets = shell.render_assets;
}
