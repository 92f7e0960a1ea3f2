-- ===== src/Log/Analyze.antt =====
-- `class LogLine` and `convert_log` of bin/python/log_analyzer.py, on the lines of the log.
use xbridge_witness.Value.Truth.{truthy_value}
use xbridge_witness.Base.{
  String, Bool, true, false, not, Option, none, some, List, [], ◌∷◌, ◌++◌, ◌==◌, Result, ok, err,
  ◌>>=◌, assertion_error, attribute_error, require, if◌then◌else◌,
}
use xbridge_witness.Base.Text.{truthy, strip, ends_with}
use xbridge_witness.Base.Words.{concat}
use xbridge_witness.Base.Dict.{Dict, insert}
use xbridge_witness.Value.{Value, str, Fields, end, field, put}

-- The groups of a match.
pub record Parts : Type 0 where
  pub timestamp : String
  pub level : String
  pub module_name : String
  pub msg : String

-- What the regular expressions and `json` make of a line: `STRUCTURED_RE.match`, with the group of the JSON
-- data, `UNSTRUCTURED_RE.match`, `json.loads`, and `json.dumps` with an indent of one.
pub record Reader : Type 0 where
  pub structured : String → Option (Parts × String)
  pub unstructured : String → Option Parts
  pub loads : String → Result Value
  pub dumps : Value → String

-- The object: without a match it has no parts.
pub record LogLine : Type 0 where
  pub raw_line : String
  pub json_data : Option Value
  pub parts : Option Parts

abbrev pub is_match : Option Parts → Bool
is_match none = false
is_match (some p) = true

abbrev pub data_of : Option Value → Option Value
data_of none = none
data_of (some v) = if truthy_value v then some v else none

module _ (reader : Reader) where
  abbrev pub plain_line : String → LogLine
  plain_line line = record { raw_line = line; json_data = none; parts = reader.unstructured line }

  -- `json.loads` may raise: then the line is read as an unstructured one.
  abbrev pub structured_line : String → Parts → Result Value → LogLine
  structured_line line p (ok v) = record { raw_line = line; json_data = some v; parts = some p }
  structured_line line p (err e) = plain_line line

  abbrev pub matched_line : String → Option (Parts × String) → LogLine
  matched_line line none = plain_line line
  matched_line line (some (p, group)) = structured_line line p (reader.loads group)

  -- `LogLine.__init__`, which catches what it raises
  unfoldable pub init_log_line : String → LogLine
  unfolding ends_with
  init_log_line line =
      if ends_with b'}' line then matched_line line (reader.structured line) else plain_line line

  abbrev pub with_data : Option Value → Fields → Fields
  with_data none d = d
  with_data (some v) d = put "data" v d

  abbrev pub pure_json : Parts → Option Value → Fields
  pure_json p found = with_data found (
      field "t" (str p.timestamp)
        (field "m" (str p.module_name) (field "l" (str p.level) (field "msg" (str p.msg) end))))

  -- `LogLine.to_pure_json`
  unfoldable pub to_pure_json : LogLine → Result Fields
  to_pure_json l = require attribute_error l.parts >>= λ p. ok (pure_json p (data_of l.json_data))

  -- `LogLine.to_pure_json_str`: its call of `to_pure_json` always raises.
  abbrev pub to_pure_json_str : LogLine → String
  to_pure_json_str l = l.raw_line

  abbrev pub dumped : Option Value → String
  dumped none = ""
  dumped (some v) = concat ("\n" ∷ reader.dumps v ∷ [])

  abbrev pub mixed_json : String → Option Value → Option Parts → String
  mixed_json raw found none = raw
  mixed_json raw found (some p) = concat (
      p.timestamp ∷ " " ∷ p.module_name ∷ ":" ∷ p.level ∷ " " ∷ p.msg ∷ dumped (data_of found) ∷ [])

  -- `LogLine.to_mixed_json_str`
  unfoldable pub to_mixed_json_str : LogLine → String
  to_mixed_json_str l = mixed_json l.raw_line l.json_data l.parts

-- The keyword arguments of `convert_log`.
pub record Style : Type 0 where
  pub as_list : Bool
  pub pure_json : Bool
  pub module_name : Option String

-- The variables of the loop, and what was printed to `out`.
pub record Converted : Type 0 where
  pub prev_lines : Option String
  pub result : List Fields
  pub printed : List String

abbrev pub output : Converted → List Fields × List String
output st = (st.result, st.printed)

module _ (reader : Reader) (style : Style) where
  abbrev pub is_wanted : Option String → LogLine → Result Bool
  is_wanted none l = ok true
  is_wanted (some m) l =
      if truthy m
      then (require attribute_error l.parts >>= λ p. ok (p.module_name == m))
      else ok true

  abbrev pub write_line : Bool → Bool → LogLine → Converted → Result Converted
  write_line true b l st =
      to_pure_json reader l >>= λ d. ok (record st { result = st.result ++ d ∷ [] })
  write_line false true l st =
      ok (record st { printed = st.printed ++ to_pure_json_str reader l ∷ [] })
  write_line false false l st =
      ok (record st { printed = st.printed ++ to_mixed_json_str reader l ∷ [] })

  abbrev pub write_if : Bool → LogLine → Converted → Result Converted
  write_if true l st = write_line style.as_list style.pure_json l st
  write_if false l st = ok st

  -- `if prev_lines`, with the text that is never empty
  abbrev pub flush_lines : Option String → Converted → Result Converted
  flush_lines none st = ok st
  flush_lines (some lines) st =
      let l = init_log_line reader lines in is_wanted style.module_name l >>= λ b. write_if b l st

  abbrev pub join_line : Option String → String → Converted → Result Converted
  join_line none l st = err assertion_error
  join_line (some lines) l st = ok (record st { prev_lines = some (concat (lines ∷ " " ∷ l ∷ [])) })

  -- One round of the loop, on a stripped line
  unfoldable pub convert_line : String → Converted → Result Converted
  unfolding init_log_line to_pure_json to_mixed_json_str
  convert_line l st =
      let next = flush_lines st.prev_lines st >>= λ s. ok (record s { prev_lines = some l }) in
      let joined = join_line st.prev_lines l st in
      if not (truthy l) then ok st else if is_match (reader.unstructured l) then next else joined

  unfoldable pub convert_lines : List String → Converted → Result Converted
  unfolding convert_line strip
  convert_lines [] st = flush_lines st.prev_lines st
  convert_lines (l ∷ ls) st = convert_line (strip l) st >>= convert_lines ls

  abbrev pub nothing_yet : Converted
  nothing_yet = record { prev_lines = none; result = []; printed = [] }

  -- `convert_log`, with what it prints to `out`; where it raises, what it printed before is left out.
  unfoldable pub convert_log : List String → Result (List Fields × List String)
  unfolding convert_lines
  convert_log ls = convert_lines ls nothing_yet >>= λ st. ok (output st)

-- The loop of `convert_all` over the logs that it found, by their directories
unfoldable pub convert_each :
    Reader → Bool → List (String × List String) → Dict (List Fields) → Result (Dict (List Fields))
convert_each reader pure [] result = ok result
convert_each reader pure ((f_id, ls) ∷ files) result = do
  out ← convert_log reader (record { as_list = true; pure_json = pure; module_name = none }) ls
  convert_each reader pure files (insert f_id out.0 result)
