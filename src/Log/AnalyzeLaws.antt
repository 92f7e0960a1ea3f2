-- ===== src/Log/AnalyzeLaws.antt =====
-- Which messages `convert_log` of bin/python/log_analyzer.py makes of a log.
use xbridge_witness.Base.{
  String, true, false, Option, none, some, List, [], ◌∷◌, ◌++◌, All, Result, ok, err, ◌>>=◌,
  assertion_error, map_list, Result-cases, inl, inr, ◌≡◌, refl, ap, ◌∙◌,
}
use mathlib.Core.List.{append_assoc}
use xbridge_witness.Base.Text.{truthy, strip}
use xbridge_witness.Base.Words.{concat}
use xbridge_witness.Value.{Fields}
use xbridge_witness.Log.Analyze.{
  Reader, is_match, init_log_line, to_pure_json, Style, Converted, convert_line, convert_lines,
  convert_log, nothing_yet, output,
}

-- A message as the log has it: a line that the pattern matches, and lines that it does not.
pub record Message : Type 0 where
  pub head : String
  pub more : List String

abbrev pub lines_of_message : Message → List String
lines_of_message m = m.head ∷ m.more

abbrev pub lines_of_messages : List Message → List String
lines_of_messages [] = []
lines_of_messages (m ∷ ms) = lines_of_message m ++ lines_of_messages ms

-- The stripped lines of a message, with a space between them.
abbrev pub joined_onto : String → List String → String
joined_onto s [] = s
joined_onto s (l ∷ ls) = joined_onto (concat (s ∷ " " ∷ strip l ∷ [])) ls

abbrev pub text_of_message : Message → String
text_of_message m = joined_onto (strip m.head) m.more

-- The list that is asked for, of all modules
abbrev pub list_style : Style
list_style = record { as_list = true; pure_json = true; module_name = none }

module _ (reader : Reader) where
  -- Every message starts with a line that the pattern matches, and goes on with others that are not blank.
  pub record IsMessage (m : Message) : Type 0 where
    pub head_filled : truthy (strip m.head) ≡ true
    pub head_matches : is_match (reader.unstructured (strip m.head)) ≡ true
    pub more_lines :
        All
          (λ l. (truthy (strip l) ≡ true) × (is_match (reader.unstructured (strip l)) ≡ false))
          m.more

  -- The JSON of a message
  abbrev pub json_of_message : Message → Result Fields
  json_of_message m = to_pure_json reader (init_log_line reader (text_of_message m))

  abbrev after : Option String → List Fields → Converted
  after lines result = record { prev_lines = lines; result = result; printed = [] }

  abbrev extend : List Fields → Result (List Fields) → Result (List Fields)
  extend done ds = ds >>= λ r. ok (done ++ r)

  more-joined :
      (s : String) (ls rest : List String) (done : List Fields)
      → All (λ l. (truthy (strip l) ≡ true) × (is_match (reader.unstructured (strip l)) ≡ false)) ls
      → convert_lines reader list_style (ls ++ rest) (after (some s) done)
        ≡ convert_lines reader list_style rest (after (some (joined_onto s ls)) done)
  unfolding convert_lines convert_line
  more-joined s [] rest done h = refl
  more-joined s (l ∷ ls) rest done h =
      rw (h.0.0, h.0.1) (more-joined (concat (s ∷ " " ∷ strip l ∷ [])) ls rest done h.1)

  abbrev result_of : Result Converted → Result (List Fields)
  result_of r = r >>= λ st. ok st.result

  -- What the messages give behind those that are done.
  abbrev behind : List Fields → Result Fields → Result (List Fields) → Result (List Fields)
  behind done d ds = d >>= λ a. ds >>= λ bs. ok (done ++ a ∷ bs)

  behind-behind :
      (done : List Fields) (d : Fields) (e : Result Fields) (ds : Result (List Fields))
      → behind (done ++ d ∷ []) e ds ≡ behind done (ok d) (e >>= λ a. ds >>= λ bs. ok (a ∷ bs))
  behind-behind done d (err x) ds = refl
  behind-behind done d (ok a) (err x) = refl
  behind-behind done d (ok a) (ok bs) = ap ok (append_assoc done (d ∷ []) (a ∷ bs))

  flush_last :
      (s : String) (done : List Fields)
      → result_of (convert_lines reader list_style [] (after (some s) done))
        ≡ behind done (to_pure_json reader (init_log_line reader s)) (ok [])
  unfolding convert_lines
  flush_last s done = elim (Result-cases (to_pure_json reader (init_log_line reader s))) [
    | inl (d, e) ↦ rw e refl
    | inr (x, e) ↦ rw e refl
  ]

  -- The head of the next message ends the last one.
  flush_head :
      (s l : String) (rest : List String) (done : List Fields)
      → truthy (strip l) ≡ true
      → is_match (reader.unstructured (strip l)) ≡ true
      → convert_lines reader list_style (l ∷ rest) (after (some s) done) ≡ (
          to_pure_json reader (init_log_line reader s) >>= λ d.
          convert_lines reader list_style rest (after (some (strip l)) (done ++ d ∷ [])))
  unfolding convert_lines convert_line
  flush_head s l rest done t p =
      elim (Result-cases (to_pure_json reader (init_log_line reader s))) [
        | inl (d, e) ↦ rw (t, p, e) refl
        | inr (x, e) ↦ rw (t, p, e) refl
      ]

  convert-behind :
      (ms : List Message) (s : String) (done : List Fields)
      → All IsMessage ms
      → result_of (convert_lines reader list_style (lines_of_messages ms) (after (some s) done))
        ≡ behind done (to_pure_json reader (init_log_line reader s)) (map_list json_of_message ms)
  convert-behind [] s done h = flush_last s done
  convert-behind (m ∷ ms) s done h =
      elim (Result-cases (to_pure_json reader (init_log_line reader s))) [
        | inl (d, e) ↦
            rw
              (
                flush_head s m.head (m.more ++ lines_of_messages ms) done h.0.head_filled
                    h.0.head_matches,
                e,
                more-joined (strip m.head) m.more (lines_of_messages ms) (done ++ d ∷ [])
                    h.0.more_lines,
              )
              (convert-behind ms (text_of_message m) (done ++ d ∷ []) h.1
                ∙ behind-behind done d (json_of_message m) (map_list json_of_message ms))
        | inr (x, e) ↦
            rw
              (
                flush_head s m.head (m.more ++ lines_of_messages ms) done h.0.head_filled
                    h.0.head_matches,
                e,
              )
              refl
      ]

  first_output :
      (r : Result Converted) → (r >>= (λ st. ok (output st)) >>= λ out. ok out.0) ≡ result_of r
  first_output (err e) = refl
  first_output (ok st) = refl

  first_head :
      (l : String) (rest : List String)
      → truthy (strip l) ≡ true
      → is_match (reader.unstructured (strip l)) ≡ true
      → convert_lines reader list_style (l ∷ rest) (nothing_yet reader list_style)
        ≡ convert_lines reader list_style rest (after (some (strip l)) [])
  unfolding convert_lines convert_line
  first_head l rest t p = rw (t, p) refl

  -- As a list and for all modules, the log of messages is converted to one JSON object for each message, in
  -- order, made of its lines, stripped and joined by a space; it raises exactly where one of them does.
  pub convert_log-messages :
      (ms : List Message)
      → All IsMessage ms
      → (convert_log reader list_style (lines_of_messages ms) >>= λ out. ok out.0)
        ≡ map_list json_of_message ms
  unfolding convert_log
  convert_log-messages [] h = unfold convert_lines in refl
  convert_log-messages (m ∷ ms) h =
      let rest = m.more ++ lines_of_messages ms in
      first_output (convert_lines reader list_style (m.head ∷ rest) (nothing_yet reader list_style))
      ∙ rw
          (
            first_head m.head rest h.0.head_filled h.0.head_matches,
            more-joined (strip m.head) m.more (lines_of_messages ms) [] h.0.more_lines,
          )
          (convert-behind ms (text_of_message m) [] h.1)

  -- A log whose first line that is not blank is no message raises.
  convert_log-orphan :
      (style : Style) (l : String) (ls : List String)
      → truthy (strip l) ≡ true
      → is_match (reader.unstructured (strip l)) ≡ false
      → convert_log reader style (l ∷ ls) ≡ err assertion_error
  unfolding convert_log convert_lines convert_line
  convert_log-orphan style l ls t p = rw (t, p) refl
