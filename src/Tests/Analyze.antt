-- ===== src/Tests/Analyze.antt =====
-- The log analyzer at a concrete log.
use xbridge_witness.Base.{
  String, none, some, [], ◌∷◌, ◌≡◌, refl, ok, err, ◌>>=◌, map_list, value_error, assertion_error,
  if◌then◌else◌,
}
use xbridge_witness.Base.Text.{strip, lstrip, rstrip, ends_with}
use xbridge_witness.Base.Words.{concat, has_prefix}
use xbridge_witness.Value.{field, end, str}
use xbridge_witness.Log.Analyze.{
  Reader, Parts, convert_log, convert_lines, convert_line, init_log_line, to_pure_json,
}
use xbridge_witness.Log.AnalyzeLaws.{
  Message, IsMessage, lines_of_messages, list_style, json_of_message, convert_log-messages,
}

abbrev parts : String → Parts
parts s = record { timestamp = "2022 UTC"; level = "NFO"; module_name = "App"; msg = s }

-- A line is a message if it starts with the mark.
abbrev reader : Reader
reader = record {
  structured = λ s. none;
  unstructured = λ s. if has_prefix "UTC" s then some (parts s) else none;
  loads = λ s. err (value_error "json");
  dumps = λ v. "{}";
}

abbrev first : Message
first = record { head = "UTC one\n"; more = " and more\n" ∷ [] }

abbrev second : Message
second = record { head = "UTC two\n"; more = [] }

first-IsMessage : IsMessage reader first
unfolding strip lstrip rstrip has_prefix
first-IsMessage = record {
  head_filled = refl;
  head_matches = refl;
  more_lines = ((refl, refl), tt);
}

second-IsMessage : IsMessage reader second
unfolding strip lstrip rstrip has_prefix
second-IsMessage = record { head_filled = refl; head_matches = refl; more_lines = tt }

convert_log-messages_example :
    (convert_log reader list_style (lines_of_messages (first ∷ second ∷ [])) >>= λ out. ok out.0)
    ≡ map_list (json_of_message reader) (first ∷ second ∷ [])
convert_log-messages_example =
    convert_log-messages reader (first ∷ second ∷ []) (first-IsMessage, (second-IsMessage, tt))

joined_test :
    json_of_message reader first
    ≡ ok (
        field "t" (str "2022 UTC") (
          field "m" (str "App") (field "l" (str "NFO") (field "msg" (str "UTC one and more") end))))
unfolding strip lstrip rstrip has_prefix init_log_line to_pure_json concat ends_with
joined_test = refl

orphan_test : convert_log reader list_style ("and more" ∷ []) ≡ err assertion_error
unfolding convert_log convert_lines convert_line strip lstrip rstrip has_prefix
orphan_test = refl
