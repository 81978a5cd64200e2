-- ===== src/Vparams/EmptyValue.antt =====
-- What vparams_show_json of src/modules/vparams.c does with a parameter whose value is the empty
-- string, which varnishd prints as two quotes.
use vagent.Prelude.{
  ℕ, suc, ◌≡◌, refl, [], ◌∷◌, ◌++◌, Bool, none, some, Str, text, drop, starts_with, arith,
}
use vagent.Vparams.Parse.{
  ParamOpt, skip_space, value_part, parse_value, fill_entry, fresh_param, parse_entry,
  parse_entries,
}
use vagent.Vparams.Parse.Description.{IsText, skip_space-indent}
use vagent.Vparams.Parse.Value.{default_text, default_text-IsLine, value_of-empty}
use vagent.Vparams.Json.{vparams_show_json}
use vagent.Vparams.Shown.{field_text}
use vagent.Vparams.Shown.Fields.{split_line-line, parse_name-shown, field_text-pos}

abbrev pub empty_value : Bool → Str
empty_value d = b'"' ∷ b'"' ∷ default_text d

value_part-empty :
    (n : ℕ) (p : ParamOpt) (d : Bool) (rest : Str)
    → value_part p (skip_space (field_text n (text "Value is: ") (some (empty_value d)) rest))
      ≡ none
unfolding value_part field_text parse_value text starts_with
value_part-empty n p d rest =
    let shown = empty_value d ++ b'\n' ∷ rest in
    ground (
      arith,
      skip_space-indent n b'V' (drop 1 (text "Value is: ") ++ shown) refl,
      split_line-line (empty_value d) rest (omega arith, (omega arith, default_text-IsLine d)),
      value_of-empty d,
    )

parse_entry-empty :
    (k : ℕ) (name rest : Str) (d : Bool)
    → IsText name
    → parse_entry
        (name ++ b'\n' ∷ field_text (suc k) (text "Value is: ") (some (empty_value d)) rest)
      ≡ none
unfolding parse_entry fill_entry
parse_entry-empty k name rest d h = rw (parse_name-shown name _ h) (
    rw (field_text-pos k (text "Value is: ") (empty_value d) rest)
      (rw (value_part-empty (suc k) (fresh_param name) d rest) refl))

-- Where the first parameter of the output has the empty string as its value, default or not, an
-- assert of the parser fails, whatever follows.
pub vparams_show_json-empty :
    (k : ℕ) (name rest : Str) (d : Bool)
    → IsText name
    → vparams_show_json
        (name ++ b'\n' ∷ field_text (suc k) (text "Value is: ") (some (empty_value d)) rest)
      ≡ none
unfolding vparams_show_json parse_entries
vparams_show_json-empty k [] rest d h = absurd h
vparams_show_json-empty k (c ∷ s) rest d h =
    let failed = parse_entry-empty k (c ∷ s) rest d h in rw (failed, vparams_show_json) refl
