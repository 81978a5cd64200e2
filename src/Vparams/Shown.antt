-- ===== src/Vparams/Shown.antt =====
-- The output of "param.show -l", as the comment of vparams_show_json in src/modules/vparams.c
-- describes it, and the parameter that the agent is to make of each entry.
pub mod Fields
use mathlib.Core.List.{reverse, reverse_aux}
use vagent.Prelude.{
  length-append, ◌≤◌, All-map, All-append, ℕ, zero, suc, ◌+◌, ◌<◌, ◌≡◌, ◌≢◌, refl, sym, ap, ◌∙◌,
  List, [], ◌∷◌, ◌++◌, map, Bool, true, false, Option, none, some, Str, text, ltb, ◌==◌,
  if◌then◌else◌, is_some, starts_with, starts_with-append, replicate, drop, drop-append, length,
  cut_at, cut_at-word, strchr, strchr-word, All, arith,
}
use vagent.Prelude.Options.{◌>>=◌, ◌>>◌, require}
use vagent.Vparams.Parse.{
  ParamOpt, is_blank_char, skip_space, split_line, parse_value, parse_field, value_part, set_def,
  fill_entry, parse_name, fresh_param, or_empty, complete, parse_entry, parse_entries, value_of,
  extract_description,
}
use vagent.Vparams.Parse.Value.{unit_text, default_text, IsValue, IsUnit, value_of-shown}
use vagent.Vparams.Parse.Description.{
  IsText, NotIndented, tail_text, joined_lines, skip_space-indent, extract_description-shown,
}

-- A parameter as varnishd knows it. Where `default` is missing, the value is the default.
pub record Shown : Type 0 where
  pub name : Str
  pub value : Str
  pub unit : Option Str
  pub default : Option Str
  pub min : Option Str
  pub max : Option Str
  pub lines : List (Bool × Str)

unfoldable pub field_text : ℕ → Str → Option Str → Str → Str
field_text n prefix none rest = rest
field_text n prefix (some v) rest = replicate n b' ' ++ (prefix ++ (v ++ b'\n' ∷ rest))

abbrev pub value_line : Shown → Str
value_line s =
    (s.value ++ unit_text s.unit) ++ default_text (elim s.default [ none ↦ true | some d ↦ false ])

unfoldable pub show_entry : ℕ → Shown → Str → Str
show_entry n s next =
    s.name
    ++ b'\n'
      ∷ (field_text n (text "Value is: ") (some (value_line s)) (
          field_text n (text "Default is: ") s.default (
            field_text n (text "Minimum is: ") s.min
              (field_text n (text "Maximum is: ") s.max (b'\n' ∷ tail_text n s.lines next)))))

unfoldable pub show_all : ℕ → List Shown → Str
show_all n [] = []
show_all n (s ∷ ss) = show_entry n s (show_all n ss)

abbrev pub to_param : Shown → ParamOpt
to_param s = record {
  name = s.name;
  value = some s.value;
  unit = or_empty s.unit;
  def = some (elim s.default [ none ↦ s.value | some d ↦ d ]);
  description = joined_lines [] s.lines;
  min = or_empty s.min;
  max = or_empty s.max;
}

abbrev pub IsField : Option Str → Type 0
IsField none = Unit
IsField (some v) = All (λ b. b ≢ b'\n') v

pub record IsShown (s : Shown) : Type 0 where
  pub name_text : IsText s.name
  pub value_text : IsValue s.value
  pub unit_line : IsUnit s.unit
  pub default_line : IsField s.default
  pub min_line : IsField s.min
  pub max_line : IsField s.max
  pub some_line : s.lines ≢ []
  pub lines_text : All (λ p. IsText p.1) s.lines
  pub room : length (joined_lines [] s.lines) < 2048
