-- ===== src/Vparams/Parse.antt =====
-- The parser of "param.show -l" in src/modules/vparams.c. A position is the rest of the text. An
-- assert that fails, and a write behind the buffer, is `none`.
use vagent.Prelude.{
  ℕ, zero, suc, ◌+◌, ◌-◌, List, [], ◌∷◌, ◌++◌, Bool, true, false, not, ◌&&◌, ◌||◌, Option, none,
  some, Str, text, ltb, ◌==◌, if◌then◌else◌, is_some, strcmp_eq, starts_with, drop, length, cut_at,
  strchr,
}
use vagent.Prelude.Options.{◌>>=◌, ◌>>◌, require}
use vagent.Helpers.{last_is}
pub mod Value
pub mod Description

-- struct param_opt. A field that is still NULL is `none`.
pub record ParamOpt : Type 0 where
  pub name : Str
  pub value : Option Str
  pub unit : Option Str
  pub def : Option Str
  pub description : Str
  pub min : Option Str
  pub max : Option Str

-- isblank
abbrev pub is_blank_char : ℕ → Bool
is_blank_char c = (c == b' ') || (c == b'\t')

unfoldable pub skip_space : Str → Str
skip_space [] = []
skip_space (c ∷ s) = if is_blank_char c then skip_space s else c ∷ s

-- `eol = strchr(p, '\n')` behind an assert: the text before, and the position of the newline.
unfoldable pub split_line : Str → Option (Str × Str)
split_line s = elim (strchr b'\n' s) [ none ↦ none | some eol ↦ some (cut_at b'\n' s, eol) ]

-- The last `c` of a text: what stands before it, and the text from it on.
unfoldable pub split_last : ℕ → Str → Option (Str × Str)
split_last c [] = none
split_last c (b ∷ s) = elim (split_last c s) [
  | some (p, q) ↦ some (b ∷ p, q)
  | none ↦ if b == c then some ([], b ∷ s) else none
]

-- strbchr(b, s, c) on the text from `b` to `s`, behind the assert that what it returns is not the
-- first place.
unfoldable pub strbchr : ℕ → Str → Option (Str × Str)
strbchr c [] = none
strbchr c (b ∷ s) = elim (split_last c s) [ none ↦ none | some (p, q) ↦ some (b ∷ p, q) ]

-- `eov--`
unfoldable pub drop_last : Str → Str
drop_last [] = []
drop_last (c ∷ s) = elim s [ [] ↦ [] | d ∷ t ↦ c ∷ drop_last s ]

-- " (default)" at the end of the line: the rest of the line, and whether it was there.
unfoldable pub strip_default : Str → Option (Str × Bool)
strip_default line =
    if last_is b')' line
    then elim (strbchr b' ' line) [
      | none ↦ none
      | some (before, from) ↦
          if strcmp_eq from (text " (default)") then some (before, true) else some (line, false)
    ]
    else some (line, false)

-- " [unit]" at the end: the value before it, and the unit.
unfoldable pub strip_unit : Str → Option (Str × Option Str)
strip_unit line =
    if last_is b']' line
    then elim (strbchr b'[' line) [
      | none ↦ none
      | some (before, from) ↦
          if last_is b' ' before
          then some (drop_last before, some (drop_last (drop 1 from)))
          else none
    ]
    else some (line, none)

-- The quotes of a string, which has no unit; then `assert(eov >= w)`.
unfoldable pub strip_quotes : Str → Option Str → Option Str
strip_quotes [] unit = none
strip_quotes (c ∷ s) unit =
    if c == b'"'
    then (if last_is b'"' (c ∷ s) && (not (is_some unit) && ltb 1 (length s))
        then some (drop_last s)
        else none)
    else some (c ∷ s)

-- parse_value on the line behind "Value is: ".
unfoldable pub value_of : Str → Option (Str × (Option Str × Bool))
value_of line = do
  (rest, is_default) ← strip_default line
  (value, unit) ← strip_unit rest
  bare ← strip_quotes value unit
  some (bare, (unit, is_default))

unfoldable pub parse_value : ParamOpt → Str → Option (ParamOpt × Str)
parse_value p w = do
  (line, eol) ← split_line w
  (value, (unit, is_default)) ← value_of line
  some (
    record p { value = some value; unit = unit; def = if is_default then some value else none },
    eol,
  )

-- One use of PARSE_VALUE: the field, if the text starts with its name, and the position behind.
unfoldable pub parse_field : Str → Str → Option (Option Str × Str)
parse_field prefix tmp =
    if starts_with tmp prefix
    then (do
      (value, eol) ← split_line (drop (length prefix) tmp)
      some (some value, skip_space (drop 1 eol)))
    else some (none, tmp)

-- The loop of extract_description, with `len` bytes left in the buffer and `sep` before the next
-- line: the text it writes, and the position it returns.
unfoldable pub describe : ℕ → ℕ → Str → Str → Option (Str × Str)
describe zero len sep pos = none
describe (suc fuel) len sep [] = some ([], [])
describe (suc fuel) len sep (c ∷ rest) = elim (c == b'\n') [
  | false ↦ some ([], c ∷ rest)
  | true ↦ elim (starts_with rest (b'\n' ∷ b' ' ∷ [])) [
    | true ↦ do
      require (ltb 4 len)
      (out, after) ← describe fuel (len - 4) [] rest
      some (text "\\n\\n" ++ out, after)
    | false ↦ elim (starts_with rest (b'\n' ∷ [])) [
      | true ↦ some ([], drop 1 rest)
      | false ↦ do
        require (ltb 0 (length (cut_at b'\n' (skip_space rest))))
        require (ltb (length sep + length (cut_at b'\n' (skip_space rest))) len)
        (out, after) ←
            describe fuel (len - (length sep + length (cut_at b'\n' (skip_space rest)))) (b' ' ∷ [])
              (drop (length (cut_at b'\n' (skip_space rest))) (skip_space rest))
        some (sep ++ (cut_at b'\n' (skip_space rest) ++ out), after)
    ]
  ]
]

-- The first round returns before it writes anything.
unfoldable pub is_unwritten : Str → Bool
is_unwritten rest = starts_with rest (b'\n' ∷ []) && not (starts_with rest (b'\n' ∷ b' ' ∷ []))

-- extract_description into `char desc[2048]`, and the strdup of it. Where nothing was written, the
-- strdup reads the stack as it was found: that is undefined, and there is no result. A round of the
-- loop takes a byte or more.
unfoldable pub extract_description : Str → Option (Str × Str)
extract_description [] = none
extract_description (c ∷ s) =
    if c == b'\n'
    then (if is_unwritten s then none else describe (suc (suc (length s))) 2048 [] (c ∷ s))
    else none

-- `if (STARTS_WITH(tmp, "Value is: "))`
unfoldable pub value_part : ParamOpt → Str → Option (ParamOpt × Str)
value_part p tmp =
    if starts_with tmp (text "Value is: ")
    then (do (p', eol) ← parse_value p (drop 10 tmp); some (p', skip_space (drop 1 eol)))
    else some (p, tmp)

-- `assert(p->def == NULL)` stands before the default is set.
abbrev pub set_def : ParamOpt → Option Str → Option ParamOpt
set_def p none = some p
set_def p (some d) = elim p.def [ none ↦ some (record p { def = some d }) | some e ↦ none ]

unfoldable pub fill_entry : ParamOpt → Str → Option (ParamOpt × Str)
fill_entry p pos = do
  require (ltb 0 (length pos))
  (p₁, t₁) ← value_part p (skip_space pos)
  (def, t₂) ← parse_field (text "Default is: ") t₁
  p₂ ← set_def p₁ def
  (min, t₃) ← parse_field (text "Minimum is: ") t₂
  (max, t₄) ← parse_field (text "Maximum is: ") t₃
  (desc, rest) ← extract_description t₄
  some (record p₂ { min = min; max = max; description = desc }, rest)

-- parse_name: the line does not start with a blank.
unfoldable pub parse_name : Str → Option (Str × Str)
parse_name [] = none
parse_name (c ∷ s) = if is_blank_char c then none else split_line (c ∷ s)

abbrev pub fresh_param : Str → ParamOpt
fresh_param name = record {
  name = name;
  value = none;
  unit = none;
  def = none;
  description = [];
  min = none;
  max = none;
}

abbrev pub or_empty : Option Str → Option Str
or_empty none = some []
or_empty (some s) = some s

-- The empty strings for what is missing, and param_assert.
unfoldable pub complete : ParamOpt → Option ParamOpt
complete p = do
  require (is_some p.value && is_some p.def)
  some (record p { unit = or_empty p.unit; min = or_empty p.min; max = or_empty p.max })

unfoldable pub parse_entry : Str → Option (ParamOpt × Str)
parse_entry raw = do
  (name, eol) ← parse_name raw
  (p, rest) ← fill_entry (fresh_param name) (drop 1 eol)
  p' ← complete p
  some (p', rest)

-- The loop of vparams_show_json; `top` is the list so far, newest first.
unfoldable pub parse_entries : ℕ → Str → List ParamOpt → Option (List ParamOpt)
parse_entries zero raw top = none
parse_entries (suc fuel) [] top = some top
parse_entries (suc fuel) (c ∷ s) top = do
  (p, rest) ← parse_entry (c ∷ s)
  parse_entries fuel rest (p ∷ top)
