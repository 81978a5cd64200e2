-- ===== src/Vparams/RoundTrip.antt =====
-- vparams_show_json of src/modules/vparams.c reads back what varnishd prints.
use vagent.Vparams.Json.{show_params, vparams_show_json}
use mathlib.Core.List.{reverse, reverse_aux}
use vagent.Prelude.{
  length-append, ◌≤◌, All-map, All-append, ℕ, zero, suc, ◌<◌, ◌≡◌, ◌≢◌, refl, ◌∙◌, List, [], ◌∷◌,
  ◌++◌, map, Bool, true, false, Option, none, some, Str, text, if◌then◌else◌, replicate, length,
  All, arith,
}
use vagent.Vparams.Parse.{
  ParamOpt, is_blank_char, set_def, fill_entry, fresh_param, complete, parse_entry, parse_entries,
}
use vagent.Vparams.Parse.Value.{default_text-IsLine, unit_text, IsUnit}
use vagent.Vparams.Parse.Description.{
  IsText, NotIndented, tail_text, joined_lines, extract_description-shown,
}
use vagent.Vparams.Shown.{Shown, IsShown, field_text, value_line, show_entry, show_all, to_param}
use vagent.Vparams.Shown.Fields.{
  field_text-pos, parse_name-shown, value-shown, min_text, max_part, min_part, default_part,
}

unit_text-IsLine : (u : Option Str) → IsUnit u → All (λ b. b ≢ b'\n') (unit_text u)
unfolding unit_text
unit_text-IsLine none hu = tt
unit_text-IsLine (some u) hu = (
  omega arith,
  (omega arith, All-append _ u (b']' ∷ []) (All-map (λ b q. q.1) u hu) (omega arith)),
)

value_line-IsLine : (s : Shown) → IsShown s → All (λ b. b ≢ b'\n') (value_line s)
value_line-IsLine s h =
    All-append _ (s.value ++ unit_text s.unit) _
      (All-append _ s.value _ (All-map (λ b q. q.3) s.value h.value_text.1)
        (unit_text-IsLine s.unit h.unit_line))
      (default_text-IsLine (elim s.default [ none ↦ true | some d ↦ false ]))

-- What fill_entry leaves of the entry, before the empty strings.
abbrev filled : Shown → ParamOpt
filled s = record {
  name = s.name;
  value = some s.value;
  unit = s.unit;
  def = some (elim s.default [ none ↦ s.value | some d ↦ d ]);
  description = joined_lines [] s.lines;
  min = s.min;
  max = s.max;
}

abbrev after_value : Shown → ParamOpt
after_value s = record (fresh_param s.name) {
  value = some s.value;
  unit = s.unit;
  def = if (elim s.default [ none ↦ true | some d ↦ false ]) then some s.value else none;
}

set_def-shown :
    (s : Shown)
    → set_def (after_value s) s.default
      ≡ some
          (record (after_value s) { def = some (elim s.default [ none ↦ s.value | some d ↦ d ]) })
set_def-shown s = ground arith

fill_entry-shown :
    (k : ℕ) (s : Shown) (next : Str)
    → IsShown s
    → NotIndented next
    → fill_entry (fresh_param s.name) (
        field_text (suc k) (text "Value is: ") (some (value_line s)) (
          field_text (suc k) (text "Default is: ") s.default (
            field_text (suc k) (text "Minimum is: ") s.min (
              field_text
                (suc k)
                (text "Maximum is: ")
                s.max
                (b'\n' ∷ tail_text (suc k) s.lines next)))))
      ≡ some (filled s, next)
unfolding fill_entry
fill_entry-shown k s next h end =
    let t = tail_text (suc k) s.lines next in
    let rest =
      field_text (suc k) (text "Default is: ") s.default (min_text (suc k) t s.min s.max) in
    rw (field_text-pos k (text "Value is: ") (value_line s) rest) (
      rw (value-shown (suc k) (fresh_param s.name) s rest h (value_line-IsLine s h)) (
        rw (default_part (suc k) t s.default s.min s.max h.default_line) (
          rw (set_def-shown s) (
            rw (min_part (suc k) t s.min s.max h.min_line) (
              rw (max_part (suc k) t s.max h.max_line) (
                rw (extract_description-shown k s.lines next h.some_line h.lines_text end h.room)
                  refl))))))

complete-shown : (s : Shown) → complete (filled s) ≡ some (to_param s)
unfolding complete
complete-shown s = refl

parse_entry-shown :
    (k : ℕ) (s : Shown) (next : Str)
    → IsShown s
    → NotIndented next
    → parse_entry (show_entry (suc k) s next) ≡ some (to_param s, next)
unfolding parse_entry show_entry
parse_entry-shown k s next h end =
    rw (parse_name-shown s.name _ h.name_text)
      (rw (fill_entry-shown k s next h end) (rw (complete-shown s) refl))

entry_head :
    (n : ℕ) (s : Shown) (next : Str)
    → IsShown s
    → (c : ℕ) × (t : Str) × (show_entry n s next ≡ c ∷ t) × (is_blank_char c ≡ false)
unfolding show_entry
entry_head n s next h = first s.name _ h.name_text
  where
    first :
        (name rest : Str)
        → IsText name
        → (c : ℕ) × (t : Str) × (name ++ rest ≡ c ∷ t) × (is_blank_char c ≡ false)
    first [] rest h = absurd h
    first (c ∷ s) rest h = (c, s ++ rest, refl, h.0)

show_all-NotIndented : (n : ℕ) (ss : List Shown) → All IsShown ss → NotIndented (show_all n ss)
unfolding show_all
show_all-NotIndented n [] h = tt
show_all-NotIndented n (s ∷ ss) h =
    let (c, t, e, ink) = entry_head n s (show_all n ss) h.0 in rw e ink

parse_entries-step :
    (fuel c : ℕ) (t raw : Str) (top : List ParamOpt) (p : ParamOpt) (rest : Str)
    → raw ≡ c ∷ t
    → parse_entry raw ≡ some (p, rest)
    → parse_entries (suc fuel) raw top ≡ parse_entries fuel rest (p ∷ top)
unfolding parse_entries
parse_entries-step fuel c t raw top p rest e read = rw e (rw (rw e at read) refl)

-- The parameters that the agent reads from the output for any list of parameters, newest first.
parse_entries-shown :
    (fuel k : ℕ) (ss : List Shown) (top : List ParamOpt)
    → All IsShown ss
    → length ss < fuel
    → parse_entries fuel (show_all (suc k) ss) top ≡ some (reverse_aux (map to_param ss) top)
unfolding show_all
parse_entries-shown zero k ss top h f = absurd (omega arith)
parse_entries-shown (suc fuel) k [] top h f = unfold parse_entries in refl
parse_entries-shown (suc fuel) k (s ∷ ss) top h f =
    let (c, t, e, ink) = entry_head (suc k) s (show_all (suc k) ss) h.0 in
    let entry =
      parse_entry-shown k s (show_all (suc k) ss) h.0 (show_all-NotIndented (suc k) ss h.1) in
    parse_entries-step fuel c t _ top (to_param s) _ e entry
    ∙ parse_entries-shown fuel k ss (to_param s ∷ top) h.1 (omega arith)

length-field_text :
    (n : ℕ) (prefix : Str) (v : Option Str) (rest : Str)
    → length rest ≤ length (field_text n prefix v rest)
unfolding field_text
length-field_text n prefix none rest = omega arith
length-field_text n prefix (some v) rest = omega (
  arith,
  length-append (replicate n b' ') (prefix ++ (v ++ b'\n' ∷ rest)),
  length-append prefix (v ++ b'\n' ∷ rest),
  length-append v (b'\n' ∷ rest),
)

length-tail_text_next :
    (n : ℕ) (more : List (Bool × Str)) (next : Str) → length next < length (tail_text n more next)
unfolding tail_text
length-tail_text_next n [] next = omega arith
length-tail_text_next n ((true, l) ∷ more) next = omega (
  arith,
  length-append (replicate n b' ') (l ++ b'\n' ∷ tail_text n more next),
  length-append l (b'\n' ∷ tail_text n more next),
  length-tail_text_next n more next,
)
length-tail_text_next n ((false, l) ∷ more) next = omega (
  arith,
  length-append (replicate n b' ') (l ++ b'\n' ∷ tail_text n more next),
  length-append l (b'\n' ∷ tail_text n more next),
  length-tail_text_next n more next,
)

length-show_entry : (n : ℕ) (s : Shown) (next : Str) → length next < length (show_entry n s next)
unfolding show_entry
length-show_entry n s next =
    let end = b'\n' ∷ tail_text n s.lines next in
    let m = field_text n (text "Maximum is: ") s.max end in
    let mi = field_text n (text "Minimum is: ") s.min m in
    let d = field_text n (text "Default is: ") s.default mi in
    omega (
      arith,
      length-tail_text_next n s.lines next,
      length-field_text n (text "Maximum is: ") s.max end,
      length-field_text n (text "Minimum is: ") s.min m,
      length-field_text n (text "Default is: ") s.default mi,
      length-field_text n (text "Value is: ") (some (value_line s)) d,
      length-append s.name (b'\n' ∷ field_text n (text "Value is: ") (some (value_line s)) d),
    )

length-show_all : (n : ℕ) (ss : List Shown) → length ss ≤ length (show_all n ss)
unfolding show_all
length-show_all n [] = omega arith
length-show_all n (s ∷ ss) =
    omega (arith, length-show_entry n s (show_all n ss), length-show_all n ss)

-- From the output of "param.show -l" for a list of well-formed parameters, each with a line
-- of description at least, whatever the
-- indentation, vparams_show_json makes the objects of all of them, the last parameter first, each
-- with its value, unit, bounds, description, and the value as the default where no other is printed.
pub vparams_show_json-shown :
    (k : ℕ) (ss : List Shown)
    → All IsShown ss
    → vparams_show_json (show_all (suc k) ss)
      ≡ some (text "{\n" ++ (show_params (reverse (map to_param ss)) ++ text "\n}"))
unfolding vparams_show_json
vparams_show_json-shown k ss h =
    let read =
      parse_entries-shown (suc (length (show_all (suc k) ss))) k ss [] h
        (omega (arith, length-show_all (suc k) ss)) in
    rw (read, vparams_show_json) refl
