-- ===== src/Vparams/Shown/Fields.antt =====
-- The fields of one entry: value_part and parse_field of src/modules/vparams.c on what varnishd
-- prints.
use vagent.Prelude.{
  ℕ, suc, ◌≡◌, ◌≢◌, refl, [], ◌∷◌, ◌++◌, true, false, Option, none, some, Str, text, ltb,
  if◌then◌else◌, starts_with, starts_with-append, drop, drop-append, length, cut_at-word,
  strchr-word, All, arith,
}
use vagent.Vparams.Parse.{
  ParamOpt, is_blank_char, skip_space, split_line, parse_value, parse_field, value_part, parse_name,
}
use vagent.Vparams.Parse.Value.{value_of-shown}
use vagent.Vparams.Parse.Description.{IsText, skip_space-indent}
use vagent.Vparams.Shown.{Shown, IsShown, IsField, field_text, value_line}

pub split_line-line :
    (v rest : Str)
    → All (λ b. b ≢ b'\n') v
    → split_line (v ++ b'\n' ∷ rest) ≡ some (v, b'\n' ∷ rest)
unfolding split_line
split_line-line v rest h = ground (arith, strchr-word b'\n' v rest h, cut_at-word b'\n' v rest h)

-- A field that is there, behind any text that starts with no blank.
field-some :
    (n c : ℕ) (prefix v rest : Str)
    → is_blank_char c ≡ false
    → All (λ b. b ≢ b'\n') v
    → parse_field (c ∷ prefix) (skip_space (field_text n (c ∷ prefix) (some v) rest))
      ≡ some (some v, skip_space rest)
unfolding parse_field field_text
field-some n c prefix v rest ink line =
    let shown = v ++ b'\n' ∷ rest in
    ground (
      arith,
      skip_space-indent n c (prefix ++ shown) ink,
      starts_with-append (c ∷ prefix) shown,
      drop-append (c ∷ prefix) shown,
      split_line-line v rest line,
    )

field-none :
    (prefix tmp : Str) → starts_with tmp prefix ≡ false → parse_field prefix tmp ≡ some (none, tmp)
unfolding parse_field
field-none prefix tmp h = ground (arith, h)

pub value-shown :
    (n : ℕ) (p : ParamOpt) (s : Shown) (rest : Str)
    → IsShown s
    → All (λ b. b ≢ b'\n') (value_line s)
    → value_part p (skip_space (field_text n (text "Value is: ") (some (value_line s)) rest))
      ≡ some (
        record p {
          value = some s.value;
          unit = s.unit;
          def = if (elim s.default [ none ↦ true | some d ↦ false ]) then some s.value else none;
        },
        skip_space rest,
      )
unfolding value_part field_text parse_value text starts_with
value-shown n p s rest h line =
    let shown = value_line s ++ b'\n' ∷ rest in
    let read =
      value_of-shown s.value s.unit (elim s.default [ none ↦ true | some d ↦ false ]) h.value_text
        h.unit_line in
    ground (
      arith,
      skip_space-indent n b'V' (drop 1 (text "Value is: ") ++ shown) refl,
      split_line-line (value_line s) rest line,
      read,
    )

skip_space-field :
    (n c : ℕ) (prefix v rest : Str)
    → is_blank_char c ≡ false
    → skip_space (field_text n (c ∷ prefix) (some v) rest) ≡ (c ∷ prefix) ++ (v ++ b'\n' ∷ rest)
unfolding field_text
skip_space-field n c prefix v rest ink = skip_space-indent n c (prefix ++ (v ++ b'\n' ∷ rest)) ink

module _ (n : ℕ) (t : Str) where
  abbrev pub max_text : Option Str → Str
  max_text m = field_text n (text "Maximum is: ") m (b'\n' ∷ t)

  abbrev pub min_text : Option Str → Option Str → Str
  min_text mi m = field_text n (text "Minimum is: ") mi (max_text m)

  pub max_part :
      (m : Option Str)
      → IsField m
      → parse_field (text "Maximum is: ") (skip_space (max_text m)) ≡ some (m, b'\n' ∷ t)
  unfolding text field_text skip_space starts_with
  max_part none h = field-none (text "Maximum is: ") (b'\n' ∷ t) refl
  max_part (some v) h = field-some n b'M' (drop 1 (text "Maximum is: ")) v (b'\n' ∷ t) refl h

  not_min : (m : Option Str) → starts_with (skip_space (max_text m)) (text "Minimum is: ") ≡ false
  unfolding text starts_with field_text skip_space
  not_min none = refl
  not_min (some v) =
      rw (skip_space-field n b'M' (drop 1 (text "Maximum is: ")) v (b'\n' ∷ t) refl) refl

  pub min_part :
      (mi m : Option Str)
      → IsField mi
      → parse_field (text "Minimum is: ") (skip_space (min_text mi m))
        ≡ some (mi, skip_space (max_text m))
  unfolding field_text text
  min_part none m h = field-none (text "Minimum is: ") (skip_space (max_text m)) (not_min m)
  min_part (some v) m h = field-some n b'M' (drop 1 (text "Minimum is: ")) v (max_text m) refl h

  not_default :
      (mi m : Option Str) → starts_with (skip_space (min_text mi m)) (text "Default is: ") ≡ false
  unfolding text starts_with field_text skip_space
  not_default none none = refl
  not_default none (some v) =
      rw (skip_space-field n b'M' (drop 1 (text "Maximum is: ")) v (b'\n' ∷ t) refl) refl
  not_default (some v) m =
      rw (skip_space-field n b'M' (drop 1 (text "Minimum is: ")) v (max_text m) refl) refl

  pub default_part :
      (d mi m : Option Str)
      → IsField d
      → parse_field
          (text "Default is: ")
          (skip_space (field_text n (text "Default is: ") d (min_text mi m)))
        ≡ some (d, skip_space (min_text mi m))
  unfolding field_text text
  default_part none mi m h =
      field-none (text "Default is: ") (skip_space (min_text mi m)) (not_default mi m)
  default_part (some v) mi m h =
      field-some n b'D' (drop 1 (text "Default is: ")) v (min_text mi m) refl h

pub field_text-pos :
    (k : ℕ) (prefix v rest : Str) → ltb 0 (length (field_text (suc k) prefix (some v) rest)) ≡ true
unfolding field_text
field_text-pos k prefix v rest = ground arith

pub parse_name-shown :
    (name rest : Str) → IsText name → parse_name (name ++ b'\n' ∷ rest) ≡ some (name, b'\n' ∷ rest)
unfolding parse_name
parse_name-shown [] rest h = absurd h
parse_name-shown (c ∷ s) rest h = ground (arith, h.0, split_line-line (c ∷ s) rest h.1)
