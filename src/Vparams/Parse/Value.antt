-- ===== src/Vparams/Parse/Value.antt =====
-- The value line of a parameter: value_of against what varnishd prints.
use vagent.Prelude.{
  All-append, All-map, ℕ, ◌≡◌, ◌≢◌, refl, sym, ap, ◌∙◌, [], ◌∷◌, ◌++◌, Bool, true, false, Option,
  none, some, Str, text, ◌==◌, strcmp_eq_refl, All, arith,
}
use mathlib.Core.List.{append-nil, append_assoc}
use vagent.Helpers.{last_is}
use vagent.Vparams.Parse.{
  split_last, strbchr, drop_last, strip_default, strip_unit, strip_quotes, value_of,
}

last_is-append : (c y : ℕ) (xs : Str) → last_is c (xs ++ y ∷ []) ≡ (y == c)
unfolding last_is
last_is-append c y [] = refl
last_is-append c y (x ∷ []) = refl
last_is-append c y (x ∷ z ∷ xs) = last_is-append c y (z ∷ xs)

last_is-tail : (c y : ℕ) (xs ys : Str) → last_is c (xs ++ y ∷ ys) ≡ last_is c (y ∷ ys)
unfolding last_is
last_is-tail c y [] ys = refl
last_is-tail c y (x ∷ []) ys = refl
last_is-tail c y (x ∷ z ∷ xs) ys = last_is-tail c y (z ∷ xs) ys

last_is-absent : (c : ℕ) (xs : Str) → All (λ b. b ≢ c) xs → last_is c xs ≡ false
unfolding last_is
last_is-absent c [] h = refl
last_is-absent c (x ∷ []) h = ground arith
last_is-absent c (x ∷ z ∷ xs) h = last_is-absent c (z ∷ xs) h.1

split_last-absent : (c : ℕ) (xs : Str) → All (λ b. b ≢ c) xs → split_last c xs ≡ none
unfolding split_last
split_last-absent c [] h = refl
split_last-absent c (x ∷ xs) h = ground (arith, split_last-absent c xs h.1)

split_last-append :
    (c : ℕ) (xs ys : Str) → All (λ b. b ≢ c) ys → split_last c (xs ++ c ∷ ys) ≡ some (xs, c ∷ ys)
unfolding split_last
split_last-append c [] ys h = ground (arith, split_last-absent c ys h)
split_last-append c (x ∷ xs) ys h = ground (arith, split_last-append c xs ys h)

strbchr-append :
    (c : ℕ) (xs ys : Str)
    → xs ≢ []
    → All (λ b. b ≢ c) ys
    → strbchr c (xs ++ c ∷ ys) ≡ some (xs, c ∷ ys)
unfolding strbchr
strbchr-append c [] ys ne h = absurd (ne refl)
strbchr-append c (x ∷ xs) ys ne h = ground (arith, split_last-append c xs ys h)

append-cons : (xs : Str) (y : ℕ) (ys : Str) → xs ++ y ∷ ys ≢ []
append-cons [] y ys = ground arith
append-cons (x ∷ xs) y ys = ground arith

drop_last-append : (xs : Str) (y : ℕ) → drop_last (xs ++ y ∷ []) ≡ xs
unfolding drop_last
drop_last-append [] y = refl
drop_last-append (x ∷ []) y = refl
drop_last-append (x ∷ z ∷ xs) y = ap (λ l. x ∷ l) (drop_last-append (z ∷ xs) y)

-- What varnishd prints behind the value.
unfoldable pub unit_text : Option Str → Str
unit_text none = []
unit_text (some u) = b' ' ∷ b'[' ∷ (u ++ b']' ∷ [])

unfoldable pub default_text : Bool → Str
default_text false = []
default_text true = text " (default)"

-- A value with none of the characters that the parser looks for at its ends.
abbrev pub IsValue : Str → Type 0
IsValue v = (v ≢ []) × All (λ b. (b ≢ b')') × (b ≢ b']') × (b ≢ b'"') × (b ≢ b'\n')) v

abbrev pub IsUnit : Option Str → Type 0
IsUnit none = Unit
IsUnit (some u) = All (λ b. (b ≢ b'[') × (b ≢ b'\n')) u

default_tail : All (λ b. b ≢ b' ') (text "(default)")
unfolding text
default_tail = omega arith

ends_default : last_is b')' (text " (default)") ≡ true
unfolding last_is text
ends_default = refl

-- Stripping the default from any line with something in it.
strip_default-shown :
    (line : Str) (d : Bool)
    → line ≢ []
    → last_is b')' line ≡ false
    → strip_default (line ++ default_text d) ≡ some (line, d)
unfolding strip_default default_text
strip_default-shown line false ne h = rw append-nil (rw (h, strip_default) refl)
strip_default-shown line true ne h =
    let ends : last_is b')' (line ++ text " (default)") ≡ true =
      unfold text in last_is-tail b')' b' ' line _ ∙ (unfold last_is in refl) in
    let split : strbchr b' ' (line ++ text " (default)") ≡ some (line, text " (default)") =
      unfold text in strbchr-append b' ' line _ ne (unfold text in default_tail) in
    ground (arith, ends, split, strcmp_eq_refl (text " (default)"))

strip_unit-shown :
    (v : Str) (u : Option Str) → IsValue v → IsUnit u → strip_unit (v ++ unit_text u) ≡ some (v, u)
unfolding strip_unit unit_text
strip_unit-shown v none hv hu =
    let no_bracket = last_is-absent b']' v (All-map (λ b h. h.1) v hv.1) in
    ground (arith, append-nil v, no_bracket)
strip_unit-shown v (some u) hv hu =
    let line = v ++ b' ' ∷ b'[' ∷ (u ++ b']' ∷ []) in
    let same : line ≡ (v ++ b' ' ∷ []) ++ b'[' ∷ (u ++ b']' ∷ []) =
      sym (append_assoc v (b' ' ∷ []) (b'[' ∷ (u ++ b']' ∷ []))) in
    let inner =
      All-append (λ b. b ≢ b'[') u (b']' ∷ []) (All-map (λ b h. h.0) u hu) (omega arith) in
    let split =
      strbchr-append b'[' (v ++ b' ' ∷ []) (u ++ b']' ∷ []) (append-cons v b' ' []) inner in
    ground (
      arith,
      same,
      split,
      last_is-append b']' b']' ((v ++ b' ' ∷ []) ++ b'[' ∷ u),
      append_assoc (v ++ b' ' ∷ []) (b'[' ∷ u) (b']' ∷ []),
      last_is-append b' ' b' ' v,
      drop_last-append v b' ',
      drop_last-append u b']',
    )

no_paren :
    (v : Str) (u : Option Str)
    → IsValue v
    → (v ++ unit_text u ≢ []) × (last_is b')' (v ++ unit_text u) ≡ false)
unfolding unit_text
no_paren v none hv = rw append-nil (hv.0, last_is-absent b')' v (All-map (λ b h. h.0) v hv.1))
no_paren v (some u) hv = (
  append-cons v b' ' (b'[' ∷ (u ++ b']' ∷ [])),
  ground (
    arith,
    last_is-append b')' b']' (v ++ b' ' ∷ b'[' ∷ u),
    append_assoc v (b' ' ∷ b'[' ∷ u) (b']' ∷ []),
  ),
)

strip_quotes-shown : (v : Str) (u : Option Str) → IsValue v → strip_quotes v u ≡ some v
unfolding strip_quotes
strip_quotes-shown [] u hv = absurd (hv.0 refl)
strip_quotes-shown (c ∷ s) u hv = ground (arith, hv.1.0)

-- The line that varnishd prints for a value, with its unit and the mark of the default, is read back.
pub value_of-shown :
    (v : Str) (u : Option Str) (d : Bool)
    → IsValue v
    → IsUnit u
    → value_of ((v ++ unit_text u) ++ default_text d) ≡ some (v, (u, d))
unfolding value_of
value_of-shown v u d hv hu =
    let plain = no_paren v u hv in
    rw (strip_default-shown (v ++ unit_text u) d plain.0 plain.1, value_of)
      (rw (strip_unit-shown v u hv hu) (rw (strip_quotes-shown v u hv) refl))

-- A value printed as the empty string, with quotes and nothing between them, is not read: `eov` is
-- before `w`, and the assert fails.
pub value_of-empty : (d : Bool) → value_of (b'"' ∷ b'"' ∷ default_text d) ≡ none
unfolding value_of strip_unit strip_quotes last_is
value_of-empty d =
    let quotes : Str = b'"' ∷ b'"' ∷ [] in
    let stripped : strip_default (quotes ++ default_text d) ≡ some (quotes, d) =
      strip_default-shown quotes d (ground arith) refl in
    rw (stripped, value_of) refl

pub default_text-IsLine : (d : Bool) → All (λ b. b ≢ b'\n') (default_text d)
unfolding default_text text
default_text-IsLine true = omega arith
default_text-IsLine false = tt
