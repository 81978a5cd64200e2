-- ===== src/Vparams/Parse/Description.antt =====
-- The description of a parameter: extract_description against the indented lines of varnishd.
use vagent.Prelude.{
  ◌≤◌, ℕ, zero, suc, ◌+◌, ◌-◌, ◌*◌, ◌≡◌, ◌≢◌, ◌<◌, refl, List, [], ◌∷◌, ◌++◌, Bool, true, false,
  some, Str, text, if◌then◌else◌, starts_with, replicate, drop-append, length, length-append,
  cut_at-word, All, arith,
}
use vagent.Prelude.Options.{◌>>=◌}
use vagent.Vparams.Parse.{is_blank_char, skip_space, describe, is_unwritten, extract_description}

-- A line of text: not empty, no blank at its start, no newline.
abbrev pub IsText : Str → Type 0
IsText [] = ⊥
IsText (c ∷ s) = (is_blank_char c ≡ false) × All (λ b. b ≢ b'\n') (c ∷ s)

-- The lines behind a newline, each indented; the mark stands for an empty line before. An empty
-- line ends them.
unfoldable pub tail_text : ℕ → List (Bool × Str) → Str → Str
tail_text n [] next = b'\n' ∷ next
tail_text n ((brk, l) ∷ more) next =
    let line : Str = replicate n b' ' ++ (l ++ b'\n' ∷ tail_text n more next) in
    if brk then b'\n' ∷ line else line

-- What the agent makes of the lines: a space between two of them, an escaped empty line at a mark.
unfoldable pub joined_lines : Str → List (Bool × Str) → Str
joined_lines sep [] = []
joined_lines sep ((brk, l) ∷ more) =
    (if brk then text "\\n\\n" else sep) ++ (l ++ joined_lines (b' ' ∷ []) more)

-- What follows is the name of the next parameter, or nothing.
abbrev pub NotIndented : Str → Type 0
NotIndented [] = Unit
NotIndented (c ∷ s) = is_blank_char c ≡ false

pub skip_space-indent :
    (n c : ℕ) (s : Str) → is_blank_char c ≡ false → skip_space (replicate n b' ' ++ (c ∷ s)) ≡ c ∷ s
unfolding skip_space
skip_space-indent zero c s h = ground (arith, h)
skip_space-indent (suc n) c s h = skip_space-indent n c s h

describe-line :
    (f len k : ℕ) (sep l after : Str)
    → IsText l
    → length sep + length l < len
    → describe (suc f) len sep (b'\n' ∷ (replicate (suc k) b' ' ++ (l ++ b'\n' ∷ after))) ≡ (
        describe f (len - (length sep + length l)) (b' ' ∷ []) (b'\n' ∷ after) >>= λ r.
        some (sep ++ (l ++ r.0), r.1))
unfolding describe starts_with
describe-line f len k sep [] after h room = absurd h
describe-line f len k sep (c ∷ s) after h room =
    let skipped = skip_space-indent (suc k) c (s ++ b'\n' ∷ after) h.0 in
    let word = cut_at-word b'\n' (c ∷ s) after h.1 in
    let rest = drop-append (c ∷ s) (b'\n' ∷ after) in ground (arith, skipped, word, rest)

describe-break :
    (f len : ℕ) (sep s : Str)
    → 4 < len
    → describe (suc f) len sep (b'\n' ∷ b'\n' ∷ b' ' ∷ s)
      ≡ (describe f (len - 4) [] (b'\n' ∷ b' ' ∷ s) >>= λ r. some (text "\\n\\n" ++ r.0, r.1))
unfolding describe starts_with
describe-break f len sep s room = ground arith

describe-end :
    (f len : ℕ) (sep next : Str)
    → NotIndented next
    → describe (suc f) len sep (b'\n' ∷ b'\n' ∷ next) ≡ some ([], next)
unfolding describe starts_with
describe-end f len sep [] h = refl
describe-end f len sep (c ∷ s) h = ground arith

break_length : length (text "\\n\\n") ≡ 4
unfolding text
break_length = refl

-- With room for what it writes, and rounds enough, the loop reads the lines up to the empty line.
describe-tail :
    (f len k : ℕ) (sep : Str) (more : List (Bool × Str)) (next : Str)
    → All (λ p. IsText p.1) more
    → NotIndented next
    → length (joined_lines sep more) < len
    → 2 * length more < f
    → describe f len sep (b'\n' ∷ tail_text (suc k) more next) ≡ some (joined_lines sep more, next)
unfolding tail_text joined_lines
describe-tail zero len k sep more next lines end room fuel = absurd (omega arith)
describe-tail (suc f) len k sep [] next lines end room fuel = describe-end f len sep next end
describe-tail (suc f) len k sep ((false, l) ∷ more) next lines end room fuel =
    let size = length-append sep (l ++ joined_lines (b' ' ∷ []) more) in
    let size' = length-append l (joined_lines (b' ' ∷ []) more) in
    let first =
      describe-line f len k sep l (tail_text (suc k) more next) lines.0
        (omega (arith, size, size')) in
    let rest =
      describe-tail f (len - (length sep + length l)) k (b' ' ∷ []) more next lines.1 end
        (omega (arith, size, size')) (omega arith) in
    ground (arith, first, rest)
describe-tail (suc zero) len k sep ((true, l) ∷ more) next lines end room fuel =
    absurd (omega arith)
describe-tail (suc (suc f)) len k sep ((true, l) ∷ more) next lines end room fuel =
    let size = length-append (text "\\n\\n") (l ++ joined_lines (b' ' ∷ []) more) in
    let size' = length-append l (joined_lines (b' ' ∷ []) more) in
    let gap =
      describe-break (suc f) len sep
        (replicate k b' ' ++ (l ++ b'\n' ∷ tail_text (suc k) more next))
        (omega (arith, size, break_length)) in
    let first =
      describe-line f (len - 4) k [] l (tail_text (suc k) more next) lines.0
        (omega (arith, size, size', break_length)) in
    let rest =
      describe-tail f (len - 4 - length l) k (b' ' ∷ []) more next lines.1 end
        (omega (arith, size, size', break_length)) (omega arith) in
    ground (arith, gap, first, rest)

length-tail_text :
    (k : ℕ) (more : List (Bool × Str)) (next : Str)
    → 2 * length more ≤ length (tail_text (suc k) more next)
unfolding tail_text
length-tail_text k [] next = omega arith
length-tail_text k ((false, l) ∷ more) next =
    let line = l ++ b'\n' ∷ tail_text (suc k) more next in
    omega (
      arith,
      length-append (replicate k b' ') line,
      length-append l (b'\n' ∷ tail_text (suc k) more next),
      length-tail_text k more next,
    )
length-tail_text k ((true, l) ∷ more) next =
    let line = l ++ b'\n' ∷ tail_text (suc k) more next in
    omega (
      arith,
      length-append (replicate k b' ') line,
      length-append l (b'\n' ∷ tail_text (suc k) more next),
      length-tail_text k more next,
    )

tail_text-written :
    (k : ℕ) (lines : List (Bool × Str)) (next : Str)
    → lines ≢ []
    → is_unwritten (tail_text (suc k) lines next) ≡ false
unfolding is_unwritten tail_text starts_with
tail_text-written k [] next some_line = absurd (some_line refl)
tail_text-written k ((false, l) ∷ more) next some_line = refl
tail_text-written k ((true, l) ∷ more) next some_line = refl

pub extract_description-shown :
    (k : ℕ) (lines : List (Bool × Str)) (next : Str)
    → lines ≢ []
    → All (λ p. IsText p.1) lines
    → NotIndented next
    → length (joined_lines [] lines) < 2048
    → extract_description (b'\n' ∷ tail_text (suc k) lines next)
      ≡ some (joined_lines [] lines, next)
unfolding extract_description
extract_description-shown k lines next some_line text end room =
    rw (tail_text-written k lines next some_line) (
      describe-tail (suc (suc (length (tail_text (suc k) lines next)))) 2048 k [] lines next text
        end room (omega (arith, length-tail_text k lines next)))
