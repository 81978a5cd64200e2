-- ===== src/Vbackends/Separators.antt =====
-- When the list that vbackends_show_json of src/modules/vbackends.c writes has its commas right.
use vagent.Prelude.{
  zero, suc, ℕ, ◌+◌, ◌<◌, ◌≤◌, ◌≡◌, refl, List, [], ◌∷◌, ◌++◌, some, Str, text, length,
  length-append, All, IsWord, strtok-word, strtok-empty, arith,
}
use mathlib.Core.List.{append-nil}
use vagent.Vbackends.{format_line, lines_on, backend_entries, vbackends_show_json}

-- The lines of an answer, each with its newline.
abbrev pub answer_of : List Str → Str
answer_of [] = []
answer_of (l ∷ ls) = l ++ b'\n' ∷ answer_of ls

abbrev pub total : List Str → ℕ
total [] = 0
total (l ∷ ls) = length l + total ls

abbrev pub last_length : List Str → ℕ
last_length [] = 0
last_length (l ∷ []) = length l
last_length (l ∷ m ∷ ls) = last_length (m ∷ ls)

-- The objects with a comma and a newline between each two.
unfoldable pub separated : List Str → Str
separated [] = []
separated (l ∷ []) = format_line l
separated (l ∷ m ∷ ls) = (format_line l ++ text ",\n") ++ separated (m ∷ ls)

abbrev pub IsLine : Str → Type 0
IsLine l = IsWord b'\n' l × (length l < 1000)

last_length-total : (ls : List Str) → last_length ls ≤ total ls
last_length-total [] = omega arith
last_length-total (l ∷ []) = omega arith
last_length-total (l ∷ m ∷ ls) = omega (arith, last_length-total (m ∷ ls))

length-answer_of : (ls : List Str) → length (answer_of ls) ≡ total ls + length ls
length-answer_of [] = refl
length-answer_of (l ∷ ls) =
    omega (arith, length-append l (b'\n' ∷ answer_of ls), length-answer_of ls)

lines_on-answer_of :
    (fuel : ℕ) (ls : List Str)
    → All IsLine ls
    → length ls < fuel
    → lines_on fuel (answer_of ls) ≡ ls
unfolding lines_on
lines_on-answer_of zero ls h f = absurd (omega arith)
lines_on-answer_of (suc fuel) [] h f = ground (arith, strtok-empty b'\n')
lines_on-answer_of (suc fuel) (l ∷ ls) h f = ground (
  arith,
  strtok-word b'\n' 0 l (answer_of ls) h.0.0,
  lines_on-answer_of fuel ls h.1 (omega arith),
)

entries-separated :
    (raw_len sum cont : ℕ) (ls : List Str)
    → All IsLine ls
    → raw_len ≤ sum + total ls
    → sum + total ls < raw_len + last_length ls
    → backend_entries raw_len sum (suc cont) ls ≡ some (separated ls)
unfolding backend_entries separated
entries-separated raw_len sum cont [] h a b = refl
entries-separated raw_len sum cont (l ∷ []) h a b =
    ground (arith, append-nil (format_line l), append-nil (format_line l ++ []), h.0.1)
entries-separated raw_len sum cont (l ∷ m ∷ ls) h a b = ground (
  arith,
  entries-separated raw_len (sum + length l) (suc cont) (m ∷ ls) h.1 (omega arith) (omega arith),
  last_length-total (m ∷ ls),
  h.0.1,
)

first-entry :
    (raw_len : ℕ) (header : Str) (ls : List Str)
    → IsLine header
    → All IsLine ls
    → raw_len ≡ total (header ∷ ls) + length (header ∷ ls)
    → length ls < length header
    → length header ≤ length ls + last_length ls
    → backend_entries raw_len (length header) 0 (header ∷ ls) ≡ some (separated ls)
unfolding backend_entries
first-entry raw_len header ls hh h e a b = ground (
  arith,
  entries-separated raw_len (length header + length header) 0 ls h (omega arith) (omega arith),
  hh.1,
)

-- For an answer of a header and lines of backends, none of them empty and each shorter than the
-- buffer, the list holds the object of each backend, with a comma between each two and none at the
-- end, where the header is longer than the number of backends and at most as long as that number and
-- the length of the last line together.
pub vbackends_show_json_lem :
    (header : Str) (ls : List Str)
    → IsLine header
    → All IsLine ls
    → length ls < length header
    → length header ≤ length ls + last_length ls
    → vbackends_show_json (answer_of (header ∷ ls))
      ≡ some (text "{\n \"backends\" : [\n" ++ (separated ls ++ text "\n]\n}\n"))
unfolding vbackends_show_json
vbackends_show_json_lem header ls hh h a b =
    let raw = answer_of (header ∷ ls) in
    let size = length-answer_of (header ∷ ls) in
    ground (
      arith,
      lines_on-answer_of (suc (length raw)) (header ∷ ls) (hh, h) (omega (arith, size)),
      first-entry (length raw) header ls hh h size a b,
    )
