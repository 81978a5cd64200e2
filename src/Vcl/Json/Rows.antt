-- ===== src/Vcl/Json/Rows.antt =====
-- vcl_list_json of src/modules/vcl.c on the rows of "vcl.list".
use mathlib.Core.List.{append_assoc, append-nil}
use vagent.Prelude.{
  ℕ, zero, suc, ◌<◌, ◌≤◌, ◌≡◌, ◌≢◌, refl, sym, ap, ◌∙◌, List, [], ◌∷◌, ◌++◌, true, false, none,
  some, Str, text, ◌==◌, replicate, length, length-append, drop, drop-append, strchr, strchr-word,
  All, All-map, All-append, arith,
}
use mathlib.Core.Path.{subst}
use vagent.Ipc.{is_space}
use vagent.Vcl.Json.{VclList, no_fields, has_refs, scan_vcl, show_vcl, list_entries, vcl_list_json}
use vagent.Vcl.Json.Columns.{IsColumn, row, columns, scan_vcl-row}

-- A VCL of the list, with the blanks in front of its state and of its references. The references
-- are digits and a last one.
pub record Row : Type 0 where
  pub k : ℕ
  pub j : ℕ
  pub available : Str
  pub state : Str
  pub temp : Str
  pub refs : Str
  pub digit : ℕ
  pub name : Str

abbrev pub row_text : Row → Str → Str
row_text r rest = row r.k r.j r.available r.state r.temp (r.refs ++ r.digit ∷ []) r.name rest

-- What stands in front of the last digit.
abbrev front : Row → Str
front r =
    r.available
    ++ (replicate (suc r.k) b' '
        ++ (r.state ++ b'/' ∷ (r.temp ++ (replicate (suc r.j) b' ' ++ r.refs))))

-- The columns fit the widths, and the last digit of the references is the byte at index 30.
pub record IsRow (r : Row) : Type 0 where
  pub available_column : IsColumn r.available
  pub available_fits : length r.available ≤ 10
  pub state_column : IsColumn r.state
  pub state_fits : length r.state ≡ 4
  pub temp_column : IsColumn r.temp
  pub temp_fits : length r.temp ≤ 4
  pub refs_column : IsColumn (r.refs ++ r.digit ∷ [])
  pub refs_fit : length (r.refs ++ r.digit ∷ []) ≤ 6
  pub digit_shown : (r.digit == b' ') ≡ false
  pub name_column : IsColumn r.name
  pub name_fits : length r.name < 1024
  pub aligned :
      length (
        r.available
        ++ (replicate (suc r.k) b' '
            ++ (r.state ++ b'/' ∷ (r.temp ++ (replicate (suc r.j) b' ' ++ r.refs)))))
      ≡ 30

split_row :
    (r : Row) (rest : Str)
    → row_text r rest ≡ front r ++ (r.digit ∷ b' ' ∷ (r.name ++ b'\n' ∷ rest))
split_row r rest = simp append_assoc

has_refs-at :
    (p s : Str) (d : ℕ) → length p ≡ 30 → (d == b' ') ≡ false → has_refs (p ++ d ∷ s) ≡ some true
unfolding has_refs
has_refs-at p s d e n =
    let behind = subst (λ k. drop k (p ++ d ∷ s) ≡ d ∷ s) e (drop-append p (d ∷ s)) in
    let long : 30 ≤ length (p ++ d ∷ s) = omega (arith, length-append p (d ∷ s), e) in
    ground (arith, behind, long)

has_refs-row : (r : Row) (rest : Str) → IsRow r → has_refs (row_text r rest) ≡ some true
has_refs-row r rest h =
    subst (λ l. has_refs l ≡ some true) (sym (split_row r rest))
      (has_refs-at (front r) (b' ' ∷ (r.name ++ b'\n' ∷ rest)) r.digit h.aligned h.digit_shown)

-- The row without its end of line.
abbrev line : Row → Str
line r =
    r.available
    ++ (replicate (suc r.k) b' '
        ++ (r.state
            ++ b'/'
              ∷ (r.temp
                  ++ (replicate (suc r.j) b' ' ++ ((r.refs ++ r.digit ∷ []) ++ b' ' ∷ r.name)))))

line_row : (r : Row) (rest : Str) → row_text r rest ≡ line r ++ b'\n' ∷ rest
line_row r rest = simp append_assoc

abbrev OneLine : Str → Type 0
OneLine s = All (λ b. b ≢ b'\n') s

not_newline : (b : ℕ) → is_space b ≡ false → b ≢ b'\n'
unfolding is_space
not_newline b e = ground arith

column_line : (w : Str) → IsColumn w → OneLine w
column_line [] h = absurd h
column_line (c ∷ w) h = All-map not_newline (c ∷ w) h

blanks_line : (n : ℕ) → OneLine (replicate n b' ')
blanks_line zero = tt
blanks_line (suc n) = (ground arith, blanks_line n)

join : (xs ys : Str) → OneLine xs → OneLine ys → OneLine (xs ++ ys)
join xs ys = All-append (λ b. b ≢ b'\n') xs ys

line-OneLine : (r : Row) → IsRow r → OneLine (line r)
line-OneLine r h = join r.available _ (column_line r.available h.available_column) (
    join (replicate (suc r.k) b' ') _ (blanks_line (suc r.k)) (
      join r.state _ (column_line r.state h.state_column) (
        ground arith,
        join r.temp _ (column_line r.temp h.temp_column) (
            join (replicate (suc r.j) b' ') _ (blanks_line (suc r.j)) (
              join (r.refs ++ r.digit ∷ []) _ (column_line _ h.refs_column)
                (ground arith, column_line r.name h.name_column))),
      )))

strchr-row : (r : Row) (rest : Str) → IsRow r → strchr b'\n' (row_text r rest) ≡ some (b'\n' ∷ rest)
strchr-row r rest h =
    subst (λ l. strchr b'\n' l ≡ some (b'\n' ∷ rest)) (sym (line_row r rest))
      (strchr-word b'\n' (line r) rest (line-OneLine r h))

-- The text of the list, and the object of each VCL.
abbrev pub list_text : List Row → Str
list_text [] = []
list_text (r ∷ rs) = row_text r (list_text rs)

abbrev pub object : Str → Row → Str
object sep r = elim (show_vcl sep (columns r.available r.state r.temp r.name)) [
  | none ↦ []
  | some s ↦ s
]

abbrev pub objects : Str → List Row → Str
objects sep [] = []
objects sep (r ∷ rs) = object sep r ++ objects (text ",") rs

module _ (fuel : ℕ) (pos : Str) (tmp tmp' : VclList) (sep out o : Str)
    (refs : has_refs pos ≡ some true) (scanned : scan_vcl true pos tmp ≡ some (some tmp'))
    (shown : show_vcl sep tmp' ≡ some o) where
  step_last :
      strchr b'\n' pos ≡ some (b'\n' ∷ [])
      → list_entries (suc fuel) pos tmp sep out ≡ some (some (out ++ o))
  unfolding list_entries
  step_last e = ground arith

  step_more :
      (c : ℕ) (s : Str)
      → strchr b'\n' pos ≡ some (b'\n' ∷ c ∷ s)
      → (c == b'\n') ≡ false
      → list_entries (suc fuel) pos tmp sep out
        ≡ list_entries fuel (c ∷ s) tmp' (text ",") (out ++ o)
  unfolding list_entries
  step_more c s e n = ground arith

show-columns :
    (sep : Str) (r : Row)
    → show_vcl sep (columns r.available r.state r.temp r.name) ≡ some (object sep r)
unfolding show_vcl
show-columns sep r = refl

head_row :
    (r : Row) (rest : Str)
    → IsRow r
    → (c : ℕ) × (s : Str) × (row_text r rest ≡ c ∷ s) × ((c == b'\n') ≡ false)
unfolding is_space
head_row r rest h = head r.available _ h.available_column
  where
    head :
        (w after : Str)
        → IsColumn w
        → (c : ℕ) × (s : Str) × (w ++ after ≡ c ∷ s) × ((c == b'\n') ≡ false)
    head [] after h = absurd h
    head (c ∷ w) after h = (c, w ++ after, refl, ground arith)

scanned-row :
    (r : Row) (rest : Str) (tmp : VclList)
    → IsRow r
    → scan_vcl true (row_text r rest) tmp ≡ some (some (columns r.available r.state r.temp r.name))
scanned-row r rest tmp h =
    scan_vcl-row r.k r.j r.available r.state r.temp (r.refs ++ r.digit ∷ []) r.name rest tmp
      h.available_column h.available_fits h.state_column h.state_fits h.temp_column h.temp_fits
      h.refs_column h.refs_fit h.name_column h.name_fits

entries-rows :
    (fuel : ℕ) (r : Row) (rs : List Row) (tmp : VclList) (sep out : Str)
    → length rs < fuel
    → IsRow r
    → All IsRow rs
    → list_entries fuel (list_text (r ∷ rs)) tmp sep out ≡ some (some (out ++ objects sep (r ∷ rs)))
entries-rows zero r rs tmp sep out e h hs = absurd (omega (arith, e))
entries-rows (suc fuel) r [] tmp sep out e h hs =
    step_last fuel (row_text r []) tmp (columns r.available r.state r.temp r.name) sep out
      (object sep r) (has_refs-row r [] h) (scanned-row r [] tmp h) (show-columns sep r)
      (strchr-row r [] h)
    ∙ ap (λ s. some (some (out ++ s))) (sym (append-nil (object sep r)))
entries-rows (suc fuel) r (r' ∷ rs) tmp sep out e h hs =
    let (c, s, starts, n) = head_row r' (list_text rs) hs.0 in
    let rest = row_text r' (list_text rs) in
    let line_end =
      subst (λ l. strchr b'\n' (row_text r rest) ≡ some (b'\n' ∷ l)) starts (strchr-row r rest h) in
    step_more fuel (row_text r rest) tmp (columns r.available r.state r.temp r.name) sep out
      (object sep r) (has_refs-row r rest h) (scanned-row r rest tmp h) (show-columns sep r) c s
      line_end n
    ∙ subst
        (λ l.
          list_entries fuel l (columns r.available r.state r.temp r.name) (text ",")
            (out ++ object sep r)
          ≡ some (some (out ++ objects sep (r ∷ r' ∷ rs))))
        starts
        (entries-rows fuel r' rs _ (text ",") (out ++ object sep r) (omega (arith, e)) hs.0 hs.1
          ∙ ap (λ s. some (some s))
              (append_assoc out (object sep r) (objects (text ",") (r' ∷ rs))))

length-rows : (rs : List Row) → length rs ≤ length (list_text rs)
length-rows [] = omega arith
length-rows (r ∷ rs) = omega (
  arith,
  ap length (line_row r (list_text rs)),
  length-append (line r) (b'\n' ∷ list_text rs),
  length-rows rs,
)

-- From the text of "vcl.list" for one or more VCLs whose columns fit the widths of the format,
-- vcl_list_json makes the JSON of all of them, in their order, with a comma between each two.
pub vcl_list_json-rows :
    (r : Row) (rs : List Row)
    → IsRow r
    → All IsRow rs
    → vcl_list_json (list_text (r ∷ rs))
      ≡ some ((text "{\n\t\"vcls\": [" ++ objects [] (r ∷ rs)) ++ text "\n\t]\n}\n")
unfolding vcl_list_json
vcl_list_json-rows r rs h hs =
    let read =
      entries-rows (suc (length (list_text (r ∷ rs)))) r rs no_fields [] (text "{\n\t\"vcls\": [")
        (omega (arith, length-rows (r ∷ rs))) h hs in
    rw (read, vcl_list_json) refl
