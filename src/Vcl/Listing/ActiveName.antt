-- ===== src/Vcl/Listing/ActiveName.antt =====
-- Which name vcl_active of src/modules/vcl.c takes from the output of "vcl.list".
use vagent.Prelude.{
  ℕ, zero, suc, ◌<◌, ◌≤◌, ◌≡◌, refl, ap, ◌∙◌, List, [], ◌∷◌, ◌++◌, true, false, none, some, Str,
  text, length, length-append, All, starts_with, starts_with-append, strtok, strtok-word,
  strtok-last, strtok-empty, IsWord, replicate, arith,
}
use vagent.Vcl.Listing.{Columns, set_tok, fill_columns, active_columns, no_columns, active_name}

-- A word of the row and how many spaces stand before it besides the first.
abbrev pub Cell : Type 0
Cell = ℕ × Str

abbrev pub cell : Cell → Str → Str
cell (n, word) rest = b' ' ∷ (replicate n b' ' ++ (word ++ rest))

abbrev pub last_cell : Cell → Str
last_cell (n, word) = b' ' ∷ (replicate n b' ' ++ word)

-- Four columns, as varnishd 4.1 prints them, and three, as 3.0 and 4.0 do.
unfoldable pub row4 : Cell → Cell → Cell → Str
row4 a b c = text "active" ++ cell a (cell b (last_cell c))

unfoldable pub row3 : Cell → Cell → Str
row3 a b = text "active" ++ cell a (last_cell b)

active-IsWord : IsWord b' ' (text "active")
unfolding text
active-IsWord = (ground arith, omega arith)

fill-step :
    (left k : ℕ) (line : Str) (c : Columns) (t rest : Str)
    → strtok b' ' line ≡ some (t, rest)
    → fill_columns (suc left) k line c ≡ fill_columns left (suc k) rest (set_tok k (some t) c)
unfolding fill_columns
fill-step left k line c t rest e = ground (arith, e)

fill-end : (left k : ℕ) (c : Columns) → fill_columns (suc left) k [] c ≡ (set_tok k none c, [])
unfolding fill_columns
fill-end left k c = ground (arith, strtok-empty b' ')

columns4 :
    (a b c : Cell)
    → IsWord b' ' a.1
    → IsWord b' ' b.1
    → IsWord b' ' c.1
    → fill_columns 4 0 (row4 a b c) no_columns ≡ (
      record { tok0 = some (text "active"); tok1 = some a.1; tok2 = some b.1; tok3 = some c.1 },
      [],
    )
unfolding row4
columns4 a b c ha hb hc =
    fill-step 3 0 _ no_columns _ _ (strtok-word b' ' 0 (text "active") _ active-IsWord)
    ∙ fill-step 2 1 _ _ _ _ (strtok-word b' ' a.0 a.1 _ ha)
    ∙ fill-step 1 2 _ _ _ _ (strtok-word b' ' b.0 b.1 _ hb)
    ∙ fill-step 0 3 _ _ _ _ (strtok-last b' ' c.0 c.1 hc)
    ∙ (unfold fill_columns set_tok in refl)

columns3 :
    (a b : Cell)
    → IsWord b' ' a.1
    → IsWord b' ' b.1
    → fill_columns 4 0 (row3 a b) no_columns
      ≡ (record { tok0 = some (text "active"); tok1 = some a.1; tok2 = some b.1; tok3 = none }, [])
unfolding row3
columns3 a b ha hb =
    fill-step 3 0 _ no_columns _ _ (strtok-word b' ' 0 (text "active") _ active-IsWord)
    ∙ fill-step 2 1 _ _ _ _ (strtok-word b' ' a.0 a.1 _ ha)
    ∙ fill-step 1 2 _ _ _ _ (strtok-last b' ' b.0 b.1 hb)
    ∙ fill-end 0 3 _
    ∙ (unfold set_tok in refl)

starts4 : (a b c : Cell) → starts_with (row4 a b c) (text "active") ≡ true
unfolding row4
starts4 a b c = starts_with-append (text "active") _

starts3 : (a b : Cell) → starts_with (row3 a b) (text "active") ≡ true
unfolding row3
starts3 a b = starts_with-append (text "active") _

-- The lines before the one of the active VCL, and what stands behind them.
abbrev pub unlines : List Str → Str → Str
unlines [] rest = rest
unlines (l ∷ ls) rest = l ++ b'\n' ∷ unlines ls rest

abbrev pub IsOther : Str → Type 0
IsOther l = IsWord b'\n' l × (starts_with l (text "active") ≡ false)

-- A row among other lines, with any lines after it: the columns are those of the row.
columns-found :
    (before : List Str) (row after : Str) (c : Columns) (fuel : ℕ)
    → All IsOther before
    → IsWord b'\n' row
    → starts_with row (text "active") ≡ true
    → fill_columns 4 0 row no_columns ≡ (c, [])
    → length before < fuel
    → active_columns fuel (unlines before (row ++ b'\n' ∷ after)) no_columns ≡ c
unfolding active_columns
columns-found before row after c zero others word active filled f = absurd (omega arith)
columns-found [] row after c (suc fuel) others word active filled f =
    ground (arith, strtok-word b'\n' 0 row after word, stays fuel c)
  where
    stays : (fuel : ℕ) (c : Columns) → active_columns fuel [] c ≡ c
    stays zero c = refl
    stays (suc fuel) c = ground (arith, strtok-empty b'\n')
columns-found (l ∷ before) row after c (suc fuel) others word active filled f = ground (
  arith,
  strtok-word b'\n' 0 l (unlines before (row ++ b'\n' ∷ after)) others.0.0,
  columns-found before row after c fuel others.1 word active filled (omega arith),
)

length-unlines : (before : List Str) (rest : Str) → length before ≤ length (unlines before rest)
length-unlines [] rest = omega arith
length-unlines (l ∷ ls) rest =
    omega (arith, length-append l (b'\n' ∷ unlines ls rest), length-unlines ls rest)

name-of :
    (s : Str) {c : Columns}
    → active_columns (suc (length s)) s no_columns ≡ c
    → active_name s ≡ elim c.tok2 [ none ↦ none | some t ↦ c.tok3 ]
unfolding active_name
name-of s e = ap (λ (c : Columns). elim c.tok2 [ none ↦ none | some t ↦ c.tok3 ]) e

module _ (before : List Str) (after : Str) (others : All IsOther before) where
  abbrev pub listing : Str → Str
  listing row = unlines before (row ++ b'\n' ∷ after)

  -- Where a row of four columns starts with "active", behind lines that do not, the name is its
  -- fourth column, whatever lines follow. Where such a row has three columns, as the comment
  -- describes them for varnishd 3 and 4.0, no name is found.
  pub active_name_lem :
      ((a b c : Cell)
        → IsWord b' ' a.1
        → IsWord b' ' b.1
        → IsWord b' ' c.1
        → IsWord b'\n' (row4 a b c)
        → active_name (listing (row4 a b c)) ≡ some c.1)
      × ((a b : Cell)
          → IsWord b' ' a.1
          → IsWord b' ' b.1
          → IsWord b'\n' (row3 a b)
          → active_name (listing (row3 a b)) ≡ none)
  active_name_lem = (
    λ a b c ha hb hc line.
        let enough = length-unlines before (row4 a b c ++ b'\n' ∷ after) in
        let found =
          columns-found before (row4 a b c) after _ (suc (length (listing (row4 a b c)))) others
            line (starts4 a b c) (columns4 a b c ha hb hc) (omega arith) in
        name-of _ found,
    λ a b ha hb line.
        let enough = length-unlines before (row3 a b ++ b'\n' ∷ after) in
        let found =
          columns-found before (row3 a b) after _ (suc (length (listing (row3 a b)))) others line
            (starts3 a b) (columns3 a b ha hb) (omega arith) in
        name-of _ found,
  )
