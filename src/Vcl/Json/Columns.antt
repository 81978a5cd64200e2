-- ===== src/Vcl/Json/Columns.antt =====
-- How the first format of vcl_list_json in src/modules/vcl.c reads the rows of "vcl.list".
use vagent.Prelude.{
  ◌∙◌, ℕ, zero, suc, ◌<◌, ◌≤◌, ◌≡◌, refl, [], ◌∷◌, ◌++◌, true, false, some, Str, replicate, length,
  length-append, All, arith,
}
use mathlib.Core.List.{append_assoc}
use vagent.Ipc.{is_space}
use vagent.Vcl.Json.{
  VclList, skip_white, scan_chars, scan_word, scan_name, scan_refs, scan_temp, scan_vcl,
}

-- A column: not empty, and without white space.
abbrev pub IsColumn : Str → Type 0
IsColumn [] = ⊥
IsColumn (c ∷ w) = All (λ b. is_space b ≡ false) (c ∷ w)

skip_white-blanks : (n : ℕ) (s : Str) → skip_white (replicate n b' ' ++ s) ≡ skip_white s
unfolding skip_white is_space
skip_white-blanks zero s = refl
skip_white-blanks (suc n) s = skip_white-blanks n s

-- A word that white space ends, and no longer than the width, is read whole.
scan_chars-ended :
    (n : ℕ) (w r : Str) (d : ℕ)
    → All (λ b. is_space b ≡ false) w
    → length w ≤ n
    → is_space d ≡ true
    → scan_chars n (w ++ d ∷ r) ≡ (w, d ∷ r)
unfolding scan_chars
scan_chars-ended zero [] r d h fits e = refl
scan_chars-ended zero (c ∷ w) r d h fits e = absurd (omega (arith, fits))
scan_chars-ended (suc n) [] r d h fits e = ground arith
scan_chars-ended (suc n) (c ∷ w) r d h fits e = ground (arith, scan_chars-ended n w r d h.1)

-- A word as long as the width is read up to there, whatever follows.
scan_chars-full :
    (n : ℕ) (w r : Str)
    → All (λ b. is_space b ≡ false) w
    → length w ≡ n
    → scan_chars n (w ++ r) ≡ (w, r)
unfolding scan_chars
scan_chars-full zero [] r h fits = refl
scan_chars-full zero (c ∷ w) r h fits = absurd (omega (arith, fits))
scan_chars-full (suc n) [] r h fits = absurd (omega (arith, fits))
scan_chars-full (suc n) (c ∷ w) r h fits = ground (arith, scan_chars-full n w r h.1)

skip_white-column :
    (k c : ℕ) (s : Str) → is_space c ≡ false → skip_white (replicate k b' ' ++ c ∷ s) ≡ c ∷ s
unfolding skip_white
skip_white-column k c s e = skip_white-blanks k (c ∷ s) ∙ ground arith

read_word :
    (n : ℕ) (s s' : Str) (c : ℕ) (w r : Str)
    → skip_white s ≡ s'
    → scan_chars n s' ≡ (c ∷ w, r)
    → scan_word n s ≡ some (c ∷ w, r)
unfolding scan_word
read_word n s s' c w r p q = ground arith

word-ended :
    (n k : ℕ) (w r : Str) (d : ℕ)
    → IsColumn w
    → length w ≤ n
    → is_space d ≡ true
    → scan_word n (replicate k b' ' ++ (w ++ d ∷ r)) ≡ some (w, d ∷ r)
unfolding scan_word skip_white
word-ended n k [] r d h fits e = absurd h
word-ended n k (c ∷ w) r d h fits e =
    read_word n _ ((c ∷ w) ++ d ∷ r) c w (d ∷ r) (skip_white-column k c (w ++ d ∷ r) h.0)
      (scan_chars-ended n (c ∷ w) r d h fits e)

word-full :
    (n k : ℕ) (w r : Str)
    → IsColumn w
    → length w ≡ n
    → scan_word n (replicate k b' ' ++ (w ++ r)) ≡ some (w, r)
unfolding scan_word skip_white
word-full n k [] r h fits = absurd h
word-full n k (c ∷ w) r h fits =
    read_word n _ ((c ∷ w) ++ r) c w r (skip_white-column k c (w ++ r) h.0)
      (scan_chars-full n (c ∷ w) r h fits)

scan_name-column :
    (k : ℕ) (name rest : Str) (d : ℕ) (tmp : VclList)
    → IsColumn name
    → length name < 1024
    → is_space d ≡ true
    → scan_name (replicate k b' ' ++ (name ++ d ∷ rest)) tmp
      ≡ some (record tmp { name = some name })
unfolding scan_name
scan_name-column k name rest d tmp h short e =
    let line = replicate k b' ' ++ (name ++ d ∷ rest) in
    let fits : length name ≤ length line =
      omega (
        arith,
        length-append (replicate k b' ') (name ++ d ∷ rest),
        length-append name (d ∷ rest),
      ) in
    ground (arith, word-ended (length line) k name rest d h fits e)

-- A row of the list: status, state, a slash, temperature, references and name.
abbrev pub row : ℕ → ℕ → Str → Str → Str → Str → Str → Str → Str
row k j available state temp refs name rest =
    available
    ++ (replicate (suc k) b' '
        ++ (state
            ++ b'/'
              ∷ (temp ++ (replicate (suc j) b' ' ++ (refs ++ b' ' ∷ (name ++ b'\n' ∷ rest))))))

abbrev pub columns : Str → Str → Str → Str → VclList
columns available state temp name = record {
  available = some available;
  state = some state;
  temp = some temp;
  name = some name;
}

scan_refs-columns :
    (j : ℕ) (refs name rest : Str) (tmp : VclList)
    → IsColumn refs
    → length refs ≤ 6
    → IsColumn name
    → length name < 1024
    → scan_refs true (replicate (suc j) b' ' ++ (refs ++ b' ' ∷ (name ++ b'\n' ∷ rest))) tmp
      ≡ some (record tmp { name = some name })
unfolding scan_refs is_space
scan_refs-columns j refs name rest tmp h fits hn short =
    rw (word-ended 6 (suc j) refs (name ++ b'\n' ∷ rest) b' ' h fits refl, scan_refs)
      (scan_name-column 1 name rest b'\n' tmp hn short refl)

-- A row of "vcl.list" whose state has 4 bytes and whose temperature has at most 4, with columns that
-- the widths hold: each field is the column of its name.
pub scan_vcl-row :
    (k j : ℕ) (available state temp refs name rest : Str) (tmp : VclList)
    → IsColumn available
    → length available ≤ 10
    → IsColumn state
    → length state ≡ 4
    → IsColumn temp
    → length temp ≤ 4
    → IsColumn refs
    → length refs ≤ 6
    → IsColumn name
    → length name < 1024
    → scan_vcl true (row k j available state temp refs name rest) tmp
      ≡ some (some (columns available state temp name))
unfolding scan_vcl scan_temp is_space
scan_vcl-row k j available state temp refs name rest tmp ha fa hs fs ht ft hr fr hn fn =
    let c₃ = refs ++ b' ' ∷ (name ++ b'\n' ∷ rest) in
    let c₁ = temp ++ (replicate (suc j) b' ' ++ c₃) in
    let w₁ = word-ended 10 0 available (replicate k b' ' ++ (state ++ b'/' ∷ c₁)) b' ' ha fa refl in
    let w₂ = word-full 4 (suc k) state (b'/' ∷ c₁) hs fs in
    let w₃ = word-ended 4 0 temp (replicate j b' ' ++ c₃) b' ' ht ft refl in
    let fields : VclList = record tmp {
      available = some available;
      state = some state;
      temp = some temp;
    } in
    rw (w₁, scan_vcl)
      (rw (w₂)
        (rw (w₃, scan_temp) (rw (scan_refs-columns j refs name rest fields hr fr hn fn) refl)))

-- A row whose temperature is longer, as "cooling" is: the rest of the temperature is read as the
-- references, and the name is the number of references.
pub scan_vcl-long_temp :
    (k j : ℕ) (available state temp more refs name rest : Str) (tmp : VclList)
    → IsColumn available
    → length available ≤ 10
    → IsColumn state
    → length state ≡ 4
    → IsColumn temp
    → length temp ≡ 4
    → IsColumn more
    → length more ≤ 6
    → IsColumn refs
    → length refs ≤ 6
    → scan_vcl true (row k j available state (temp ++ more) refs name rest) tmp
      ≡ some (some (columns available state temp refs))
unfolding scan_vcl scan_temp scan_refs is_space
scan_vcl-long_temp k j available state temp more refs name rest tmp ha fa hs fs ht ft hm fm hr fr =
    let c₃ = refs ++ b' ' ∷ (name ++ b'\n' ∷ rest) in
    let c₂ = more ++ (replicate (suc j) b' ' ++ c₃) in
    let w₁ =
      word-ended 10 0 available (replicate k b' ' ++ (state ++ b'/' ∷ (temp ++ c₂))) b' ' ha fa
        refl in
    let w₂ = word-full 4 (suc k) state (b'/' ∷ (temp ++ c₂)) hs fs in
    let w₃ = word-full 4 0 temp c₂ ht ft in
    let w₄ = word-ended 6 0 more (replicate j b' ' ++ c₃) b' ' hm fm refl in
    let fields : VclList = record tmp {
      available = some available;
      state = some state;
      temp = some temp;
    } in
    rw (append_assoc temp more (replicate (suc j) b' ' ++ c₃)) (
      rw (w₁, scan_vcl)
        (rw (w₂) (
          rw (w₃, scan_temp)
            (rw (w₄, scan_refs)
              (rw
                (scan_name-column (suc j) refs (name ++ b'\n' ∷ rest) b' ' fields hr
                  (omega (arith, fr)) refl)
                refl)))))
