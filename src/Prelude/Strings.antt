-- ===== src/Prelude/Strings.antt =====
-- C strings: lists of bytes without the final NUL, and the functions of string.h that the agent
-- calls on them.
use Prim.Native.Char.{code}
use Prim.Native.Nat.{ℕ, zero, suc}
use Prim.Native.String.{String}
use mathlib.Core.Path.{◌≡◌, refl}
use mathlib.Core.Logic.{◌≢◌}
use mathlib.Core.Bool.{Bool, true, false, ◌&&◌}
use mathlib.Core.Option.{Option, none, some}
use mathlib.Core.List.{List, [], ◌∷◌, ◌++◌}
use native.Mathlib.Omega.{arith}
use vagent.Prelude.Tests.{◌==◌, if◌then◌else◌}
use vagent.Prelude.Lists.{length, drop, All, replicate}

abbrev pub Str : Type 0
Str = List ℕ

-- The bytes of a literal. Shut, so that a message in a statement is not computed.
unfoldable pub text : String → Str
text String.[] = []
text (String.◌∷◌ c s) = code c ∷ text s

-- !strcmp(a, b)
unfoldable pub strcmp_eq : Str → Str → Bool
strcmp_eq [] [] = true
strcmp_eq [] (b ∷ bs) = false
strcmp_eq (a ∷ as') [] = false
strcmp_eq (a ∷ as') (b ∷ bs) = (a == b) && strcmp_eq as' bs

-- STARTS_WITH(string, match)
unfoldable pub starts_with : Str → Str → Bool
starts_with s [] = true
starts_with [] (m ∷ ms) = false
starts_with (c ∷ s) (m ∷ ms) = (c == m) && starts_with s ms

-- The string up to the first `c`: what `mark = strchr(s, c); if (mark) *mark = '\0';` leaves.
unfoldable pub cut_at : ℕ → Str → Str
cut_at c [] = []
cut_at c (b ∷ s) = if b == c then [] else b ∷ cut_at c s

-- strchr(s, c): the rest of the string from the first `c` on.
unfoldable pub strchr : ℕ → Str → Option Str
strchr c [] = none
strchr c (b ∷ s) = if b == c then some (b ∷ s) else strchr c s

-- What `%s` prints for a pointer that may be NULL (glibc).
unfoldable pub show_ptr : Option Str → Str
show_ptr none = text "(null)"
show_ptr (some s) = s

pub strcmp_eq_refl : (s : Str) → strcmp_eq s s ≡ true
unfolding strcmp_eq
strcmp_eq_refl [] = refl
strcmp_eq_refl (a ∷ s) = ground (arith, strcmp_eq_refl s)

pub strcmp_eq_sound : (a b : Str) → strcmp_eq a b ≡ true → a ≡ b
unfolding strcmp_eq
strcmp_eq_sound [] [] h = refl
strcmp_eq_sound [] (b ∷ bs) h = ground arith
strcmp_eq_sound (a ∷ s) [] h = ground arith
strcmp_eq_sound (a ∷ s) (b ∷ t) h = ground (arith, strcmp_eq_sound s t)

pub starts_with-append : (m rest : Str) → starts_with (m ++ rest) m ≡ true
unfolding starts_with
starts_with-append [] rest = refl
starts_with-append (m ∷ ms) rest = ground (arith, starts_with-append ms rest)

pub starts_with-split : (s m : Str) → starts_with s m ≡ true → s ≡ m ++ drop (length m) s
unfolding starts_with
starts_with-split s [] h = refl
starts_with-split [] (m ∷ ms) h = ground arith
starts_with-split (c ∷ s) (m ∷ ms) h = ground (arith, starts_with-split s ms)

-- What strtok_r(s, c, &last) returns: the token, with the characters `c` before it skipped, and the
-- place behind the `c` that ends it.
unfoldable pub strtok_skip : ℕ → Str → Str
strtok_skip c [] = []
strtok_skip c (b ∷ s) = if b == c then strtok_skip c s else b ∷ s

unfoldable pub after : ℕ → Str → Str
after c [] = []
after c (b ∷ s) = if b == c then s else after c s

unfoldable pub strtok : ℕ → Str → Option (Str × Str)
strtok c s = elim (strtok_skip c s) [ [] ↦ none | b ∷ t ↦ some (cut_at c (b ∷ t), after c (b ∷ t)) ]

module _ (c : ℕ) where
  -- A word between separators.
  abbrev pub IsWord : Str → Type 0
  IsWord word = (word ≢ []) × All (λ b. b ≢ c) word

  pub cut_at-word : (word rest : Str) → All (λ b. b ≢ c) word → cut_at c (word ++ c ∷ rest) ≡ word
  unfolding cut_at
  cut_at-word [] rest h = ground arith
  cut_at-word (b ∷ word) rest h = ground (arith, cut_at-word word rest h.1)

  pub strchr-word :
      (word rest : Str) → All (λ b. b ≢ c) word → strchr c (word ++ c ∷ rest) ≡ some (c ∷ rest)
  unfolding strchr
  strchr-word [] rest h = ground arith
  strchr-word (b ∷ word) rest h = ground (arith, strchr-word word rest h.1)

  after-word : (word rest : Str) → All (λ b. b ≢ c) word → after c (word ++ c ∷ rest) ≡ rest
  unfolding after
  after-word [] rest h = ground arith
  after-word (b ∷ word) rest h = ground (arith, after-word word rest h.1)

  pub cut_at-last : (word : Str) → All (λ b. b ≢ c) word → cut_at c word ≡ word
  unfolding cut_at
  cut_at-last [] h = refl
  cut_at-last (b ∷ word) h = ground (arith, cut_at-last word h.1)

  after-last : (word : Str) → All (λ b. b ≢ c) word → after c word ≡ []
  unfolding after
  after-last [] h = refl
  after-last (b ∷ word) h = ground (arith, after-last word h.1)

  skip-word : (n : ℕ) (b : ℕ) (s : Str) → b ≢ c → strtok_skip c (replicate n c ++ (b ∷ s)) ≡ b ∷ s
  unfolding strtok_skip
  skip-word zero b s h = ground arith
  skip-word (suc n) b s h = ground (arith, skip-word n b s h)

  -- strtok_r returns the word behind any number of separators, and goes on behind the next one.
  pub strtok-word :
      (n : ℕ) (word rest : Str)
      → IsWord word
      → strtok c (replicate n c ++ (word ++ c ∷ rest)) ≡ some (word, rest)
  unfolding strtok
  strtok-word n [] rest h = absurd (h.0 refl)
  strtok-word n (b ∷ word) rest h = ground (
    arith,
    skip-word n b (word ++ c ∷ rest) h.1.0,
    cut_at-word (b ∷ word) rest h.1,
    after-word (b ∷ word) rest h.1,
  )

  pub strtok-last :
      (n : ℕ) (word : Str) → IsWord word → strtok c (replicate n c ++ word) ≡ some (word, [])
  unfolding strtok
  strtok-last n [] h = absurd (h.0 refl)
  strtok-last n (b ∷ word) h =
      ground
        (arith, skip-word n b word h.1.0, cut_at-last (b ∷ word) h.1, after-last (b ∷ word) h.1)

  pub strtok-empty : strtok c [] ≡ none
  unfolding strtok strtok_skip
  strtok-empty = refl
