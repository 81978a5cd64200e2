-- ===== src/Ipc/Loop/Invariant/Cases.antt =====
-- The cases that the steps of src/ipc.c leave: of a phase, of a list, and of what poll reports.
use mathlib.Core.Path.{subst}
use vagent.Prelude.{
  ℕ, zero, suc, ◌+◌, ◌<◌, ◌≤◌, ◌≡◌, ◌≢◌, refl, List, [], ◌∷◌, Str, arith, ltb, ◌==◌, true, false,
  Bool-cases, ◌⊎◌, inl, inr,
}
use vagent.Ipc.Loop.{Phase, idle, midway, in_read, Line, poll, has_bytes}

pub is_lt : (a b : ℕ) → ltb a b ≡ true → a < b
is_lt a b e = ground arith

pub not_lt : (a b : ℕ) → ltb a b ≡ false → b ≤ a
not_lt a b e = ground arith

pub none_or_some : (s : Str) → (s ≡ []) ⊎ (s ≢ [])
none_or_some [] = inl refl
none_or_some (c ∷ s) = inr (λ e. cc e)

pub none_or_first :
    {A : Type 0} (xs : List A) → (xs ≡ []) ⊎ ((x : A) × (rest : List A) × (xs ≡ x ∷ rest))
none_or_first [] = inl refl
none_or_first (x ∷ xs) = inr (x, xs, refl)

pub phases : (p : Phase) → (p ≡ idle) ⊎ (((c : Str) × (p ≡ midway c)) ⊎ (p ≡ in_read))
phases idle = inl refl
phases (midway c) = inr (inl (c, refl))
phases in_read = inr (inr refl)

pub cons_nil : {x : ℕ} {xs : List ℕ} → x ∷ xs ≢ []
cons_nil e = cc e

pub nat_cases : (i j : ℕ) → i ≤ j → (i ≡ j) ⊎ (i < j)
nat_cases i j h = elim (Bool-cases (i == j)) [
  | inl e ↦ inl (ground arith)
  | inr e ↦ inr (ground arith)
]

pub no_bytes_none : (l : Line) → has_bytes l ≡ false → l.up ≡ []
no_bytes_none l e = elim (none_or_first l.up) [
  | inl none_up ↦ none_up
  | inr (x, xs, p) ↦ ground arith
]

-- What poll did not report has no bytes.
pub poll-none :
    (lines : ℕ → Line) (i k : ℕ)
    → poll lines i k ≡ []
    → (j : ℕ) → i ≤ j
    → j < i + k
    → (lines j).up ≡ []
unfolding poll
poll-none lines i zero e j low high = absurd (omega (arith, low, high))
poll-none lines i (suc k) e j low high = elim (Bool-cases (has_bytes (lines i))) [
  | inl b ↦ ground arith
  | inr b ↦ elim (nat_cases i j low) [
    | inl same ↦ subst (λ (m : ℕ). (lines m).up ≡ []) same (no_bytes_none (lines i) b)
    | inr above ↦ poll-none lines (suc i) k (ground arith) j above (omega (arith, high))
  ]
]
