-- ===== src/Exec/Refinement.antt =====
-- When the run of one action implements the run of another.
use vagent.Prelude.{Bool, true, false, if◌then◌else◌, ◌≡◌, refl}
use mathlib.Core.Path.{subst}
use vagent.Exec.{M, Run, World, done, aborted, oversized, pure, ◌>>=◌}

-- Both end in the same world, so with the same trace, with related results; or both abort, and at
-- the same command where it is too long.
abbrev pub Refines : {S A B : Type 0} → (A → B → Type 0) → Run S A → Run S B → Type 0
Refines R (done a w) (done b w') = R a b × (w ≡ w')
Refines R aborted aborted = Unit
Refines R (oversized cmd) (oversized cmd') = cmd ≡ cmd'
Refines R (oversized cmd) (done b w') = ⊥
Refines R (oversized cmd) aborted = ⊥
Refines R (done a w) (oversized cmd) = ⊥
Refines R aborted (oversized cmd) = ⊥
Refines R (done a w) aborted = ⊥
Refines R aborted (done b w') = ⊥

pub Refines-same : {S A : Type 0} (r : Run S A) → Refines (λ a b. a ≡ b) r r
Refines-same (done a w) = (refl, refl)
Refines-same aborted = tt
Refines-same (oversized cmd) = refl

pub Refines-bind :
    {S A B C D : Type 0} (R : A → B → Type 0) (Q : C → D → Type 0) (m : M S A) (n : M S B)
    (f : A → M S C) (g : B → M S D) (w : World S)
    → Refines R (m w) (n w)
    → ((a : A) (b : B) (w' : World S) → R a b → Refines Q (f a w') (g b w'))
    → Refines Q ((m >>= f) w) ((n >>= g) w)
Refines-bind R Q m n f g w h k = bind (m w) (n w) h
  where
    bind :
        (r : Run _ _) (r' : Run _ _)
        → Refines R r r'
        → Refines Q
            (elim r [ done a w' ↦ f a w' | aborted ↦ aborted | oversized cmd ↦ oversized cmd ])
            (elim r' [ done b w' ↦ g b w' | aborted ↦ aborted | oversized cmd ↦ oversized cmd ])
    bind (done a w₁) (done b w₂) (p, e) = subst (λ w₃. Refines Q (f a w₁) (g b w₃)) e (k a b w₁ p)
    bind (oversized cmd) (oversized cmd') p = p
    bind (oversized cmd) (done b w₂) p = absurd p
    bind (oversized cmd) aborted p = absurd p
    bind (done a w₁) (oversized cmd) p = absurd p
    bind aborted (oversized cmd) p = absurd p
    bind aborted aborted p = tt
    bind (done a w₁) aborted p = absurd p
    bind aborted (done b w₂) p = absurd p

-- The first action implements the second, in every world.
pub record Implements {S A B : Type 0} (R : A → B → Type 0) (m : M S A) (n : M S B) : Type 0 where
  pub run : (w : World S) → Refines R (m w) (n w)

pub Implements-pure :
    {S A B : Type 0} (R : A → B → Type 0) (a : A) (b : B)
    → R a b
    → Implements {S = S} R (pure a) (pure b)
Implements-pure R a b p = record { run = λ w. (p, refl) }

pub Implements-aborted :
    {S A B : Type 0} (R : A → B → Type 0) → Implements {S = S} R (λ _. aborted) (λ _. aborted)
Implements-aborted R = record { run = λ w. tt }

pub Implements-bind :
    {S A B C D : Type 0} (R : A → B → Type 0) (Q : C → D → Type 0) (m : M S A) (n : M S B)
    (f : A → M S C) (g : B → M S D)
    → Implements R m n
    → ((a : A) (b : B) → R a b → Implements Q (f a) (g b))
    → Implements Q (m >>= f) (n >>= g)
Implements-bind R Q m n f g h k = record {
  run = λ w. Refines-bind R Q m n f g w (h.run w) (λ a b w' p. (k a b p).run w');
}

-- The same action first on both sides.
pub Implements-then :
    {S A C D : Type 0} (Q : C → D → Type 0) (m : M S A) (f : A → M S C) (g : A → M S D)
    → ((a : A) → Implements Q (f a) (g a))
    → Implements Q (m >>= f) (m >>= g)
Implements-then Q m f g k = record {
  run = λ w.
      Refines-bind (λ a b. a ≡ b) Q m m f g w (Refines-same (m w))
        (λ a b w' e. subst (λ b'. Refines Q (f a w') (g b' w')) e ((k a).run w'));
}

pub Implements-if :
    {S A B : Type 0} (R : A → B → Type 0) (b : Bool) (m m' : M S A) (n n' : M S B)
    → Implements R m n
    → Implements R m' n'
    → Implements R (if b then m else m') (if b then n else n')
Implements-if R true m m' n n' h h' = h
Implements-if R false m m' n n' h h' = h'

pub ruleset implements_rules = (Implements-pure, Implements-aborted, Implements-then, Implements-if)
