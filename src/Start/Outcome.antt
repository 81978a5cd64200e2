-- ===== src/Start/Outcome.antt =====
-- What holds wherever main of src/main.c stops.
use vagent.Prelude.{◌≡◌, List, Bool, true, false, if◌then◌else◌, refl}
use vagent.Start.{Act, Main, Progress, value, exited, aborted, waits, ◌>>=◌}

-- `Q` where it goes on, `E` where the process ends by exit or by an assert, and `W` where it waits.
abbrev pub Post :
    {A : Type 0}
    → (A → List Act → Type 0)
    → (List Act → Type 0)
    → (List Act → Type 0)
    → Progress A
    → Type 0
Post Q E W (value a acts) = Q a acts
Post Q E W (exited n acts) = E acts
Post Q E W (aborted acts) = E acts
Post Q E W (waits acts) = W acts

module _ (E W : List Act → Type 0) where
  pub Post-bind :
      {A B : Type 0} (P : A → List Act → Type 0) (Q : B → List Act → Type 0) (m : Main A)
      (f : A → Main B) (acts : List Act)
      → Post P E W (m acts)
      → ((a : A) (acts' : List Act) → P a acts' → Post Q E W (f a acts'))
      → Post Q E W ((m >>= f) acts)
  Post-bind {A} {B} P Q m f acts h next = bind (m acts) h
    where
      bind :
          (r : Progress A)
          → Post P E W r
          → Post Q E W (elim r [
            | value a acts' ↦ f a acts'
            | exited n acts' ↦ exited n acts'
            | aborted acts' ↦ aborted acts'
            | waits acts' ↦ waits acts'
          ])
      bind (value a acts') p = next a acts' p
      bind (exited n acts') p = p
      bind (aborted acts') p = p
      bind (waits acts') p = p

  pub Post-if :
      {A : Type 0} (Q : A → List Act → Type 0) (b : Bool) (m n : Main A) (acts : List Act)
      → (b ≡ true → Post Q E W (m acts))
      → (b ≡ false → Post Q E W (n acts))
      → Post Q E W ((if b then m else n) acts)
  Post-if Q true m n acts h k = h refl
  Post-if Q false m n acts h k = k refl

  pub Post-weaken :
      {A : Type 0} (Q R : A → List Act → Type 0) (r : Progress A)
      → ((a : A) (acts : List Act) → Q a acts → R a acts)
      → Post Q E W r
      → Post R E W r
  Post-weaken Q R (value a acts) f h = f a acts h
  Post-weaken Q R (exited n acts) f h = h
  Post-weaken Q R (aborted acts) f h = h
  Post-weaken Q R (waits acts) f h = h
