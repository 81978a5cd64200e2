-- ===== src/Http/Routing.antt =====
-- Which listener a request reaches: find_listener of src/modules/http.c against an inductive
-- description of the routes.
use mathlib.Core.Path.{subst}
use vagent.Prelude.{
  ℕ, zero, suc, ◌≡◌, refl, sym, ap, ◌∙◌, ◌≢◌, ◌↔◌, ◌⊎◌, inl, inr, List, [], ◌∷◌, ◌++◌, true, Option,
  none, some, Str, ◌==◌, Bool-cases, Option-cases, starts_with, starts_with-append,
  starts_with-split, drop, drop-append, length, replicate, arith,
}
use vagent.Http.{
  HttpListener, has_method, skip_slashes, listener_arg, select_listener, null_if_empty,
}

-- What follows a listener's URL, and the argument that stands for it: nothing at all, slashes only,
-- or one or more slashes and a text that does not begin with a slash.
pub data PathArg (rest : Str) : Option Str → Type 0 where
  exact : rest ≡ [] → PathArg rest none
  slashes : (n : ℕ) → rest ≡ replicate (suc n) b'/' → PathArg rest none
  below :
      (n c : ℕ) (s : Str)
      → c ≢ b'/'
      → rest ≡ replicate (suc n) b'/' ++ (c ∷ s)
      → PathArg rest (some (c ∷ s))

-- The request of `url` and `method` fits the listener, with this argument.
pub record Accepts {S : Type 0} (url : Str) (method : ℕ) (lp : HttpListener S) (arg : Option Str)
    : Type 0 where
  pub rest : Str
  pub split : url ≡ lp.url ++ rest
  pub path : PathArg rest arg
  pub serves : has_method lp.method method ≡ true

pub data Selects {S : Type 0} (url : Str) (method : ℕ)
    : List (HttpListener S) → HttpListener S → Option Str → Type 0 where
  here :
      {lp : HttpListener S} {ls : List (HttpListener S)} {arg : Option Str}
      → Accepts url method lp arg
      → Selects url method (lp ∷ ls) lp arg
  there :
      {lp other : HttpListener S} {ls : List (HttpListener S)} {arg : Option Str}
      → ((a : Option Str) → ¬ Accepts url method other a)
      → Selects url method ls lp arg
      → Selects url method (other ∷ ls) lp arg

skip_slashes-split : (s : Str) → (n : ℕ) × (s ≡ replicate n b'/' ++ skip_slashes s)
unfolding skip_slashes
skip_slashes-split [] = (0, refl)
skip_slashes-split (c ∷ s) = elim (Bool-cases (c == b'/')) [
  | inl e ↦ let (n, p) = skip_slashes-split s in (suc n, ground (arith, p))
  | inr e ↦ (0, rw e)
]

skip_slashes-head : (s : Str) (c : ℕ) (t : Str) → skip_slashes s ≡ c ∷ t → c ≢ b'/'
unfolding skip_slashes
skip_slashes-head [] c t h = cc
skip_slashes-head (d ∷ s) c t h = ground (arith, skip_slashes-head s c t)

skip_slashes-replicate : (n : ℕ) → skip_slashes (replicate n b'/') ≡ []
unfolding skip_slashes
skip_slashes-replicate zero = refl
skip_slashes-replicate (suc n) = skip_slashes-replicate n

skip_slashes-below :
    (n c : ℕ) (s : Str) → c ≢ b'/' → skip_slashes (replicate n b'/' ++ (c ∷ s)) ≡ c ∷ s
unfolding skip_slashes
skip_slashes-below zero c s h = ground arith
skip_slashes-below (suc n) c s h = skip_slashes-below n c s h

append_nil : (s : Str) → s ++ [] ≡ s
append_nil [] = refl
append_nil (c ∷ s) = ap (λ (t : Str). c ∷ t) (append_nil s)

some_inj : {A : Type 0} {a b : A} → some a ≡ some b → a ≡ b
some_inj h = cc

PathArg-skip :
    (rest : Str) (n : ℕ) (t : Str)
    → ((c : ℕ) (s : Str) → t ≡ c ∷ s → c ≢ b'/')
    → rest ≡ replicate (suc n) b'/' ++ t
    → PathArg rest (null_if_empty t)
PathArg-skip rest n [] head e = slashes n (e ∙ append_nil (replicate (suc n) b'/'))
PathArg-skip rest n (c ∷ s) head e = below n c s (head c s refl) e

listener_arg_sound :
    (rest : Str) (arg : Option Str) → listener_arg rest ≡ some arg → PathArg rest arg
unfolding listener_arg
listener_arg_sound [] arg h = let e : PathArg [] none = exact refl in rw (some_inj h) at e
listener_arg_sound (c ∷ s) arg h = elim (Bool-cases (c == b'/')) [
  | inl e ↦
      let (n, p) = skip_slashes-split s in
      let q : null_if_empty (skip_slashes s) ≡ arg = ground arith in
      rw q at (PathArg-skip (c ∷ s) n (skip_slashes s) (skip_slashes-head s) (ground (arith, p)))
  | inr e ↦ ground arith
]

listener_arg_complete :
    {rest : Str} {arg : Option Str} → PathArg rest arg → listener_arg rest ≡ some arg
unfolding listener_arg
listener_arg_complete (exact e) = rw e
listener_arg_complete (slashes n e) = rw (e, skip_slashes-replicate n)
listener_arg_complete (below n c s h e) = rw (e, skip_slashes-below n c s h)

module _ {S : Type 0} (url : Str) (method : ℕ) where
  -- The test that the loop makes of one listener.
  Accepts-fits :
      (lp : HttpListener S) (arg : Option Str)
      → Accepts url method lp arg
      → (starts_with url lp.url ≡ true)
        × (has_method lp.method method ≡ true)
        × (listener_arg (drop (length lp.url) url) ≡ some arg)
  Accepts-fits lp arg a = (
    rw a.split (starts_with-append lp.url a.rest),
    a.serves,
    rw (a.split, drop-append lp.url a.rest) (listener_arg_complete a.path),
  )

  fits-Accepts :
      (lp : HttpListener S) (arg : Option Str)
      → starts_with url lp.url ≡ true
      → has_method lp.method method ≡ true
      → listener_arg (drop (length lp.url) url) ≡ some arg
      → Accepts url method lp arg
  fits-Accepts lp arg s m h = record {
    rest = drop (length lp.url) url;
    split = starts_with-split url lp.url s;
    path = listener_arg_sound _ arg h;
    serves = m;
  }

  -- One round of the loop: the listener is taken, or no argument makes it fit.
  round-cases :
      (lp : HttpListener S) (ls : List (HttpListener S))
      → ((arg : Option Str) × Accepts url method lp arg
          × (select_listener url method (lp ∷ ls) ≡ some (lp, arg)))
        ⊎ (((arg : Option Str) → ¬ Accepts url method lp arg)
            × (select_listener url method (lp ∷ ls) ≡ select_listener url method ls))
  unfolding select_listener
  round-cases lp ls = elim (Bool-cases (starts_with url lp.url)) [
    | inr e ↦ inr (λ arg a. cc ((Accepts-fits lp arg a).0), ground arith)
    | inl s ↦ elim (Bool-cases (has_method lp.method method)) [
      | inr e ↦ inr (λ arg a. cc ((Accepts-fits lp arg a).1), ground arith)
      | inl m ↦ elim (Option-cases (listener_arg (drop (length lp.url) url))) [
        | inl e ↦ inr (λ arg a. cc ((Accepts-fits lp arg a).2), ground arith)
        | inr (arg, e) ↦ inl (arg, fits-Accepts lp arg s m e, ground arith)
      ]
    ]
  ]

  selected :
      (ls : List (HttpListener S)) (lp : HttpListener S) (arg : Option Str)
      → select_listener url method ls ≡ some (lp, arg)
      → Selects url method ls lp arg
  selected [] lp arg h = absurd (unfold select_listener in cc h)
  selected (l ∷ ls) lp arg h = elim (round-cases l ls) [
    | inl (a, fits, e) ↦ first l lp a arg ls fits (some_inj (sym e ∙ h))
    | inr (out, e) ↦ there out (selected ls lp arg (sym e ∙ h))
  ]
    where
      first :
          (l lp : HttpListener S) (a arg : Option Str) (ls : List (HttpListener S))
          → Accepts url method l a
          → ◌≡◌ {A = HttpListener S × Option Str} (l, a) (lp, arg)
          → Selects url method (l ∷ ls) lp arg
      first l lp a arg ls fits e =
          subst (λ (p : HttpListener S × Option Str). Selects url method (l ∷ ls) p.0 p.1) e
            (here fits)

  Accepts-unique :
      (lp : HttpListener S) (a b : Option Str)
      → Accepts url method lp a
      → Accepts url method lp b
      → a ≡ b
  Accepts-unique lp a b p q = some_inj (sym (Accepts-fits lp a p).2 ∙ (Accepts-fits lp b q).2)

  selecting :
      {ls : List (HttpListener S)} {lp : HttpListener S} {arg : Option Str}
      → Selects url method ls lp arg
      → select_listener url method ls ≡ some (lp, arg)
  selecting (here {lp} {ls} {arg} fits) = elim (round-cases lp ls) [
    | inl (a, fits', e) ↦
        e ∙ ap (λ (b : Option Str). some (lp, b)) (Accepts-unique lp a arg fits' fits)
    | inr (out, e) ↦ absurd (out arg fits)
  ]
  selecting (there {other} {ls} out rest) = elim (round-cases other ls) [
    | inl (a, fits, e) ↦ absurd (out a fits)
    | inr (_, e) ↦ e ∙ selecting rest
  ]

  -- The loop of find_listener stops at a listener, with an argument for its callback, exactly when
  -- that is the first listener of the list whose URL is the request's up to a slash or the end,
  -- which serves the method; the argument is what follows the slashes, and NULL where nothing does.
  pub select_listener-Selects :
      (ls : List (HttpListener S)) (lp : HttpListener S) (arg : Option Str)
      → (select_listener url method ls ≡ some (lp, arg)) ↔ Selects url method ls lp arg
  select_listener-Selects ls lp arg = (selected ls lp arg, selecting)
