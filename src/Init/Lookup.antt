-- ===== src/Init/Lookup.antt =====
-- find_listener of src/modules/http.c on the paths that core_plugins leaves: an exact lookup.
use mathlib.Core.Path.{subst}
use vagent.Prelude.{
  sym, drop-append, starts_with-append, Bool-cases, ℕ, ◌≡◌, ◌≢◌, ◌⊎◌, inl, inr, refl, List, [], ◌∷◌,
  ◌++◌, Bool, true, false, not, ◌&&◌, ◌||◌, Option, none, some, Str, text, ◌==◌, if◌then◌else◌,
  starts_with, strcmp_eq, strcmp_eq_sound, drop, length, map, arith,
}
use mathlib.Core.List.{Memᴰ}
use mathlib.Core.List.Memᴰ
use vagent.Exec.{pure, M, ◌>>◌}
use vagent.Http.{
  find_listener, HttpRequest, HttpListener, has_method, select_listener, listener_arg, skip_slashes,
}
use vagent.Init.{Callback}
use vagent.Init.Routes.{registered-routes, registered, Route, routes, listener_of}

-- What follows the path in a URL, and the argument: nothing, or a slash and a text that does not
-- begin with a slash.
pub data Below : Str → Option Str → Type 0 where
  itself : Below [] none
  below : (c : ℕ) (s : Str) → c ≢ b'/' → Below (b'/' ∷ c ∷ s) (some (c ∷ s))

-- One path is the other, or lies above it.
abbrev nested : Str → Str → Bool
nested u v =
    starts_with (u ++ text "/") (v ++ text "/") || starts_with (v ++ text "/") (u ++ text "/")

-- The route of a path and a method: the first that has both.
abbrev pub lookup : Str → ℕ → List Route → Option Route
lookup u m [] = none
lookup u m (r ∷ rs) = if strcmp_eq r.url u && has_method r.methods m then some r else lookup u m rs

-- Each route has the path, or a path neither above nor below it.
abbrev apart : Str → List Route → Bool
apart u [] = true
apart u (r ∷ rs) = (strcmp_eq r.url u || not (nested u r.url)) && apart u rs

-- No listener is passed over for a URL below another path.
skips :
    (u v rest : Str) {arg : Option Str}
    → Below rest arg
    → nested u v ≡ false
    → (starts_with (u ++ rest) v ≡ false) ⊎ (listener_arg (drop (length v) (u ++ rest)) ≡ none)
unfolding starts_with text listener_arg
skips [] [] rest b h = cc
skips [] (d ∷ v) _ itself h = inl refl
skips [] (d ∷ v) _ (below c s n) h = inl (ground arith)
skips (c ∷ u) [] rest b h = inr (ground arith)
skips (c ∷ u) (d ∷ v) rest b h = elim (Bool-cases (c == d)) [
  | inl e ↦ elim (skips u v rest b (ground arith)) [ inl p ↦ inl (ground arith) | inr p ↦ inr p ]
  | inr e ↦ inl (ground arith)
]

Below-arg : (rest : Str) {arg : Option Str} → Below rest arg → listener_arg rest ≡ some arg
unfolding listener_arg skip_slashes
Below-arg _ itself = refl
Below-arg _ (below c s n) = ground arith

-- The listener of the path itself takes the request, with the argument.
takes :
    (u rest : Str) {arg : Option Str}
    → Below rest arg
    → listener_arg (drop (length u) (u ++ rest)) ≡ some arg
takes u rest b = rw (drop-append u rest) (Below-arg rest b)

module _ {S : Type 0} (cb : Callback → HttpRequest → Option Str → M S Unit) where
  select-lookup :
      (rs : List Route) (u rest : Str) (m : ℕ) {arg : Option Str}
      → Below rest arg
      → apart u rs ≡ true
      → select_listener (u ++ rest) m (map (listener_of cb) rs)
        ≡ elim (lookup u m rs) [ none ↦ none | some r ↦ some (listener_of cb r, arg) ]
  unfolding select_listener
  select-lookup [] u rest m b h = refl
  select-lookup (r ∷ rs) u rest m {arg} b h = elim (Bool-cases (strcmp_eq r.url u)) [
    | inl e ↦
        let same = strcmp_eq_sound r.url u e in
        let found =
          subst (λ v. listener_arg (drop (length v) (u ++ rest)) ≡ some arg) (sym same)
            (takes u rest b) in
        let prefix =
          subst (λ v. starts_with (u ++ rest) v ≡ true) (sym same) (starts_with-append u rest) in
        ground (arith, found, prefix, select-lookup rs u rest m b (ground arith))
    | inr e ↦ elim (skips u r.url rest b (ground arith)) [
      | inl p ↦ ground (arith, select-lookup rs u rest m b (ground arith))
      | inr p ↦ ground (arith, select-lookup rs u rest m b (ground arith))
    ]
  ]

abbrev all_apart : List Route → List Route → Bool
all_apart [] all = true
all_apart (r ∷ rs) all = apart r.url all && all_apart rs all

Mem-apart :
    (rs all : List Route) (r : Route) → all_apart rs all ≡ true → Memᴰ r rs → apart r.url all ≡ true
Mem-apart [] all r h i = absurd (Memᴰ.not-nil i)
Mem-apart (r' ∷ rs) all r h i = elim (Memᴰ.cases_cons i) [
  | inl e ↦ rw (e) (ground arith)
  | inr later ↦ Mem-apart rs all r (ground arith) later
]

routes-apart : all_apart routes routes ≡ true
unfolding text starts_with strcmp_eq
routes-apart = refl

-- What becomes of a request, by the route that the table has for it.
abbrev handed :
    {S : Type 0}
    → (Callback → HttpRequest → Option Str → M S Unit)
    → HttpRequest
    → Option Str
    → Option Route
    → M S Bool
handed cb request arg none = pure false
handed cb request arg (some r) = do cb r.callback request arg; pure true

handed-selected :
    {S : Type 0} (cb : Callback → HttpRequest → Option Str → M S Unit) (request : HttpRequest)
    (arg : Option Str) (ls : List (HttpListener S)) (o : Option Route)
    → select_listener request.url request.method ls
      ≡ elim o [ none ↦ none | some r ↦ some (listener_of cb r, arg) ]
    → find_listener request ls ≡ handed cb request arg o
unfolding find_listener
handed-selected cb request arg ls none e = rw (e, find_listener) refl
handed-selected cb request arg ls (some r) e = rw (e, find_listener) refl

-- After core_plugins, a request to a registered path, or to a text below it, is handed to the first
-- callback that the table has for exactly this path and the request's method, with that text as
-- the argument; where the table has none, no callback runs and the request is not found. No other
-- path shadows it.
pub find_listener-lookup :
    {S : Type 0} (cb : Callback → HttpRequest → Option Str → M S Unit) (pair : ℕ → ℕ × ℕ)
    (r : Route) (rest : Str) (arg : Option Str) (request : HttpRequest)
    → Memᴰ r routes
    → Below rest arg
    → request.url ≡ r.url ++ rest
    → find_listener request (registered cb pair)
      ≡ handed cb request arg (lookup r.url request.method routes)
find_listener-lookup cb pair r rest arg request i b e =
    let found =
      select-lookup cb routes r.url rest request.method b
        (Mem-apart routes routes r routes-apart i) in
    handed-selected cb request arg (registered cb pair) (lookup r.url request.method routes)
      (rw (registered-routes cb pair, e) found)
