-- ===== src/Agent/Requests.antt =====
-- From answer_to_connection of src/modules/http.c to the callbacks that core_plugins of src/main.c
-- leaves: one response for each request.
use mathlib.Core.Path.{subst}
use mathlib.Core.List.{Memᴰ}
use vagent.Prelude.{
  ◌&&◌, ◌∙◌, ℕ, ◌≡◌, inl, inr, refl, sym, List, [], ◌∷◌, Bool, true, false, Option, none, some, Str,
  text, ◌==◌, starts_with, Option-cases, All, map, arith, drop, length,
}
use vagent.Foreign.{VsbOps}
use vagent.Helpers.Respond.{OnceOr}
use vagent.Http.{HttpRequest, has_method, listener_arg, parse_method}
use vagent.Http.Connection.{HttpConfig, HttpPriv, Call, answer_all}
use vagent.Http.Connection.Body.{Chunk, request_calls}
use vagent.Http.Connection.Listeners.{Answers}
use vagent.Http.Connection.Answered.{answer_all-Once, turned_away, asked}
use vagent.Init.Routes.{Route, routes, listener_of, registered, registered-routes}
use vagent.Agent.{Agent, Outside, callbacks}
use vagent.Agent.Methods.{Method, parse_method-Method}
use vagent.Agent.Answers.{asserts, Meets, MayAbort, Expected, callbacks-OnceOr}

-- The path of a route has the path of the callback's asserts in front, and its methods are theirs.
abbrev consistent : Route → Bool
consistent r = elim (asserts r.callback) [
  | none ↦ true
  | some (path, methods) ↦ starts_with r.url path && (r.methods == methods)
]

abbrev all_consistent : List Route → Bool
all_consistent [] = true
all_consistent (r ∷ rs) = consistent r && all_consistent rs

routes-consistent : all_consistent routes ≡ true
unfolding starts_with text
routes-consistent = refl

-- A text in front of a text in front of a URL.
starts_with_trans :
    (s t u : Str) → starts_with s t ≡ true → starts_with t u ≡ true → starts_with s u ≡ true
unfolding starts_with
starts_with_trans s t [] h k = refl
starts_with_trans s [] (c ∷ u) h k = cc
starts_with_trans [] (d ∷ t) (c ∷ u) h k = cc
starts_with_trans (e ∷ s) (d ∷ t) (c ∷ u) h k =
    ground (arith, starts_with_trans s t u (ground arith) (ground arith))

met :
    (request : HttpRequest) (r : Route)
    → consistent r ≡ true
    → starts_with request.url r.url ≡ true
    → has_method r.methods request.method ≡ true
    → Expected r.callback request
met request r h u m = by_asserts (asserts r.callback) h
  where
    by_asserts :
        (a : Option (Str × ℕ))
        → elim a [
          | none ↦ true
          | some (path, methods) ↦ starts_with r.url path && (r.methods == methods)
        ]
          ≡ true
        → Meets a request
    by_asserts none h = tt
    by_asserts (some (path, methods)) h = (
      starts_with_trans request.url r.url path u (ground arith),
      subst (λ (n : ℕ). has_method n request.method ≡ true) (ground arith) m,
    )

-- The URL is that of a path, or has a slash behind it, as find_listener asks, the method is one of
-- its methods, and its callback may abort.
pub record CanAbort (url : Str) (method : ℕ) : Type 0 where
  pub route : Route
  pub listed : Memᴰ route routes
  pub path : starts_with url route.url ≡ true
  pub arg : Option Str
  pub behind : listener_arg (drop (length route.url) url) ≡ some arg
  pub serves : has_method route.methods method ≡ true
  pub may : MayAbort route.callback

module _ (v : VsbOps) {S : Type 0} (o : Outside S) where
  listener-Answers :
      (request : HttpRequest) (r : Route)
      → Method request.method
      → Memᴰ r routes
      → consistent r ≡ true
      → Answers (CanAbort request.url request.method) request (listener_of (callbacks v o) r)
  listener-Answers request r k i h arg u m e b = elim (Option-cases request.body) [
    | inl e ↦ absurd (ground (arith, b))
    | inr (body, e') ↦
        callbacks-OnceOr v o (CanAbort request.url request.method) request arg r.callback k
          (λ may. record {
            route = r;
            listed = i;
            path = u;
            arg = arg;
            behind = e;
            serves = m;
            may = may;
          })
          (met request r h u m) e'
  ]

  listeners-Answers :
      (request : HttpRequest) (rs : List Route)
      → Method request.method
      → ((r : Route) → Memᴰ r rs → Memᴰ r routes)
      → all_consistent rs ≡ true
      → All
          (Answers (CanAbort request.url request.method) request)
          (map (listener_of (callbacks v o)) rs)
  listeners-Answers request [] k sub h = tt
  listeners-Answers request (r ∷ rs) k sub h = (
    listener-Answers request r k (sub r (Memᴰ.head refl)) (ground arith),
    listeners-Answers request rs k (λ q i. sub q (Memᴰ.tail i)) (ground arith),
  )

  -- After core_plugins, the calls of answer_to_connection for any request that the read-only mode lets
  -- through come to their end and queue exactly one response, whatever varnishd, the VAC and the disk
  -- do: with or without credentials, to any URL, by any method, with any body. Only where the URL and
  -- the method lead to one of nine callbacks, or where a command to varnishd or the VAC has 10 ^ 9
  -- bytes or more, can the process abort instead; no assert of a callback on
  -- its URL or its method can fail.
  pub answer_all-Routes :
      (config : HttpConfig) (pair : ℕ → ℕ × ℕ) (last : Call) (chunks : List Chunk)
      (http : HttpPriv (Agent v S))
      → http.listener ≡ registered (callbacks v o) pair
      → last.upload ≡ []
      → turned_away v config last.method ≡ false
      → OnceOr
          (CanAbort last.url (parse_method last.method))
          (answer_all v config (last ∷ request_calls last chunks) http none)
  answer_all-Routes config pair last chunks http e end writable =
      answer_all-Once v config (CanAbort last.url (parse_method last.method)) last chunks http
        (λ body.
          subst
            (All
              (Answers (CanAbort last.url (parse_method last.method)) (asked v config last body)))
            (sym (registered-routes (callbacks v o) pair) ∙ sym e)
            (listeners-Answers (asked v config last body) routes (parse_method-Method last.method)
              (λ r i. i) routes-consistent))
        end writable
