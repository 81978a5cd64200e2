-- ===== src/Http/Connection/Listeners.antt =====
-- How many responses find_listener and the help page of src/modules/http.c queue.
use mathlib.Core.Path.{subst}
use vagent.Prelude.{
  length, drop, sym, starts_with, Str, suc, ◌≡◌, refl, inl, inr, List, [], ◌∷◌, Bool, true, false,
  Option, none, some, is_some, All, Bool-cases, Option-cases, arith,
}
use vagent.Exec.{EndsOr-bind, EndsOr, World, ◌>>◌, pure}
use vagent.Foreign.{VsbOps}
use vagent.Helpers.Respond.{OnceOr, once_rules, Once-then, replies}
use vagent.Http.{
  listener_arg, has_method, HttpRequest, HttpListener, select_listener, find_listener,
}
use vagent.Http.Connection.{HttpPriv, reply_help}

module _ {S : Type 0} (C : Type 0) where
  -- Where the listener serves the request, whose body was collected, its callback queues exactly one
  -- response, or aborts where `C` allows it.
  abbrev pub Answers : HttpRequest → HttpListener S → Type 0
  Answers request lp =
      (arg : Option Str)
      → starts_with request.url lp.url ≡ true
      → has_method lp.method request.method ≡ true
      → listener_arg (drop (length lp.url) request.url) ≡ some arg
      → is_some request.body ≡ true
      → OnceOr C (lp.cb request arg)

  select-Answers :
      (ls : List (HttpListener S)) (request : HttpRequest) {lp : HttpListener S} {arg : Option Str}
      → All (Answers request) ls
      → is_some request.body ≡ true
      → select_listener request.url request.method ls ≡ some (lp, arg)
      → OnceOr C (lp.cb request arg)
  unfolding select_listener
  select-Answers [] request h b e = cc
  select-Answers (l ∷ ls) request {lp} {arg} h b e =
      elim (Bool-cases (starts_with request.url l.url)) [
        | inr other ↦ select-Answers ls request {lp = lp} {arg = arg} h.1 b (ground arith)
        | inl below ↦ elim (Bool-cases (has_method l.method request.method)) [
          | inr other ↦ select-Answers ls request {lp = lp} {arg = arg} h.1 b (ground arith)
          | inl serves ↦ elim (Option-cases (listener_arg (drop (length l.url) request.url))) [
            | inl p ↦ select-Answers ls request {lp = lp} {arg = arg} h.1 b (ground arith)
            | inr (a, p) ↦
                let same : l ≡ lp = ground arith in
                let behind : listener_arg (drop (length l.url) request.url) ≡ some arg =
                  ground arith in
                subst (λ (k : HttpListener S). OnceOr C (k.cb request arg)) same
                  (h.0 arg below serves behind b)
          ]
        ]
      ]

  -- One response where a listener was found, and none otherwise.
  abbrev pub Found : World S → Bool → World S → Type 0
  Found w true w' = replies w'.trace ≡ suc (replies w.trace)
  Found w false w' = replies w'.trace ≡ replies w.trace

  found-none :
      (ls : List (HttpListener S)) (request : HttpRequest)
      → select_listener request.url request.method ls ≡ none
      → find_listener request ls ≡ pure false
  unfolding find_listener
  found-none ls request e = rw (e, find_listener) refl

  found-some :
      (ls : List (HttpListener S)) (request : HttpRequest) (lp : HttpListener S) (arg : Option Str)
      → select_listener request.url request.method ls ≡ some (lp, arg)
      → find_listener request ls ≡ (do lp.cb request arg; pure true)
  unfolding find_listener
  found-some ls request lp arg e = rw (e, find_listener) refl

  pub find_listener-Found :
      (ls : List (HttpListener S)) (request : HttpRequest) (w : World S)
      → All (Answers request) ls
      → is_some request.body ≡ true
      → EndsOr C (Found w) (find_listener request ls w)
  find_listener-Found ls request w h b =
      elim (Option-cases (select_listener request.url request.method ls)) [
        | inl e ↦ subst (λ m. EndsOr C (Found w) (m w)) (sym (found-none ls request e)) refl
        | inr ((lp, arg), e) ↦
            subst (λ m. EndsOr C (Found w) (m w)) (sym (found-some ls request lp arg e))
              (EndsOr-bind C (λ a w'. replies w'.trace ≡ suc (replies w.trace)) (Found w)
                (lp.cb request arg) (λ _. pure true) w ((select-Answers ls request h b e).run w)
                (λ a w' p. p))
      ]

  pub Once-reply_help :
      (v : VsbOps) (request : HttpRequest) (http : HttpPriv S)
      → OnceOr C (reply_help v request http)
  unfolding reply_help
  Once-reply_help v request http = search (once_rules, Once-then) depth 7
