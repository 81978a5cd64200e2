-- ===== src/Http/Connection/Kept.antt =====
-- What answer_to_connection of src/modules/http.c leaves as it is: the listeners.
use vagent.Prelude.{
  text, ◌==◌, ◌&&◌, not, ℕ, Str, ◌≡◌, refl, List, [], ◌∷◌, Bool, true, false, Option, none, some,
  if◌then◌else◌, ◌∙◌,
}
use vagent.Exec.{
  M, World, Run, EndsBy, EndsBy-bind, done, aborted, oversized, pure, ◌>>=◌, ◌>>◌, log,
}
use vagent.Foreign.{VsbOps}
use vagent.Http.{HttpRequest, http_reply, parse_method, m_get, m_options}
use vagent.Http.Connection.{
  HttpConfig, HttpPriv, Call, ConnectionInfo, request_of, reply_help, answer_request, answer_again,
  answer_to_connection, answer_all, store_upload,
}

-- Where the action ends, its result has the property.
pub record Yields {S A : Type 0} (Q : A → Type 0) (m : M S A) : Type 0 where
  pub run : (w : World S) → EndsBy Unit (λ cmd. Unit) (λ a w'. Q a) (m w)

ends : {S A : Type 0} (r : Run S A) → EndsBy Unit (λ cmd. Unit) (λ a w'. Unit) r
ends (done a w) = tt
ends aborted = tt
ends (oversized cmd) = tt

module _ {S : Type 0} where
  Yields-pure : {A : Type 0} (Q : A → Type 0) (a : A) → Q a → Yields {S = S} Q (pure a)
  Yields-pure Q a h = record { run = λ w. h }

  -- The result of the last action counts.
  Yields-last :
      {A B : Type 0} (Q : B → Type 0) (m : M S A) (f : A → M S B)
      → ((a : A) → Yields Q (f a))
      → Yields Q (m >>= f)
  Yields-last Q m f h = record {
    run = λ w.
        EndsBy-bind Unit (λ cmd. Unit) (λ a w'. Unit) (λ b w'. Q b) m f w (ends (m w))
          (λ a w' u. (h a).run w');
  }

  Yields-bind :
      {A B : Type 0} (P : A → Type 0) (Q : B → Type 0) (m : M S A) (f : A → M S B)
      → Yields P m
      → ((a : A) → P a → Yields Q (f a))
      → Yields Q (m >>= f)
  Yields-bind P Q m f h next = record {
    run = λ w.
        EndsBy-bind Unit (λ cmd. Unit) (λ a w'. P a) (λ b w'. Q b) m f w (h.run w)
          (λ a w' p. (next a p).run w');
  }

  Yields-if :
      {A : Type 0} (Q : A → Type 0) (b : Bool) (m n : M S A)
      → Yields Q m
      → Yields Q n
      → Yields Q (if b then m else n)
  Yields-if Q true m n h k = h
  Yields-if Q false m n h k = k

weaken :
    {S A : Type 0} (P Q : A → Type 0) (r : Run S A)
    → ((a : A) → P a → Q a)
    → EndsBy Unit (λ cmd. Unit) (λ a w'. P a) r
    → EndsBy Unit (λ cmd. Unit) (λ a w'. Q a) r
weaken P Q (done a w) f h = f a h
weaken P Q aborted f h = tt
weaken P Q (oversized cmd) f h = tt

Yields-weaken :
    {S A : Type 0} (P Q : A → Type 0) (m : M S A) → ((a : A) → P a → Q a) → Yields P m → Yields Q m
Yields-weaken P Q m f h = record { run = λ w. weaken P Q (m w) f (h.run w) }

module _ (v : VsbOps) (config : HttpConfig) {S : Type 0} (http : HttpPriv S) where
  abbrev Kept : HttpPriv S → Type 0
  Kept http' = http'.listener ≡ http.listener

  abbrev Kept₁ : HttpPriv S × ConnectionInfo v → Type 0
  Kept₁ r = Kept r.0

  reply_help-Kept : (request : HttpRequest) → Yields Kept (reply_help v request http)
  unfolding reply_help
  reply_help-Kept request =
      Yields-if Kept _ _ _ (Yields-last Kept _ _ (λ u. Yields-pure Kept _ refl))
        (Yields-last Kept _ _ (λ u. Yields-pure Kept _ refl))

  after_find-Kept :
      (request : HttpRequest) (con_info : ConnectionInfo v) (found : Bool)
      → Yields Kept₁ (do
        http' ← if found then pure http else reply_help v request http
        pure (http', con_info))
  after_find-Kept request con_info found =
      Yields-bind Kept Kept₁ (if found then pure http else reply_help v request http)
        (λ http'. pure (http', con_info))
        (Yields-if Kept found (pure http) (reply_help v request http) (Yields-pure Kept http refl)
          (reply_help-Kept request))
        (λ http' h. Yields-pure Kept₁ (http', con_info) h)

  answer_request-Kept :
      (request : HttpRequest) (con_info : ConnectionInfo v)
      → Yields Kept₁ (answer_request v config request http con_info)
  unfolding answer_request
  answer_request-Kept request con_info =
      search (Yields-if, Yields-pure, Yields-last, after_find-Kept) depth 9

  by_upload :
      (call : Call) (method : ℕ) (con_info : ConnectionInfo v) (upload : Str)
      → Yields {S = S} Kept₁ (elim upload [
        | [] ↦ answer_request v config (request_of v con_info call method) http con_info
        | c ∷ s ↦ pure (http, store_upload v con_info (c ∷ s))
      ])
  by_upload call method con_info [] = answer_request-Kept _ con_info
  by_upload call method con_info (c ∷ s) = Yields-pure Kept₁ _ refl

  answer_again-Kept :
      (call : Call) (method : ℕ) (con_info : ConnectionInfo v)
      → Yields Kept₁ (answer_again v config call method http con_info)
  unfolding answer_again
  answer_again-Kept call method con_info =
      let refused : M S (HttpPriv S × ConnectionInfo v) = (do
        log 2
        http_reply call.connection 405 (some (text "Read-only mode"))
        pure (http, con_info)) in
      Yields-if Kept₁ (config.r_arg && (not (method == m_get) && not (method == m_options))) refused
        (elim call.upload [
          | [] ↦ answer_request v config (request_of v con_info call method) http con_info
          | c ∷ s ↦ pure (http, store_upload v con_info (c ∷ s))
        ])
        (Yields-last Kept₁ (log 2) _ (λ u.
          Yields-last Kept₁ (http_reply call.connection 405 (some (text "Read-only mode"))) _
            (λ u'. Yields-pure Kept₁ (http, con_info) refl)))
        (by_upload call method con_info call.upload)

  answer_to_connection-Kept :
      (call : Call) (c : Option (ConnectionInfo v))
      → Yields
          (λ (r : HttpPriv S × Option (ConnectionInfo v)). Kept r.0)
          (answer_to_connection v config call http c)
  unfolding answer_to_connection
  answer_to_connection-Kept call none =
      Yields-last (λ r. Kept r.0) (log 2) _ (λ u. Yields-pure (λ r. Kept r.0) _ refl)
  answer_to_connection-Kept call (some con_info) =
      Yields-last (λ r. Kept r.0) (log 2) _
        (λ u.
          Yields-bind Kept₁ (λ r. Kept r.0)
            (answer_again v config call (parse_method call.method) http con_info) _
            (answer_again-Kept call (parse_method call.method) con_info)
            (λ r h. Yields-pure (λ r. Kept r.0) _ h))

-- The calls of a request leave the listeners as they are.
pub answer_all-Kept :
    (v : VsbOps) (config : HttpConfig) {S : Type 0} (calls : List Call) (http : HttpPriv S)
    (c : Option (ConnectionInfo v))
    → Yields
        (λ (r : HttpPriv S × Option (ConnectionInfo v)). r.0.listener ≡ http.listener)
        (answer_all v config calls http c)
unfolding answer_all
answer_all-Kept v config [] http c = Yields-pure (λ r. r.0.listener ≡ http.listener) (http, c) refl
answer_all-Kept v config (call ∷ calls) http c =
    Yields-bind (λ r. r.0.listener ≡ http.listener) (λ r. r.0.listener ≡ http.listener)
      (answer_to_connection v config call http c) (λ r. answer_all v config calls r.0 r.1)
      (answer_to_connection-Kept v config http call c)
      (λ r h.
        Yields-weaken (λ q. q.0.listener ≡ r.0.listener) (λ q. q.0.listener ≡ http.listener)
          (answer_all v config calls r.0 r.1) (λ q e. e ∙ h)
          (answer_all-Kept v config calls r.0 r.1))
