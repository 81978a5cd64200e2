-- ===== src/Helpers/Respond.antt =====
-- What run_and_respond and run_and_respond_eok of src/helpers.c queue.
use vagent.Prelude.{
  arith, inr, inl, Bool-cases, Bool, ℕ, suc, ◌≡◌, refl, List, [], ◌∷◌, true, false, Option, some,
  Str, ltb, if◌then◌else◌, length,
}
use vagent.Exec.{
  assert, EndsOr-bind, pure, log, ipc_curl, M, World, Event, ran, fetched, replied, logged, EndsOr,
  Peers, ◌>>=◌, ipc_run,
}
use vagent.Http.{HttpResponse, Connection, HttpRequest, http_reply, http_reply_len, send_response}
use vagent.Helpers.{first_line, run_and_respond, run_and_respond_eok}

-- How many responses have been queued.
abbrev pub replies : List Event → ℕ
replies [] = 0
replies (replied r ∷ t) = suc (replies t)
replies (ran cmd ret ∷ t) = replies t
replies (fetched cmd ret ∷ t) = replies t
replies (logged level ∷ t) = replies t

-- The action ends, and queues nothing; or it aborts, which `C` allows.
pub record SilentOr {S A : Type 0} (C : Type 0) (m : M S A) : Type 0 where
  pub run : (w : World S) → EndsOr C (λ a w'. replies w'.trace ≡ replies w.trace) (m w)

-- The action ends, and queues exactly one response; or it aborts, which `C` allows.
pub record OnceOr {S A : Type 0} (C : Type 0) (m : M S A) : Type 0 where
  pub run : (w : World S) → EndsOr C (λ a w'. replies w'.trace ≡ suc (replies w.trace)) (m w)

-- The same where no abort is allowed.
abbrev pub Silent : {S A : Type 0} → M S A → Type 0
Silent m = SilentOr ⊥ m

abbrev pub Once : {S A : Type 0} → M S A → Type 0
Once m = OnceOr ⊥ m

module _ {S : Type 0} {C : Type 0} where
  pub Once-if :
      {A : Type 0} (b : Bool) (m n : M S A)
      → (b ≡ true → OnceOr C m)
      → (b ≡ false → OnceOr C n)
      → OnceOr C (if b then m else n)
  Once-if true m n km kn = km refl
  Once-if false m n km kn = kn refl

  pub Silent-if :
      {A : Type 0} (b : Bool) (m n : M S A)
      → SilentOr C m
      → SilentOr C n
      → SilentOr C (if b then m else n)
  Silent-if true m n km kn = km
  Silent-if false m n km kn = kn

  pub Once-bind :
      {A B : Type 0} (m : M S A) (f : A → M S B)
      → SilentOr C m
      → ((a : A) → OnceOr C (f a))
      → OnceOr C (m >>= f)
  Once-bind m f silent once = record {
    run = λ w.
        EndsOr-bind C (λ a w'. replies w'.trace ≡ replies w.trace)
          (λ b w'. replies w'.trace ≡ suc (replies w.trace)) m f w (silent.run w)
          (λ a w' e. rw e at ((once a).run w'));
  }

  pub Once-then :
      {A B : Type 0} (m : M S A) (f : A → M S B)
      → OnceOr C m
      → ((a : A) → SilentOr C (f a))
      → OnceOr C (m >>= f)
  Once-then m f once silent = record {
    run = λ w.
        EndsOr-bind C (λ a w'. replies w'.trace ≡ suc (replies w.trace))
          (λ b w'. replies w'.trace ≡ suc (replies w.trace)) m f w (once.run w)
          (λ a w' e. rw e at ((silent a).run w'));
  }

  pub Silent-bind :
      {A B : Type 0} (m : M S A) (f : A → M S B)
      → SilentOr C m
      → ((a : A) → SilentOr C (f a))
      → SilentOr C (m >>= f)
  Silent-bind m f sm sf = record {
    run = λ w.
        EndsOr-bind C (λ a w'. replies w'.trace ≡ replies w.trace)
          (λ b w'. replies w'.trace ≡ replies w.trace) m f w (sm.run w)
          (λ a w' e. rw e at ((sf a).run w'));
  }

  pub Silent-pure : {A : Type 0} (a : A) → SilentOr {S = S} C (pure a)
  Silent-pure a = record { run = λ w. refl }

  pub Silent-log : (level : ℕ) → SilentOr {S = S} C (log level)
  unfolding log
  Silent-log level = record { run = λ w. refl }

  pub Silent-run : (peers : Peers S) (cmd : Str) → SilentOr C (ipc_run peers cmd)
  unfolding ipc_run
  Silent-run peers cmd = record {
    run = λ w. elim (Bool-cases (ltb (length cmd) 1000000000)) [
      | inl e ↦ rw e refl
      | inr e ↦ rw e (ground arith)
    ];
  }

  pub Silent-curl : (peers : Peers S) (cmd : Str) → SilentOr C (ipc_curl peers cmd)
  unfolding ipc_curl
  Silent-curl peers cmd = record {
    run = λ w. elim (Bool-cases (ltb (length cmd) 1000000000)) [
      | inl e ↦ rw e refl
      | inr e ↦ rw e (ground arith)
    ];
  }

  pub Silent-assert : (b : Bool) → b ≡ true → SilentOr {S = S} C (assert b)
  Silent-assert true e = record { run = λ w. refl }
  Silent-assert false e = cc

  pub Once-send : (resp : HttpResponse) → OnceOr {S = S} C (send_response resp)
  unfolding send_response
  Once-send resp = record { run = λ w. refl }

  pub Once-reply_len :
      (conn : Connection) (status : ℕ) (content : Str)
      → OnceOr {S = S} C (http_reply_len conn status content)
  unfolding http_reply_len
  Once-reply_len conn status content = record { run = λ w. refl }

  pub Once-reply :
      (conn : Connection) (status : ℕ) (content : Option Str)
      → OnceOr {S = S} C (http_reply conn status content)
  unfolding http_reply
  Once-reply conn status content = record { run = λ w. refl }

  pub Once-respond :
      (peers : Peers S) (conn : Connection) (cmd : Str) → OnceOr C (run_and_respond peers conn cmd)
  unfolding run_and_respond
  Once-respond peers conn cmd = Once-bind _ _ (Silent-run peers cmd) λ vret. Once-reply conn _ _

  pub Once-eok :
      (peers : Peers S) (conn : Connection) (min max : ℕ) (cmd : Str)
      → (ltb 0 (length cmd)) ≡ true
      → OnceOr C (run_and_respond_eok peers conn min max cmd)
  unfolding run_and_respond_eok
  Once-eok peers conn min max cmd h =
      Once-bind _ _ (Silent-assert _ h)
        λ _. Once-bind _ _ (Silent-run peers cmd) λ vret. Once-reply conn _ _

  pub Silent-first_line :
      (request : HttpRequest) (body : Str)
      → request.body ≡ some body
      → SilentOr {S = S} C (first_line request)
  unfolding first_line
  Silent-first_line request body e = record { run = λ w. rw e }

pub ruleset once_rules = (
  Once-if, Silent-if, Once-bind, Silent-pure, Silent-log, Silent-run, Silent-curl, Once-send,
  Once-reply_len, Once-reply, Once-respond,
)
