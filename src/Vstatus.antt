-- ===== src/Vstatus.antt =====
-- src/modules/vstatus.c: the state of varnishd and its last panic. The macro REPLY_FUNC makes a
-- handler for each of "status", "start", "stop" and "ping".
use vagent.Helpers.Respond.{Once-eok, Once-respond, Once}
use vagent.Prelude.{inr, inl, ◌⊎◌, ◌≡◌, refl, Option, Str, text, ◌==◌, if◌then◌else◌}
use vagent.Exec.{M, Peers, aborted}
use vagent.Http.{HttpRequest, m_get, m_delete}
use vagent.Helpers.{run_and_respond, run_and_respond_eok}

module _ {S : Type 0} (peers : Peers S) where
  -- REPLY_FUNC(string)
  unfoldable pub reply_func : Str → HttpRequest → Option Str → M S (Unit {0})
  reply_func string request arg = run_and_respond peers request.connection string

  unfoldable pub vstatus_panic : HttpRequest → Option Str → M S (Unit {0})
  vstatus_panic request arg =
      if request.method == m_get
      then run_and_respond_eok peers request.connection 200 301 (text "panic.show")
      else if request.method == m_delete
      then run_and_respond_eok peers request.connection 200 301 (text "panic.clear")
      else λ _. aborted

  reply_func-Once :
      (string : Str) (request : HttpRequest) (arg : Option Str)
      → Once (reply_func string request arg)
  unfolding reply_func
  reply_func-Once string request arg = Once-respond peers _ _

  -- For the two methods that its paths are registered with, vstatus_panic ends and queues exactly
  -- one response, whatever varnishd answers.
  pub vstatus_panic-Once :
      (request : HttpRequest) (arg : Option Str)
      → (request.method ≡ m_get) ⊎ (request.method ≡ m_delete)
      → Once (vstatus_panic request arg)
  unfolding vstatus_panic text
  vstatus_panic-Once request arg (inl e) = rw e (Once-eok peers _ _ _ _ refl)
  vstatus_panic-Once request arg (inr e) = rw e (Once-eok peers _ _ _ _ refl)
