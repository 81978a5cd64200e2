-- ===== src/Echo.antt =====
-- src/modules/echo.c: the body of the request as the response.
use vagent.Helpers.Respond.{
  Once-reply_len, Silent-log, Once-bind, Silent-pure, Silent-if, Silent, Once,
}
use vagent.Prelude.{◌≡◌, [], ◌||◌, Option, none, some, Str, ◌==◌, if◌then◌else◌, length, arith}
use vagent.Exec.{M, aborted, done, ◌>>◌, pure, log}
use vagent.Http.{HttpRequest, http_reply_len, m_put, m_post}
use vagent.Helpers.{c_str}

module _ {S : Type 0} where
  -- The body goes to the debug log if it holds no NUL: its length as a string is bodylen.
  unfoldable pub echo_debug : HttpRequest → M S (Unit {0})
  echo_debug request w = elim request.body [
    | none ↦ aborted
    | some b ↦ if length (c_str b) == length b then log 3 w else done tt w
  ]

  unfoldable pub echo_log : HttpRequest → M S (Unit {0})
  echo_log request =
      if (request.method == m_put) || (request.method == m_post)
      then echo_debug request
      else pure tt

  unfoldable pub echo_reply : HttpRequest → Option Str → M S (Unit {0})
  echo_reply request arg = do
    echo_log request
    log 2
    http_reply_len request.connection 200 (elim request.body [ none ↦ [] | some b ↦ b ])

  echo_debug-Silent :
      (request : HttpRequest) (body : Str) → request.body ≡ some body → Silent (echo_debug request)
  unfolding echo_debug log
  echo_debug-Silent request body e = record { run = λ w. rw e (ground arith) }

  echo_log-Silent :
      (request : HttpRequest) (body : Str) → request.body ≡ some body → Silent (echo_log request)
  unfolding echo_log
  echo_log-Silent request body e =
      Silent-if _ (echo_debug request) (pure tt) (echo_debug-Silent request body e) (Silent-pure tt)

  -- With a body, which may be empty, echo_reply ends, whatever the method, and queues exactly one
  -- response.
  pub echo_reply-Once :
      (request : HttpRequest) (arg : Option Str) (body : Str)
      → request.body ≡ some body
      → Once (echo_reply request arg)
  unfolding echo_reply
  echo_reply-Once request arg body e =
      Once-bind (echo_log request) _ (echo_log-Silent request body e)
        λ _. Once-bind (log 2) _ (Silent-log 2) λ _. Once-reply_len _ _ _
