-- ===== src/Vparams.antt =====
-- src/modules/vparams.c: the handler that shows and sets parameters.
pub mod Replies
pub mod Parse
pub mod Json
pub mod Shown
pub mod RoundTrip
pub mod EmptyValue
use vagent.Prelude.{◌==◌, if◌then◌else◌, ◌++◌, Option, Str, text, show_ptr, strcmp_eq, some}
use vagent.Exec.{M, Peers, ◌>>=◌}
use vagent.Http.{HttpRequest, http_reply, m_get, m_put}
use vagent.Helpers.{run_and_respond, first_line}

module _ {S : Type 0} (peers : Peers S) where
  unfoldable pub set_command : HttpRequest → Option Str → Str → Str
  set_command request arg body =
      if strcmp_eq request.url (text "/param/")
      then text "param.set " ++ body
      else text "param.set " ++ (show_ptr arg ++ (text " " ++ body))

  unfoldable pub vparams_reply : HttpRequest → Option Str → M S (Unit {0})
  vparams_reply request arg =
      if request.method == m_get
      then run_and_respond peers request.connection (text "param.show " ++ show_ptr arg)
      else if request.method == m_put
      then (do
        body ← first_line request
        run_and_respond peers request.connection (set_command request arg body))
      else http_reply request.connection 500 (some (text "Failed"))
