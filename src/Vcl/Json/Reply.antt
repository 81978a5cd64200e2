-- ===== src/Vcl/Json/Reply.antt =====
-- vcl_json of src/modules/vcl.c.
use vagent.Prelude.{Option, none, some, Str, text, ◌==◌, if◌then◌else◌, starts_with}
use vagent.Exec.{M, Peers, ◌>>=◌, ◌>>◌, aborted, assert, ipc_run}
use vagent.Http.{HttpRequest, http_reply, http_mkresp, http_add_header, send_response, m_get}
use vagent.Vcl.Json.{vcl_list_json}

module _ {S : Type 0} where
  unfoldable pub send_list : HttpRequest → Option Str → M S Unit
  send_list request none = λ _. aborted
  send_list request (some json) = send_response (
      http_add_header (http_mkresp request.connection 200 (some json)) (text "Content-Type")
        (text "application/json"))

  unfoldable pub vcl_json : Peers S → HttpRequest → Option Str → M S Unit
  vcl_json peers request (some arg) = do
    assert (starts_with request.url (text "/vcljson"))
    assert (request.method == m_get)
    http_reply request.connection 404 (some (text "/vcljson takes no argument"))
  vcl_json peers request none = do
    assert (starts_with request.url (text "/vcljson"))
    assert (request.method == m_get)
    vret ← ipc_run peers (text "vcl.list")
    if vret.status == 400
        then http_reply request.connection 500 (some vret.answer)
        else send_list request (vcl_list_json vret.answer)
