-- ===== src/Http/Connection.antt =====
-- src/modules/http.c: answer_to_connection, the callback of libmicrohttpd, and what it calls.
pub mod Auth
pub mod Body
pub mod Listeners
pub mod Answered
pub mod Kept
use Prim.Native.Nat.{bit_and}
use vagent.Prelude.{
  ℕ, ◌+◌, ◌-◌, List, [], ◌∷◌, ◌++◌, Bool, true, false, not, ◌&&◌, ◌||◌, Option, none, some, Str,
  text, leb, ltb, ◌==◌, if◌then◌else◌, strcmp_eq, starts_with, drop, take, length, replicate,
}
use vagent.Exec.{M, ◌>>=◌, ◌>>◌, pure, log}
use vagent.Foreign.{VsbOps}
use vagent.Http.{
  Connection, HttpRequest, HttpListener, http_get_header, http_reply, http_mkresp, http_add_header,
  send_response, parse_method, find_listener, has_method, m_get, m_options, m_put, m_post, m_delete,
}

-- The part of struct agent_config_t that http.c reads. `auth_token` is the base64 text of the
-- credentials, which main.c computes.
pub record HttpConfig : Type 0 where
  pub r_arg : Bool
  pub auth_token : Str

-- struct http_priv_t; the handles of the logger are not state.
pub record HttpPriv (S : Type 0) : Type 0 where
  pub help_page : Option Str
  pub listener : List (HttpListener S)

-- What libmicrohttpd passes to one call. `upload` is upload_data, of *upload_data_size bytes.
pub record Call : Type 0 where
  pub connection : Connection
  pub url : Str
  pub method : Str
  pub upload : Str

-- `%-20s`
pad_to : ℕ → Str → Str
pad_to n s = s ++ replicate (n - length s) b' '

-- One line of make_help: snprintf into 512 bytes.
help_line : {S : Type 0} → HttpListener S → Str
unfolding pad_to
help_line lp = take 511 (
    text " - "
    ++ pad_to 20 lp.url
    ++ text " "
    ++ pad_to 3 (if has_method lp.method m_get then text "GET" else [])
    ++ text " "
    ++ pad_to 3 (if has_method lp.method m_put then text "PUT" else [])
    ++ text " "
    ++ pad_to 4 (if has_method lp.method m_post then text "POST" else [])
    ++ text " "
    ++ (if has_method lp.method m_delete then text "DELETE" else [])
    ++ text "\n")

help_lines : {S : Type 0} → List (HttpListener S) → Str
unfolding help_line
help_lines [] = []
help_lines (lp ∷ ls) = help_line lp ++ help_lines ls

unfoldable pub make_help : {S : Type 0} → List (HttpListener S) → Str
unfolding help_lines
make_help ls =
    text "This is the varnish agent.\n\nGET requests never modify state\n"
    ++ text "POST requests are not idempotent, and can modify state\n"
    ++ text "PUT requests are idempotent, and can modify state\n"
    ++ text "HEAD requests can be performed on all resources that support GET\n"
    ++ text "\nThe following URLs are bound:\n\n"
    ++ help_lines ls
    ++ text "\n"

unfoldable pub send_auth_response : {S : Type 0} → Connection → M S (Unit {0})
send_auth_response conn = send_response (
    http_add_header
      (http_mkresp conn 401 (
        some (
          text "Authorize, please.\n\nIf Varnish Agent was installed from packages, the "
          ++ text "/etc/varnish/agent_secret file contains generated credentials.\n")))
      (text "WWW-Authenticate") (text "Basic realm=varnish-agent"))

-- What check_auth looks for in the request's headers.
unfoldable pub has_token : HttpConfig → Connection → Bool
has_token config conn = elim (http_get_header conn (text "Authorization")) [
  | none ↦ false
  | some auth ↦ starts_with auth (text "Basic ") && strcmp_eq config.auth_token (drop 6 auth)
]

module _ (v : VsbOps) where
  open v use {Vsb, vsb_new_auto, vsb_bcat, vsb_data}

  -- struct connection_info_struct
  pub record ConnectionInfo : Type 0 where
    pub req_body : Option Vsb
    pub authed : Bool

  -- The record afterwards, and the value returned: true if the request is not authorised.
  unfoldable pub check_auth : HttpConfig → Connection → ConnectionInfo → ConnectionInfo × Bool
  check_auth config conn con_info =
      if con_info.authed
      then (con_info, false)
      else if has_token config conn
      then (record con_info { authed = true }, false)
      else (con_info, true)

  -- The first call of a request: *con_cls == NULL.
  unfoldable pub open_connection : HttpConfig → Connection → ConnectionInfo
  unfolding check_auth
  open_connection config conn =
      let (con_info, failed) =
        check_auth config conn (record { req_body = none; authed = false }) in
      if failed then con_info else record con_info { req_body = some vsb_new_auto }

  -- From VSB_bcat on: a part of the request's body.
  unfoldable pub store_upload : ConnectionInfo → Str → ConnectionInfo
  store_upload con_info upload = record con_info {
    req_body = elim con_info.req_body [ none ↦ none | some b ↦ some (vsb_bcat b upload) ];
  }

  -- The body behind its final NUL, of VSB_len - 1 bytes.
  unfoldable pub request_of : ConnectionInfo → Call → ℕ → HttpRequest
  request_of con_info call method = record {
    connection = call.connection;
    method = method;
    url = call.url;
    body = elim con_info.req_body [ none ↦ none | some b ↦ some (vsb_data b) ];
  }

  -- request_completed: what a request has collected is freed, and *con_cls is NULL again.
  unfoldable pub request_completed : Option ConnectionInfo → Option ConnectionInfo
  request_completed con_cls = none

  module _ {S : Type 0} where
    -- No listener: the help page for "/", which is made once.
    unfoldable pub reply_help : HttpRequest → HttpPriv S → M S (HttpPriv S)
    reply_help request http =
        if (request.method == m_get) && strcmp_eq request.url (text "/")
        then (do
          let page : Str = elim http.help_page [ none ↦ make_help http.listener | some p ↦ p ]
          http_reply request.connection 200 (some page)
          pure (record http { help_page = some page }))
        else (do http_reply request.connection 500 (some (text "Failed")); pure http)

    -- The call that has no upload left, behind the tests of the read-only mode.
    unfoldable pub answer_request :
        HttpConfig → HttpRequest → HttpPriv S → ConnectionInfo → M S (HttpPriv S × ConnectionInfo)
    answer_request config request http con_info =
        if request.method == m_options
        then (do http_reply request.connection 200 none; pure (http, con_info))
        else let (con_info', failed) = check_auth config request.connection con_info in
          if failed then (do send_auth_response request.connection; pure (http, con_info')) else do
            found ← find_listener request http.listener
            http' ← if found then pure http else reply_help request http
            pure (http', con_info')

    -- The function for calls after the first.
    unfoldable pub answer_again :
        HttpConfig → Call → ℕ → HttpPriv S → ConnectionInfo → M S (HttpPriv S × ConnectionInfo)
    answer_again config call method http con_info =
        if config.r_arg && (not (method == m_get) && not (method == m_options))
        then (do
          log 2
          http_reply call.connection 405 (some (text "Read-only mode"))
          pure (http, con_info))
        else elim call.upload [
          | [] ↦ answer_request config (request_of con_info call method) http con_info
          | c ∷ s ↦ pure (http, store_upload con_info (c ∷ s))
        ]

    unfoldable pub answer_to_connection :
        HttpConfig
        → Call
        → HttpPriv S
        → Option ConnectionInfo
        → M S (HttpPriv S × Option ConnectionInfo)
    answer_to_connection config call http none = do
      log 2
      pure (http, some (open_connection config call.connection))
    answer_to_connection config call http (some con_info) = do
      log 2
      (http', con_info') ← answer_again config call (parse_method call.method) http con_info
      pure (http', some con_info')

    -- The calls of one request, in order.
    unfoldable pub answer_all :
        HttpConfig
        → List Call
        → HttpPriv S
        → Option ConnectionInfo
        → M S (HttpPriv S × Option ConnectionInfo)
    answer_all config [] http con_cls = pure (http, con_cls)
    answer_all config (call ∷ calls) http con_cls = do
      (http', con_cls') ← answer_to_connection config call http con_cls
      answer_all config calls http' con_cls'

    -- The requests on a connection, each with its calls, one after the other: the next one starts with
    -- what request_completed leaves in *con_cls.
    unfoldable pub answer_each :
        HttpConfig → List (List Call) → HttpPriv S → Option ConnectionInfo → M S (HttpPriv S)
    answer_each config [] http con_cls = pure http
    answer_each config (calls ∷ requests) http con_cls = do
      (http', con_cls') ← answer_all config calls http con_cls
      answer_each config requests http' (request_completed con_cls')
