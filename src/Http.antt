-- ===== src/Http.antt =====
-- src/modules/http.c and include/http.h: methods, responses and the listeners.
pub mod Routing
pub mod Connection
pub mod Server
use Prim.Native.Nat.{bit_and}
use vagent.Prelude.{
  ℕ, ◌+◌, List, [], ◌∷◌, ◌++◌, Bool, true, false, not, ◌&&◌, Option, none, some, Str, text, leb,
  ◌-◌, ◌==◌, if◌then◌else◌, strcmp_eq, starts_with, drop, length, cut_at, strchr,
}
use vagent.Exec.{Header, Sent, Event, replied, M, ◌>>=◌, ◌>>◌, pure, emit}

-- enum http_method
abbrev pub m_unknown : ℕ
m_unknown = 0

abbrev pub m_get : ℕ
m_get = 1

abbrev pub m_post : ℕ
m_post = 2

abbrev pub m_put : ℕ
m_put = 4

abbrev pub m_delete : ℕ
m_delete = 8

abbrev pub m_options : ℕ
m_options = 16

-- MHD_Connection, as far as the agent reads it: the request headers.
abbrev pub Connection : Type 0
Connection = List Header

-- struct http_request. `body` is NULL or `bodylen` bytes and a NUL.
pub record HttpRequest : Type 0 where
  pub connection : Connection
  pub method : ℕ
  pub url : Str
  pub body : Option Str

abbrev pub bodylen : HttpRequest → ℕ
bodylen r = elim r.body [ none ↦ 0 | some b ↦ length b ]

-- struct http_response. The list of headers starts with the one added last.
pub record HttpResponse : Type 0 where
  pub connection : Connection
  pub headers : List Header
  pub status : ℕ
  pub content : Str

-- tolower
lower : ℕ → ℕ
lower c = if leb 65 c && leb c 90 then c + 32 else c

-- !strcasecmp(a, b)
unfoldable pub strcasecmp_eq : Str → Str → Bool
unfolding lower
strcasecmp_eq [] [] = true
strcasecmp_eq [] (b ∷ bs) = false
strcasecmp_eq (a ∷ s) [] = false
strcasecmp_eq (a ∷ s) (b ∷ t) = (lower a == lower b) && strcasecmp_eq s t

-- MHD_get_connection_values calls get_key on each header until it returns MHD_NO.
unfoldable pub http_get_header : Connection → Str → Option Str
http_get_header [] key = none
http_get_header ((k, v) ∷ hs) key = if strcasecmp_eq key k then some v else http_get_header hs key

unfoldable pub http_mkresp : Connection → ℕ → Option Str → HttpResponse
http_mkresp conn status content = record {
  connection = conn;
  headers = [];
  status = status;
  content = elim content [ none ↦ [] | some s ↦ s ];
}

unfoldable pub http_add_header : HttpResponse → Str → Str → HttpResponse
http_add_header resp key value = record resp { headers = (key, value) ∷ resp.headers }

-- The headers that send_response adds to those of the response, in order.
unfoldable pub cors_headers : Connection → List Header
cors_headers conn =
    (text "Access-Control-Allow-Headers", text "Authorization, Origin")
    ∷ (text "Access-Control-Allow-Methods", text "GET, POST, PUT, DELETE, OPTIONS")
    ∷ (
      text "Access-Control-Allow-Origin",
      elim (http_get_header conn (text "Origin")) [ none ↦ text "*" | some o ↦ o ],
    )
    ∷ []

unfoldable pub respond : HttpResponse → Sent
respond resp = record {
  status = resp.status;
  headers = resp.headers ++ cors_headers resp.connection;
  body = resp.content;
}

module _ {S : Type 0} where
  unfoldable pub send_response : HttpResponse → M S (Unit {0})
  send_response resp = emit (replied (respond resp))

  unfoldable pub http_reply_len : Connection → ℕ → Str → M S (Unit {0})
  unfolding send_response
  http_reply_len conn status content = send_response (http_mkresp conn status (some content))

  unfoldable pub http_reply : Connection → ℕ → Option Str → M S (Unit {0})
  unfolding http_reply_len
  http_reply conn status content =
      http_reply_len conn status (elim content [ none ↦ [] | some s ↦ s ])

-- A Content-Type by the file's extension: what follows the last dot, the dot included.
strrchr_from : ℕ → Str → Option Str → Option Str
strrchr_from c [] found = found
strrchr_from c (b ∷ s) found = strrchr_from c s (if b == c then some (b ∷ s) else found)

unfoldable pub strrchr : ℕ → Str → Option Str
unfolding strrchr_from
strrchr c s = strrchr_from c s none

-- The table http_content_types.
unfoldable pub http_content_types : List (Str × Str)
http_content_types =
    (text ".html", text "text/html")
    ∷ (text ".js", text "text/javascript")
    ∷ (text ".css", text "text/css")
    ∷ (text ".jpg", text "image/jpeg")
    ∷ (text ".jpeg", text "image/jpeg")
    ∷ (text ".png", text "image/png")
    ∷ (text ".gif", text "image/gif")
    ∷ []

unfoldable pub find_type : Str → List (Str × Str) → Option Str
find_type ext [] = none
find_type ext ((e, t) ∷ types) = if strcmp_eq ext e then some t else find_type ext types

unfoldable pub http_set_content_type : HttpResponse → Str → HttpResponse
unfolding find_type strrchr http_content_types http_add_header
http_set_content_type resp path = elim (strrchr b'.' path) [
  | none ↦ resp
  | some ext ↦ elim (find_type ext http_content_types) [
    | none ↦ resp
    | some t ↦ http_add_header resp (text "Content-Type") t
  ]
]

-- The strings of the methods, in the order of the tests. HEAD is handled as GET.
unfoldable pub parse_method : Str → ℕ
parse_method method =
    if strcmp_eq method (text "GET")
    then m_get
    else if strcmp_eq method (text "POST")
    then m_post
    else if strcmp_eq method (text "PUT")
    then m_put
    else if strcmp_eq method (text "DELETE")
    then m_delete
    else if strcmp_eq method (text "OPTIONS")
    then m_options
    else if strcmp_eq method (text "HEAD")
    then m_get
    else m_unknown

-- struct http_listener. `cb` is http_cb_f with its private data applied; what a callback returns is
-- ignored.
pub record HttpListener (S : Type 0) : Type 0 where
  pub url : Str
  pub method : ℕ
  pub cb : HttpRequest → Option Str → M S (Unit {0})

-- lp->method & request->method
abbrev pub has_method : ℕ → ℕ → Bool
has_method m r = not (bit_and m r == 0)

-- `while (*arg == '/') arg++;`
unfoldable pub skip_slashes : Str → Str
skip_slashes [] = []
skip_slashes (c ∷ s) = if c == b'/' then skip_slashes s else c ∷ s

-- `if (arg && *arg == '\0') arg = NULL;`
abbrev pub null_if_empty : Str → Option Str
null_if_empty [] = none
null_if_empty (c ∷ s) = some (c ∷ s)

-- The argument that find_listener makes of what follows the listener's URL. The outer `none` is
-- the `continue`, the inner one an argument NULL.
unfoldable pub listener_arg : Str → Option (Option Str)
unfolding skip_slashes
listener_arg [] = some none
listener_arg (c ∷ s) = if c == b'/' then some (null_if_empty (skip_slashes s)) else none

module _ {S : Type 0} where
  unfoldable pub http_register_path :
      List (HttpListener S)
      → Str
      → ℕ
      → (HttpRequest → Option Str → M S (Unit {0}))
      → List (HttpListener S)
  http_register_path listeners url method cb =
      record { url = url; method = method; cb = cb } ∷ listeners

  -- The listener that find_listener calls, with the argument for its callback.
  unfoldable pub select_listener :
      Str → ℕ → List (HttpListener S) → Option (HttpListener S × Option Str)
  unfolding listener_arg
  select_listener url method [] = none
  select_listener url method (lp ∷ rest) =
      let later = select_listener url method rest in
      if starts_with url lp.url && has_method lp.method method
      then elim (listener_arg (drop (length lp.url) url)) [
        | none ↦ later
        | some arg ↦ some (lp, arg)
      ]
      else later

  unfoldable pub find_listener : HttpRequest → List (HttpListener S) → M S Bool
  unfolding select_listener
  find_listener request listeners = elim (select_listener request.url request.method listeners) [
    | none ↦ pure false
    | some (lp, arg) ↦ do lp.cb request arg; pure true
  ]
