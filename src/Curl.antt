-- ===== src/Curl.antt =====
-- src/modules/curl.c: the plugin "curl", which ipc_run gives a URL and, behind a newline, the body
-- of a request. libcurl is a parameter: what it makes of a request, where senddata feeds it.
use vagent.Prelude.{
  ℕ, ◌+◌, ◌≡◌, ◌<◌, List, [], ◌∷◌, ◌++◌, Option, none, some, Str, text, ltb, ◌==◌, if◌then◌else◌,
  cut_at, strchr, length, drop, take, ◌-◌, All, arith,
}
use vagent.Exec.{IpcRet, answered}
use vagent.Vcl.Handlers.{decimal}
pub mod Upload

-- struct curl_priv_t, the part that senddata keeps: what is left of the body.
pub record CurlPriv : Type 0 where
  pub pos : Option Str
  pub ndata : ℕ

-- senddata with a buffer of `room` bytes (size * nmemb): the bytes copied, or `none` where the
-- assert on `pos` fails.
unfoldable pub senddata : ℕ → CurlPriv → Option (Str × CurlPriv)
senddata room priv = if priv.ndata == 0 then some ([], priv) else elim priv.pos [
  | none ↦ none
  | some p ↦
      if ltb priv.ndata room
      then some (take priv.ndata p, record { pos = none; ndata = 0 })
      else some (take room p, record { pos = some (drop room p); ndata = priv.ndata - room })
]

-- What issue_curl gives to libcurl: the URL, and the body with its headers where there is one.
pub record Transfer : Type 0 where
  pub url : Str
  pub headers : List Str
  pub upload : Option Str

abbrev pub body_headers : Str → List Str
body_headers body =
    text "expect:"
    ∷ (text "Content-Length: " ++ decimal (length body))
    ∷ text "Transfer-Encoding:"
    ∷ []

-- The request of a command: `data = strchr(url, '\n')` and the cut there.
unfoldable pub transfer_of : Str → Transfer
transfer_of url = elim (strchr b'\n' url) [
  | none ↦ record { url = url; headers = []; upload = none }
  | some data' ↦ record {
    url = cut_at b'\n' url;
    headers = body_headers (drop 1 data');
    upload = some (drop 1 data');
  }
]

-- curl_easy_init and curl_easy_perform: `none` where no handle is made, else the result code.
abbrev pub Perform : Type 0
Perform = Transfer → Option ℕ

unfoldable pub issue_curl : Perform → Str → IpcRet
issue_curl perform [] =
    answered 500 (text "VAC url is not supplied. Please do so with the -z argument.")
issue_curl perform (c ∷ s) = elim (perform (transfer_of (c ∷ s))) [
  | none ↦ answered 500 (text "Unable to instantiate libcurl.")
  | some res ↦
      if res == 0
      then answered 200 (text "OK")
      else answered 500 (text "Curl callback failed with status code " ++ decimal res)
]
