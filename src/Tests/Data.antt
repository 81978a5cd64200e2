-- ===== src/Tests/Data.antt =====
-- Concrete buffers, peers and requests for the tests.
use vagent.Prelude.{ℕ, List, [], ◌∷◌, ◌++◌, true, false, Option, none, some, Str, text, refl}
use vagent.Exec.{World, Peers, Header, answered, ipc_run, ◌>>=◌}
use vagent.Foreign.{VsbOps, IsBuffer}
use vagent.Http.{HttpRequest, HttpListener, m_post, http_reply}
use vagent.Http.Connection.{HttpConfig, HttpPriv, Call}

-- A buffer that is its bytes.
abbrev pub buffers : VsbOps
buffers = record {
  Vsb = Str;
  vsb_new_auto = [];
  vsb_bcat = λ b s. b ++ s;
  vsb_clear = λ b. [];
  vsb_data = λ b. b;
}

pub buffers-IsBuffer : IsBuffer buffers
buffers-IsBuffer = record { data-new = refl; data-clear = λ b. refl; data-bcat = λ b s. refl }

-- A varnishd and a VAC that say OK to each command, and keep it.
abbrev pub peers : Peers (List Str)
peers = record {
  vadmin = λ s cmd. (cmd ∷ s, answered 200 (text "OK"));
  curl = λ s cmd. (cmd ∷ s, answered 200 (text "OK"));
}

abbrev pub idle : World (List Str)
idle = record { peer = []; trace = [] }

-- A listener that sends the body of a request to varnishd.
abbrev pub direct : HttpListener (List Str)
direct = record {
  url = text "/direct";
  method = m_post;
  cb = λ request arg. elim request.body [
    | none ↦ http_reply request.connection 500 none
    | some b ↦ ipc_run peers b >>= λ ret. http_reply request.connection 200 (some ret.answer)
  ];
}

abbrev pub http : HttpPriv (List Str)
http = record { help_page = none; listener = direct ∷ [] }

abbrev pub config : HttpConfig
config = record { r_arg = false; auth_token = text "dTpw" }

abbrev pub read_only_config : HttpConfig
read_only_config = record { r_arg = true; auth_token = text "dTpw" }

abbrev pub token : List Header
token = (text "Authorization", text "Basic dTpw") ∷ []

abbrev pub post : List Header → Str → Call
post connection upload = record {
  connection = connection;
  url = text "/direct/x";
  method = text "POST";
  upload = upload;
}

abbrev pub request : ℕ → Str → Option Str → HttpRequest
request method url body = record { connection = []; method = method; url = url; body = body }
