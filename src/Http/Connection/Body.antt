-- ===== src/Http/Connection/Body.antt =====
-- Requests with the credentials: answer_to_connection of src/modules/http.c collects the body and
-- hands the whole request to the callback of its listener.
use mathlib.Core.List.{append_assoc, append-nil}
use vagent.Prelude.{
  ◌∙◌, ap, ℕ, zero, suc, ◌≡◌, List, [], ◌∷◌, ◌++◌, true, false, Option, none, some, ◌==◌, Str,
  arith, length,
}
use vagent.Exec.{
  oversized, >>=-done, World, Run, M, Event, logged, log, done, aborted, ◌>>=◌, ◌>>◌, pure,
}
use vagent.Foreign.{VsbOps, IsBuffer}
use vagent.Http.{HttpRequest, HttpListener, select_listener, find_listener, parse_method, m_options}
use vagent.Http.Connection.{
  HttpConfig, HttpPriv, Call, ConnectionInfo, has_token, check_auth, open_connection, store_upload,
  request_of, answer_request, answer_again, answer_to_connection, answer_all,
}

-- A part of a body as libmicrohttpd passes it: not empty.
abbrev pub Chunk : Type 0
Chunk = ℕ × Str

abbrev pub chunk_bytes : Chunk → Str
chunk_bytes (c, s) = c ∷ s

abbrev pub joined : List Chunk → Str
joined [] = []
joined (p ∷ ps) = chunk_bytes p ++ joined ps

-- The calls of one request: the first, one for each part of the body, and the last.
abbrev pub request_calls : Call → List Chunk → List Call
request_calls last [] = last ∷ []
request_calls last (p ∷ ps) = record last { upload = chunk_bytes p } ∷ request_calls last ps

-- As many lines in the log as calls.
abbrev pub log_lines : ℕ → List Event → List Event
log_lines zero t = t
log_lines (suc n) t = log_lines n (logged 2 ∷ t)

module _ (v : VsbOps) (laws : IsBuffer v) {S : Type 0} (config : HttpConfig) (http : HttpPriv S)
    (last : Call) where
  abbrev pub request_with : Str → HttpRequest
  request_with body = record {
    connection = last.connection;
    method = parse_method last.method;
    url = last.url;
    body = some body;
  }

  -- The run of the calls, with the plugin's record as its result.
  abbrev pub run_calls : List Call → Option (ConnectionInfo v) → M S (HttpPriv S)
  run_calls calls c = do (h, _) ← answer_all v config calls http c; pure h

  run_calls-step :
      (call : Call) (calls : List Call) (c : Option (ConnectionInfo v)) (w : World S)
      {c' : Option (ConnectionInfo v)} {w' : World S}
      → answer_to_connection v config call http c w ≡ done (http, c') w'
      → run_calls (call ∷ calls) c w ≡ run_calls calls c' w'
  unfolding answer_all
  run_calls-step call calls c w e =
      ap
        (λ (r : Run S (HttpPriv S × Option (ConnectionInfo v))). elim r [
          | done (h, _) w' ↦ done h w'
          | aborted ↦ aborted
          | oversized cmd ↦ oversized cmd
        ])
        (>>=-done (answer_to_connection v config call http c)
          (λ r. answer_all v config calls r.0 r.1) w e)

  module _ (writable : config.r_arg ≡ false)
      (method : (parse_method last.method == m_options) ≡ false) (lp : HttpListener S)
      (arg : Option Str)
      (selected : select_listener last.url (parse_method last.method) http.listener
        ≡ some (lp, arg))
      (finished : last.upload ≡ []) where
    abbrev reached : Str → M S (HttpPriv S)
    reached body = do lp.cb (request_with body) arg; pure http

    last_call :
        (b : v.Vsb) (w : World S)
        → run_calls (last ∷ []) (some (record { req_body = some b; authed = true })) w
          ≡ reached (v.vsb_data b) (record w { trace = logged 2 ∷ w.trace })
    unfolding answer_all answer_to_connection answer_again answer_request request_of check_auth
        find_listener log
    last_call b w = ground arith

    upload_call :
        (p : Chunk) (b : v.Vsb) (w : World S)
        → answer_to_connection v config
            (record last { upload = chunk_bytes p })
            http
            (some (record { req_body = some b; authed = true }))
            w
          ≡ done
              (
                http,
                some (record { req_body = some (v.vsb_bcat b (chunk_bytes p)); authed = true }),
              )
              (record w { trace = logged 2 ∷ w.trace })
    unfolding answer_to_connection answer_again store_upload log
    upload_call p b w = ground arith

    collect :
        (chunks : List Chunk) (b : v.Vsb) (w : World S)
        → run_calls
            (request_calls last chunks)
            (some (record { req_body = some b; authed = true }))
            w
          ≡ reached
              (v.vsb_data b ++ joined chunks)
              (record w { trace = log_lines (suc (length chunks)) w.trace })
    collect [] b w = rw append-nil (last_call b w)
    collect (p ∷ ps) b w =
        let ih =
          collect ps (v.vsb_bcat b (chunk_bytes p)) (record w { trace = logged 2 ∷ w.trace }) in
        run_calls-step _ _ _ w (upload_call p b w)
        ∙ (rw (laws.data-bcat b (chunk_bytes p), append_assoc) at ih)

    first_call :
        (w : World S)
        → has_token config last.connection ≡ true
        → answer_to_connection v config last http none w
          ≡ done
              (http, some (record { req_body = some v.vsb_new_auto; authed = true }))
              (record w { trace = logged 2 ∷ w.trace })
    unfolding answer_to_connection open_connection check_auth log
    first_call w token = ground arith

    -- Where the mode is not read-only, a request with the credentials, by another method than
    -- OPTIONS, to a listener that `select_listener` finds, ends as the
    -- callback of that listener ends, called once, after the last call, on the request's whole
    -- body, the parts that were uploaded joined in order, with the argument of its URL. Besides
    -- what the callback does, each call leaves one line in the log.
    pub answer_all-callback :
        (chunks : List Chunk) (w : World S)
        → has_token config last.connection ≡ true
        → run_calls (last ∷ request_calls last chunks) none w
          ≡ reached
              (joined chunks)
              (record w { trace = log_lines (suc (suc (length chunks))) w.trace })
    answer_all-callback chunks w token =
        let rest = collect chunks v.vsb_new_auto (record w { trace = logged 2 ∷ w.trace }) in
        run_calls-step _ _ _ w (first_call w token) ∙ (rw laws.data-new at rest)
