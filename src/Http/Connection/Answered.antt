-- ===== src/Http/Connection/Answered.antt =====
-- Every request is answered: the calls of answer_to_connection in src/modules/http.c for one request.
use mathlib.Core.Path.{subst}
use vagent.Prelude.{
  sym, Str, suc, ◌≡◌, refl, ◌⊎◌, inl, inr, List, [], ◌∷◌, Bool, true, false, not, ◌&&◌, Option,
  none, some, ◌==◌, if◌then◌else◌, is_some, All, Bool-cases, arith,
}
use vagent.Exec.{>>=-done, World, M, EndsOr, EndsOr-bind, logged, log, done, ◌>>=◌, pure}
use vagent.Foreign.{VsbOps}
use vagent.Helpers.Respond.{once_rules, OnceOr, Once-then, Silent-pure, Once-send, replies}
use vagent.Http.{
  listener_arg, has_method, Connection, HttpRequest, HttpListener, select_listener, find_listener,
  parse_method, m_get, m_options,
}
use vagent.Http.Connection.{
  HttpConfig, HttpPriv, Call, ConnectionInfo, has_token, check_auth, open_connection, store_upload,
  request_of, answer_request, answer_again, answer_to_connection, answer_all, send_auth_response,
  reply_help,
}
use vagent.Http.Connection.Body.{Chunk, chunk_bytes, request_calls}
use vagent.Http.Connection.Listeners.{Answers, Found, find_listener-Found, Once-reply_help}

module _ (v : VsbOps) (config : HttpConfig) where
  -- The body is collected and the request authorised; or its headers hold no credentials.
  abbrev Sound : ConnectionInfo v → Bool → Connection → Type 0
  Sound con_info body conn =
      ((body ≡ true) × (con_info.authed ≡ true))
      ⊎ ((con_info.authed ≡ false) × (has_token config conn ≡ false))

  check-authed :
      (conn : Connection) (con_info : ConnectionInfo v)
      → con_info.authed ≡ true
      → check_auth v config conn con_info ≡ (con_info, false)
  unfolding check_auth
  check-authed conn con_info e = ground arith

  check-refused :
      (conn : Connection) (con_info : ConnectionInfo v)
      → con_info.authed ≡ false
      → has_token config conn ≡ false
      → check_auth v config conn con_info ≡ (con_info, true)
  unfolding check_auth
  check-refused conn con_info e refused = ground arith

  -- Whether the read-only mode turns the method away.
  abbrev pub turned_away : Str → Bool
  turned_away method =
      config.r_arg && (not (parse_method method == m_get) && not (parse_method method == m_options))

  -- The request of a call, with the body that was collected.
  abbrev pub asked : Call → Option Str → HttpRequest
  asked call body = record {
    connection = call.connection;
    method = parse_method call.method;
    url = call.url;
    body = body;
  }

  Sound-request :
      (con_info : ConnectionInfo v) (call : Call)
      → Sound con_info (is_some con_info.req_body) call.connection
      → Sound con_info
          (is_some (request_of v con_info call (parse_method call.method)).body)
          call.connection
  unfolding request_of
  Sound-request con_info call (inl (b, a)) = inl (ground arith, a)
  Sound-request con_info call (inr r) = inr r

  Sound-store :
      (con_info : ConnectionInfo v) (upload : Str) (conn : Connection)
      → Sound con_info (is_some con_info.req_body) conn
      → Sound
          (store_upload v con_info upload)
          (is_some (store_upload v con_info upload).req_body)
          conn
  unfolding store_upload
  Sound-store con_info upload conn (inl (b, a)) = inl (ground arith, a)
  Sound-store con_info upload conn (inr r) = inr r

  Sound-open :
      (conn : Connection)
      → Sound
          (open_connection v config conn)
          (is_some (open_connection v config conn).req_body)
          conn
  unfolding open_connection check_auth
  Sound-open conn = elim (Bool-cases (has_token config conn)) [
    | inl e ↦ inl (ground arith, ground arith)
    | inr e ↦ inr (ground arith, e)
  ]

  module _ {S : Type 0} (C : Type 0) where
    -- What answer_request does with the outcome of find_listener.
    abbrev after_find :
        HttpRequest → HttpPriv S → ConnectionInfo v → Bool → M S (HttpPriv S × ConnectionInfo v)
    after_find request http con_info found = do
      http' ← if found then pure http else reply_help v request http
      pure (http', con_info)

    Found-answered :
        (request : HttpRequest) (http : HttpPriv S) (con_info : ConnectionInfo v) (w : World S)
        (found : Bool) (w' : World S)
        → Found C w found w'
        → EndsOr C
            (λ a w''. replies w''.trace ≡ suc (replies w.trace))
            (after_find request http con_info found w')
    Found-answered request http con_info w true w' p = p
    Found-answered request http con_info w false w' p =
        let once : OnceOr {A = HttpPriv S × ConnectionInfo v} C
            (reply_help v request http >>= (λ http'. pure (http', con_info))) =
          Once-then _ _ (Once-reply_help C v request http) (λ http'. Silent-pure _) in
        rw p at (once.run w')

    Once-auth : (conn : Connection) → OnceOr {S = S} C (send_auth_response conn)
    unfolding send_auth_response
    Once-auth conn = Once-send _

    Once-find :
        (request : HttpRequest) (http : HttpPriv S) (con_info : ConnectionInfo v)
        → All (Answers C request) http.listener
        → is_some request.body ≡ true
        → OnceOr {A = HttpPriv S × ConnectionInfo v} C (do
          found ← find_listener request http.listener
          http' ← if found then pure http else reply_help v request http
          pure (http', con_info))
    Once-find request http con_info h b = record {
      run = λ w.
          EndsOr-bind C (Found C w) (λ a w'. replies w'.trace ≡ suc (replies w.trace))
            (find_listener request http.listener) _ w
            (find_listener-Found C http.listener request w h b)
            (Found-answered request http con_info w);
    }

    Once-answer_request :
        (request : HttpRequest) (http : HttpPriv S) (con_info : ConnectionInfo v)
        → All (Answers C request) http.listener
        → Sound con_info (is_some request.body) request.connection
        → OnceOr C (answer_request v config request http con_info)
    unfolding answer_request vagent.Http.http_reply find_listener
    Once-answer_request request http con_info h (inl (b, a)) =
        rw (check-authed request.connection con_info a)
          (search (once_rules, Once-find request http con_info h b) depth 7)
    Once-answer_request request http con_info h (inr (a, t)) =
        rw (check-refused request.connection con_info a t)
          (search (once_rules, Once-then, Once-auth request.connection) depth 7)

    Once-last :
        (call : Call) (http : HttpPriv S) (con_info : ConnectionInfo v)
        → ((body : Option Str) → All (Answers C (asked call body)) http.listener)
        → Sound con_info (is_some con_info.req_body) call.connection
        → call.upload ≡ []
        → turned_away call.method ≡ false
        → OnceOr C (answer_to_connection v config call http (some con_info))
    unfolding answer_to_connection answer_again request_of
    Once-last call http con_info h s end writable =
        let once =
          Once-answer_request (request_of v con_info call (parse_method call.method)) http con_info
            (h _) (Sound-request con_info call s) in
        rw (writable, end) (search (once_rules, Once-then, once) depth 7)

    all_step :
        (call : Call) (calls : List Call) (http : HttpPriv S) (c : Option (ConnectionInfo v))
        (w : World S) {r : HttpPriv S × Option (ConnectionInfo v)} {w' : World S}
        → answer_to_connection v config call http c w ≡ done r w'
        → answer_all v config (call ∷ calls) http c w ≡ answer_all v config calls r.0 r.1 w'
    unfolding answer_all
    all_step call calls http c w e =
        >>=-done (answer_to_connection v config call http c)
          (λ r. answer_all v config calls r.0 r.1) w e

    upload_step :
        (call : Call) (p : Chunk) (http : HttpPriv S) (con_info : ConnectionInfo v) (w : World S)
        → turned_away call.method ≡ false
        → answer_to_connection v config
            (record call { upload = chunk_bytes p })
            http
            (some con_info)
            w
          ≡ done
              (http, some (store_upload v con_info (chunk_bytes p)))
              (record w { trace = logged 2 ∷ w.trace })
    unfolding answer_to_connection answer_again log
    upload_step call p http con_info w writable = ground arith

    Once-parts :
        (last : Call) (chunks : List Chunk) (http : HttpPriv S) (con_info : ConnectionInfo v)
        → ((body : Option Str) → All (Answers C (asked last body)) http.listener)
        → Sound con_info (is_some con_info.req_body) last.connection
        → last.upload ≡ []
        → turned_away last.method ≡ false
        → OnceOr C (answer_all v config (request_calls last chunks) http (some con_info))
    unfolding answer_all
    Once-parts last [] http con_info h s end writable =
        Once-then _ _ (Once-last last http con_info h s end writable) (λ r. Silent-pure r)
    Once-parts last (p ∷ ps) http con_info h s end writable =
        let later =
          Once-parts last ps http (store_upload v con_info (chunk_bytes p)) h
            (Sound-store con_info (chunk_bytes p) last.connection s) end writable in
        record {
          run = λ w.
              subst (EndsOr C (λ a w'. replies w'.trace ≡ suc (replies w.trace)))
                (sym (
                  all_step _ (request_calls last ps) http (some con_info) w
                    (upload_step last p http con_info w writable)))
                (later.run (record w { trace = logged 2 ∷ w.trace }));
        }

    first_step :
        (call : Call) (http : HttpPriv S) (w : World S)
        → answer_to_connection v config call http none w
          ≡ done
              (http, some (open_connection v config call.connection))
              (record w { trace = logged 2 ∷ w.trace })
    unfolding answer_to_connection log
    first_step call http w = refl

    -- If each listener that serves the last call queues exactly one response to it, whatever body was
    -- collected, or aborts where `C` allows it, then so do the calls for one request, its first, one
    -- for each part of its body, and the last: with the credentials or without, to any URL and by any
    -- method that the read-only mode lets through.
    pub answer_all-Once :
        (last : Call) (chunks : List Chunk) (http : HttpPriv S)
        → ((body : Option Str) → All (Answers C (asked last body)) http.listener)
        → last.upload ≡ []
        → turned_away last.method ≡ false
        → OnceOr C (answer_all v config (last ∷ request_calls last chunks) http none)
    unfolding answer_all
    answer_all-Once last chunks http h end writable =
        let later =
          Once-parts last chunks http (open_connection v config last.connection) h
            (Sound-open last.connection) end writable in
        record {
          run = λ w.
              subst (EndsOr C (λ a w'. replies w'.trace ≡ suc (replies w.trace)))
                (sym
                  (all_step last (request_calls last chunks) http none w (first_step last http w)))
                (later.run (record w { trace = logged 2 ∷ w.trace }));
        }
