-- ===== src/Http/Connection/Auth.antt =====
-- Requests without the credentials, and requests in read-only mode: answer_to_connection of
-- src/modules/http.c never gets to a callback.
use vagent.Prelude.{
  ◌∷◌, ◌==◌, refl, true, List, ◌≡◌, ◌⊎◌, [], false, Option, none, some, arith, All, Bool,
}
use vagent.Exec.{Ends-bind, World, Event, ran, fetched, replied, logged, Ends, log}
use vagent.Foreign.{VsbOps}
use vagent.Http.{
  m_options, m_get, parse_method, respond, http_mkresp, http_add_header, send_response, http_reply,
  http_reply_len,
}
use vagent.Http.Connection.{
  answer_all, HttpConfig, HttpPriv, Call, ConnectionInfo, has_token, check_auth, open_connection,
  store_upload, request_of, send_auth_response, answer_request, answer_again, answer_to_connection,
}

-- An event of a request that is turned away, where `r_arg` says that the mode is read-only and
-- `preflight` that its method is OPTIONS: a line in the log; an empty 200, to OPTIONS alone; 401, to
-- any other method; or 405, in read-only mode. No command to varnishd or the VAC.
abbrev pub IsRefusal : Bool → Bool → Event → Type 0
IsRefusal r_arg preflight (ran cmd ret) = ⊥
IsRefusal r_arg preflight (fetched cmd ret) = ⊥
IsRefusal r_arg preflight (replied r) =
    ((preflight ≡ true) × (r.status ≡ 200) × (r.body ≡ []))
    ⊎ (((preflight ≡ false) × (r.status ≡ 401))
        ⊎ ((r_arg ≡ true) × (preflight ≡ false) × (r.status ≡ 405)))
IsRefusal r_arg preflight (logged level) = Unit

module _ (v : VsbOps) where
  -- No body is collected for the connection, and it is not authorised.
  abbrev pub IsAnonymous : Option (ConnectionInfo v) → Type 0
  IsAnonymous none = Unit
  IsAnonymous (some c) = (c.authed ≡ false) × (c.req_body ≡ none)

  module _ {S : Type 0} (config : HttpConfig) (http : HttpPriv S) where
    -- The plugin's own record is as before, and the connection and the world have the property.
    abbrev pub Keeps :
        (Option (ConnectionInfo v) → World S → Type 0)
        → HttpPriv S × Option (ConnectionInfo v)
        → World S
        → Type 0
    Keeps P r w = (r.0 ≡ http) × P r.1 w

    -- What every call of a kind keeps, a sequence of such calls keeps.
    answer_all_induction :
        (P : Option (ConnectionInfo v) → World S → Type 0) (Kind : Call → Type 0)
        → ((call : Call) (c : Option (ConnectionInfo v)) (w : World S)
            → Kind call
            → P c w
            → Ends (Keeps P) (answer_to_connection v config call http c w))
        → (calls : List Call) (c : Option (ConnectionInfo v)) (w : World S) → All Kind calls
        → P c w
        → Ends (Keeps P) (answer_all v config calls http c w)
    unfolding answer_all
    answer_all_induction P Kind step [] c w kinds p = (refl, p)
    answer_all_induction P Kind step (call ∷ calls) c w kinds p =
        Ends-bind (Keeps P) (Keeps P) (answer_to_connection v config call http c)
          (λ r. answer_all v config calls r.0 r.1) w (step call c w kinds.0 p)
          (λ r w' k. rw k.0 (answer_all_induction P Kind step calls r.1 w' kinds.1 k.1))

    module _ (s : S) (preflight : Bool) where
      -- A call with no credentials in its headers, by OPTIONS or by another method.
      abbrev pub IsUnauthorised : Call → Type 0
      IsUnauthorised call =
          (has_token config call.connection ≡ false)
          × ((parse_method call.method == m_options) ≡ preflight)

      -- What holds of a connection that has been turned away so far.
      pub record IsTurnedAway (c : Option (ConnectionInfo v)) (w : World S) : Type 0 where
        pub anonymous : IsAnonymous c
        pub untouched : w.peer ≡ s
        pub refusals : All (IsRefusal config.r_arg preflight) w.trace

      answer_to_connection-IsTurnedAway :
          (call : Call) (c : Option (ConnectionInfo v)) (w : World S)
          → IsUnauthorised call
          → IsTurnedAway c w
          → Ends (Keeps IsTurnedAway) (answer_to_connection v config call http c w)
      unfolding answer_to_connection answer_again answer_request check_auth open_connection
          store_upload request_of send_auth_response send_response respond http_reply http_reply_len
          http_mkresp http_add_header log
      answer_to_connection-IsTurnedAway call none w anon t = ground arith
      answer_to_connection-IsTurnedAway call (some c) w anon t = ground arith

      -- Whatever calls libmicrohttpd makes for a request whose headers never hold the credentials, all
      -- by OPTIONS or all by other methods,
      -- the run ends, the http plugin and the peers behind it are as before, no body has been
      -- collected, and all that was done is to log and to reply: an empty 200 to OPTIONS; to any other
      -- method 401, or 405 where the mode is read-only.
      pub answer_all-IsTurnedAway :
          (calls : List Call)
          → All IsUnauthorised calls
          → Ends
              (Keeps IsTurnedAway)
              (answer_all v config calls http none (record { peer = s; trace = [] }))
      answer_all-IsTurnedAway calls anon =
          answer_all_induction IsTurnedAway _ answer_to_connection-IsTurnedAway calls none _ anon
            (record { anonymous = tt; untouched = refl; refusals = tt })

    module _ (s : S) where
      -- The call comes with a method that is neither GET, HEAD nor OPTIONS.
      abbrev pub IsWriting : Call → Type 0
      IsWriting call =
          ((parse_method call.method == m_get) ≡ false)
          × ((parse_method call.method == m_options) ≡ false)

      abbrev pub IsIdle : Option (ConnectionInfo v) → World S → Type 0
      IsIdle c w = (w.peer ≡ s) × All (IsRefusal true false) w.trace

      read_only_call :
          config.r_arg ≡ true
          → (call : Call) (c : Option (ConnectionInfo v)) (w : World S) → IsWriting call
          → IsIdle c w
          → Ends (Keeps IsIdle) (answer_to_connection v config call http c w)
      unfolding answer_to_connection answer_again http_reply http_reply_len send_response respond
          http_mkresp log
      read_only_call r call none w wr t = ground arith
      read_only_call r call (some c) w wr t = ground arith

      -- In read-only mode, calls with other methods than GET, HEAD and OPTIONS, authorised or not,
      -- leave the http plugin and the peers as they are, and do no more than log and reply 401 or 405.
      pub answer_all-read_only :
          config.r_arg ≡ true
          → (calls : List Call) (c : Option (ConnectionInfo v)) → All IsWriting calls
          → Ends (Keeps IsIdle) (answer_all v config calls http c (record { peer = s; trace = [] }))
      answer_all-read_only r calls c wr =
          answer_all_induction IsIdle IsWriting (read_only_call r) calls c _ wr (refl, tt)
