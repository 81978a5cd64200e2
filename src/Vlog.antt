-- ===== src/Vlog.antt =====
-- src/modules/vlog.c: queries of the log of varnishd. libvarnishapi is a parameter: what it finds in
-- the log, and where it fails, with its message.
pub mod Limit
use vagent.Prelude.{
  ℕ, ◌+◌, ◌-◌, ◌%◌, ◌^◌, List, [], ◌∷◌, ◌++◌, Bool, true, false, Option, none, some, Str, text, ltb,
  ◌==◌, if◌then◌else◌, cut_at, strchr, drop, length,
}
use vagent.Exec.{M, ◌>>=◌, ◌>>◌, aborted}
use vagent.Http.{HttpRequest, http_reply, http_mkresp, http_add_header, send_response}
use vagent.Ipc.{is_space, is_digit, atoi_digits}
use vagent.Vcl.Handlers.{decimal}

-- The names of vsl_t_names and vsl_r_names.
pub data VslType : Type 0 where
  t_unknown t_sess t_req t_bereq t_raw : VslType

pub data VslReason : Type 0 where
  r_unknown r_http_1 r_rxreq r_esi r_restart r_pass r_fetch r_bgfetch : VslReason

unfoldable pub vsl_t_names : VslType → Str
vsl_t_names t_unknown = text "unknown"
vsl_t_names t_sess = text "sess"
vsl_t_names t_req = text "req"
vsl_t_names t_bereq = text "bereq"
vsl_t_names t_raw = text "raw"

unfoldable pub vsl_r_names : VslReason → Str
vsl_r_names r_unknown = text "unknown"
vsl_r_names r_http_1 = text "HTTP/1"
vsl_r_names r_rxreq = text "rxreq"
vsl_r_names r_esi = text "esi"
vsl_r_names r_restart = text "restart"
vsl_r_names r_pass = text "pass"
vsl_r_names r_fetch = text "fetch"
vsl_r_names r_bgfetch = text "bgfetch"

-- A record of the log, with the result of VSL_Match.
pub record LogRecord : Type 0 where
  pub matches : Bool
  pub tag : Str
  pub cdata : Str

-- struct VSL_transaction, with the records that VSL_Next goes through.
pub record Transaction : Type 0 where
  pub vxid : ℕ
  pub type : VslType
  pub reason : VslReason
  pub records : List LogRecord

-- struct vlog_req_priv, without the limit and the handle.
pub record VlogReqPriv : Type 0 where
  pub answer : Str
  pub entries : ℕ

module _ (quote : Str → Str) where
  unfoldable pub entry_text : Transaction → LogRecord → Str
  entry_text t r =
      text "{ \"vxid\": \""
      ++ (decimal t.vxid
          ++ (text "\", \"tag\": \""
              ++ (r.tag
                  ++ (text "\", \"type\": \""
                      ++ (vsl_t_names t.type
                          ++ (text "\", \"reason\": \""
                              ++ (vsl_r_names t.reason
                                  ++ (text "\", \"value\": " ++ (quote r.cdata ++ text "}")))))))))

  unfoldable pub add_entry : Str → VlogReqPriv → VlogReqPriv
  add_entry entry vrp = record {
    answer = vrp.answer ++ ((if vrp.entries == 0 then [] else text ",") ++ (text "\n" ++ entry));
    entries = vrp.entries + 1;
  }

  -- The inner loop of vlog_cb_func.
  unfoldable pub log_records : ℕ → Transaction → List LogRecord → VlogReqPriv → VlogReqPriv
  log_records limit t [] vrp = vrp
  log_records limit t (r ∷ rs) vrp = elim (ltb vrp.entries limit) [
    | false ↦ vrp
    | true ↦ log_records limit t rs (if r.matches then add_entry (entry_text t r) vrp else vrp)
  ]

  unfoldable pub vlog_cb_func : ℕ → List Transaction → VlogReqPriv → VlogReqPriv
  vlog_cb_func limit [] vrp = vrp
  vlog_cb_func limit (t ∷ ts) vrp = elim (ltb vrp.entries limit) [
    | false ↦ vrp
    | true ↦ vlog_cb_func limit ts (log_records limit t t.records vrp)
  ]

  -- What one VSLQ_Dispatch does: the transactions of each call of vlog_cb_func, and whether it
  -- returns 1.
  abbrev pub Dispatch : Type 0
  Dispatch = List (List Transaction) × Bool

  unfoldable pub dispatch_calls : ℕ → List (List Transaction) → VlogReqPriv → VlogReqPriv
  dispatch_calls limit [] vrp = vrp
  dispatch_calls limit (ts ∷ calls) vrp = dispatch_calls limit calls (vlog_cb_func limit ts vrp)

  -- The do loop of vlog_reply on the dispatches to come; `none` where it would call for another one.
  unfoldable pub dispatch_loop : ℕ → List Dispatch → VlogReqPriv → Option VlogReqPriv
  dispatch_loop limit [] vrp = none
  dispatch_loop limit ((calls, one) ∷ ds) vrp =
      let vrp' : VlogReqPriv = dispatch_calls limit calls vrp in
      elim one [
        | false ↦ some vrp'
        | true ↦ elim (ltb vrp'.entries limit) [
          | false ↦ some vrp'
          | true ↦ dispatch_loop limit ds vrp'
        ]
      ]

  abbrev pub no_entries : VlogReqPriv
  no_entries = record { answer = text "{ \"log\": ["; entries = 0 }

  -- The document for a query.
  unfoldable pub log_json : ℕ → List Dispatch → Option Str
  log_json limit ds = elim (dispatch_loop limit ds no_entries) [
    | none ↦ none
    | some vrp ↦ some (vrp.answer ++ text "\n] }\n")
  ]

-- next_slash
unfoldable pub next_slash : Str → Option Str
next_slash p = elim (strchr b'/' p) [
  | none ↦ none
  | some s ↦ elim (drop 1 s) [ [] ↦ none | c ∷ t ↦ some (c ∷ t) ]
]

-- sscanf(s, "%u", &limit) for numbers of 64 bits: a sign may stand before the digits.
unfoldable pub scan_digits : Bool → Str → Option ℕ
scan_digits minus [] = none
scan_digits minus (c ∷ s) =
    let n : ℕ = atoi_digits (c ∷ s) 0 % 2 ^ 32 in
    if is_digit c then some (if minus then (2 ^ 32 - n) % 2 ^ 32 else n) else none

unfoldable pub scan_unsigned : Str → Option ℕ
scan_unsigned [] = none
scan_unsigned (c ∷ s) =
    let rest = scan_unsigned s in
    if is_space c
    then rest
    else if c == b'+'
    then scan_digits false s
    else if c == b'-'
    then scan_digits true s
    else scan_digits false (c ∷ s)

pub record LogArgs : Type 0 where
  pub limit : ℕ
  pub tag : Option Str
  pub tag_re : Option Str

-- The part of the URL up to the next slash, and the position behind it.
abbrev pub url_part : Option Str → Option Str × Option Str
url_part none = (none, none)
url_part (some p) = (some (cut_at b'/' p), next_slash p)

-- The parts of the argument; `none` where the limit is not a number.
unfoldable pub log_args : Option Str → Option LogArgs
log_args none = some (record { limit = 10; tag = none; tag_re = none })
log_args (some p) = elim (scan_unsigned (cut_at b'/' p)) [
  | none ↦ none
  | some n ↦
      let (tag, p') = url_part (next_slash p) in
      let (tag_re, p'') = url_part p' in some (record { limit = n; tag = tag; tag_re = tag_re })
]

-- libvarnishapi. A step that fails comes with its message.
pub record VslApi : Type 0 where
  pub n_arg : Str → Option Str
  pub open_log : Option Str
  pub tag_arg : Str → Option Str
  pub cursor : Option Str
  pub query : LogArgs → Option Str
  -- what is dispatched; the grouping is raw where there is a tag
  pub dispatches : LogArgs → List (List (List Transaction) × Bool)

-- The first step that fails and is answered, with the text of the response.
unfoldable pub tag_failure : VslApi → LogArgs → Option Str
tag_failure api args = elim args.tag [
  | none ↦ none
  | some tag ↦ elim (api.tag_arg tag) [
    | none ↦ none
    | some e ↦ some (text "Unable to specify tag '" ++ (tag ++ (text "': " ++ e)))
  ]
]

unfoldable pub log_failure : VslApi → Str → LogArgs → Option Str
log_failure api n args = elim (api.n_arg n) [
  | some e ↦ some (text "Error in creating shmlog: " ++ e)
  | none ↦ elim api.open_log [
    | some e ↦ some (text "Error in opening shmlog: " ++ e)
    | none ↦ elim (tag_failure api args) [
      | some e ↦ some e
      | none ↦ elim api.cursor [
        | some e ↦ some (text "Can't open log (" ++ (e ++ text ")"))
        | none ↦ none
      ]
    ]
  ]
]

module _ (quote : Str → Str) (api : VslApi) (n_arg : Str) {S : Type 0} where
  -- The document, if it has more than a byte. A loop that goes on for ever is an abort.
  unfoldable pub send_log : HttpRequest → Option Str → M S (Unit {0})
  send_log request none = λ _. aborted
  send_log request (some json) =
      if ltb 1 (length json)
      then send_response (
          http_add_header (http_mkresp request.connection 200 (some json)) (text "Content-Type")
            (text "application/json"))
      else http_reply request.connection 500 (some (text "FAIL"))

  -- Where the query is refused, the message is read by VSB_data from a buffer that was not finished,
  -- and the assert of vsb.c on that aborts.
  unfoldable pub query_log : HttpRequest → LogArgs → M S (Unit {0})
  query_log request args = elim (log_failure api n_arg args) [
    | some e ↦ http_reply request.connection 500 (some e)
    | none ↦ elim (api.query args) [
      | some e ↦ λ _. aborted
      | none ↦ send_log request (log_json quote args.limit (api.dispatches args))
    ]
  ]

  unfoldable pub vlog_reply : HttpRequest → Option Str → M S (Unit {0})
  vlog_reply request arg = elim (log_args arg) [
    | none ↦ http_reply request.connection 500 (some (text "Not a number"))
    | some args ↦ query_log request args
  ]
