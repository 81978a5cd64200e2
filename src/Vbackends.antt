-- ===== src/Vbackends.antt =====
-- src/modules/vbackends.c: the list of backends as JSON, and their administrative health.
pub mod Separators
use vagent.Prelude.{
  zero, suc, ℕ, ◌+◌, List, [], ◌∷◌, ◌++◌, Option, none, some, Str, text, ltb, ◌==◌, if◌then◌else◌,
  length, show_ptr, strtok,
}
use vagent.Exec.{aborted, M, Peers, ◌>>=◌, ipc_run}
use vagent.Foreign.{VsbOps}
use vagent.Http.{HttpRequest, http_reply, http_mkresp, http_add_header, send_response, m_put}
use vagent.Helpers.{run_and_respond, first_line, c_str}

-- struct backend_opt as strtok_r fills it: a column that is missing is NULL.
pub record BackendOpt : Type 0 where
  pub name : Option Str
  pub admin : Option Str
  pub probe : Option Str
  pub probe_extra : Option Str

-- The next token of a position; none is left at NULL.
abbrev pub next_tok : ℕ → Option Str → Option Str × Option Str
next_tok c none = (none, none)
next_tok c (some s) = elim (strtok c s) [
  | none ↦ (none, none)
  | some (t, rest) ↦ (some t, some rest)
]

unfoldable pub parse_backend : Str → BackendOpt
parse_backend line =
    let (name, p₁) = next_tok b' ' (some line) in
    let (admin, p₂) = next_tok b' ' p₁ in
    let (probe, p₃) = next_tok b' ' p₂ in
    let (extra, _) = next_tok b'\n' p₃ in
    record { name = name; admin = admin; probe = probe; probe_extra = extra }

unfoldable pub format_line : Str → Str
unfolding parse_backend
format_line line =
    let b = parse_backend line in
    text "\t{\n\t\t\"name\": \""
    ++ show_ptr b.name
    ++ text "\",\n\t\t\"admin\": \""
    ++ show_ptr b.admin
    ++ text "\",\n\t\t\"probe\": \""
    ++ show_ptr b.probe
    ++ text " "
    ++ show_ptr b.probe_extra
    ++ text "\"\n\t}"

-- The lines of the answer, as strtok cuts them.
unfoldable pub lines_on : ℕ → Str → List Str
lines_on zero s = []
lines_on (suc fuel) s = elim (strtok b'\n' s) [
  | none ↦ []
  | some (t, rest) ↦ t ∷ lines_on fuel rest
]

-- The loop of vbackends_show_json over the lines. `sum` is the length of the lines so far, the first
-- counted twice; a line longer than `tmp` overflows it, which is `none`. A comma follows while `sum`
-- is below the length of the whole answer.
unfoldable pub backend_entries : ℕ → ℕ → ℕ → List Str → Option Str
backend_entries raw_len sum cont [] = some []
backend_entries raw_len sum cont (line ∷ lines) =
    let rest : Option Str = backend_entries raw_len (sum + length line) (suc cont) lines in
    let comma : Str = if ltb (sum + length line) raw_len then text ",\n" else [] in
    if ltb (length line) 1000
    then elim rest [
      | none ↦ none
      | some out ↦ some ((if ltb 0 cont then format_line line ++ comma else []) ++ out)
    ]
    else none

-- What vbackends_show_json writes. An answer with no line is a NULL that strlen follows.
unfoldable pub vbackends_show_json : Str → Option Str
vbackends_show_json raw = elim (lines_on (suc (length raw)) raw) [
  | [] ↦ none
  | line ∷ lines ↦ elim (backend_entries (length raw) (length line) 0 (line ∷ lines)) [
    | none ↦ none
    | some out ↦ some (text "{\n \"backends\" : [\n" ++ (out ++ text "\n]\n}\n"))
  ]
]

module _ (v : VsbOps) {S : Type 0} (peers : Peers S) where
  open v use {vsb_new_auto, vsb_bcat, vsb_data}

  -- The reply of a listing, once it is written to a buffer; a fault aborts.
  unfoldable pub reply_json : HttpRequest → Option Str → M S (Unit {0})
  reply_json request none = λ _. aborted
  reply_json request (some json) = send_response (
      http_add_header
        (http_mkresp request.connection 200 (some (vsb_data (vsb_bcat vsb_new_auto json))))
        (text "Content-Type") (text "application/json"))

  unfoldable pub backends_json : HttpRequest → M S (Unit {0})
  backends_json request = do
    vret ← ipc_run peers (text "backend.list")
    if vret.status == 200
        then reply_json request (vbackends_show_json (c_str vret.answer))
        else http_reply request.connection 500 (some vret.answer)

  unfoldable pub vbackends_json_reply : HttpRequest → Option Str → M S (Unit {0})
  vbackends_json_reply request arg = backends_json request

module _ {S : Type 0} (peers : Peers S) where
  unfoldable pub vbackends_reply : HttpRequest → Option Str → M S (Unit {0})
  vbackends_reply request arg =
      if request.method == m_put
      then elim arg [
        | none ↦ http_reply request.connection 500 (some (text "Failed"))
        | some a ↦ do
          body ← first_line request
          run_and_respond peers request.connection
              (text "backend.set_health " ++ (a ++ (text " " ++ body)))
      ]
      else λ _. aborted
