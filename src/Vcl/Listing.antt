-- ===== src/Vcl/Listing.antt =====
-- The readers of varnishd's "vcl.list" in src/modules/vcl.c: vcl_active and vcl_list_json.
pub mod ActiveName
use vagent.Prelude.{
  ℕ, zero, suc, ◌+◌, ◌≡◌, List, [], ◌∷◌, ◌++◌, Bool, true, false, not, ◌&&◌, ◌||◌, Option, none,
  some, Str, text, ltb, ◌==◌, if◌then◌else◌, length, take, drop, starts_with, strtok, strchr,
}
use vagent.Exec.{IpcRet, M, Peers, ◌>>=◌, ◌>>◌, pure, assert, ipc_run}
use vagent.Foreign.{VsbOps}
use vagent.Http.{HttpRequest, http_reply, http_mkresp, http_add_header, send_response, m_get}
use vagent.Helpers.{c_str}
use vagent.Exec.{aborted, done}

-- The array `tok` of vcl_active, of which four are filled at most, and the position `last`.
pub record Columns : Type 0 where
  pub tok0 : Option Str
  pub tok1 : Option Str
  pub tok2 : Option Str
  pub tok3 : Option Str

-- `*tp = strtok_r(p, " ", &last)` for tp = &tok[k].
unfoldable pub set_tok : ℕ → Option Str → Columns → Columns
set_tok zero t c = record c { tok0 = t }
set_tok (suc zero) t c = record c { tok1 = t }
set_tok (suc (suc zero)) t c = record c { tok2 = t }
set_tok (suc (suc (suc k))) t c = record c { tok3 = t }

-- The inner loop, from column `k`: `left` columns are left. Where the line ends, the next column
-- is set to NULL.
unfoldable pub fill_columns : ℕ → ℕ → Str → Columns → Columns × Str
fill_columns zero k line c = (c, line)
fill_columns (suc left) k line c = elim (strtok b' ' line) [
  | none ↦ (set_tok k none c, [])
  | some (t, rest) ↦ fill_columns left (suc k) rest (set_tok k (some t) c)
]

-- The outer loop. Behind an active line it goes on from where the inner loop stopped.
unfoldable pub active_columns : ℕ → Str → Columns → Columns
active_columns zero s c = c
active_columns (suc fuel) s c = elim (strtok b'\n' s) [
  | none ↦ c
  | some (line, rest) ↦ elim (starts_with line (text "active")) [
    | false ↦ active_columns fuel rest c
    | true ↦ let (c', rest') = fill_columns 4 0 line c in active_columns fuel rest' c'
  ]
]

abbrev pub no_columns : Columns
no_columns = record { tok0 = none; tok1 = none; tok2 = none; tok3 = none }

-- The name that is replied, if the third and the fourth column were found.
unfoldable pub active_name : Str → Option Str
active_name answer =
    let c = active_columns (suc (length answer)) answer no_columns in
    elim c.tok2 [ none ↦ none | some t ↦ c.tok3 ]

module _ {S : Type 0} (peers : Peers S) where
  -- The name, if one was found.
  unfoldable pub reply_active : HttpRequest → Option Str → M S (Unit {0})
  reply_active request none = http_reply request.connection 500 (some (text "No active VCL"))
  reply_active request (some name) = http_reply request.connection 200 (some name)

  unfoldable pub vcl_active : HttpRequest → Option Str → M S (Unit {0})
  vcl_active request arg = do
    assert (starts_with request.url (text "/vclactive"))
    assert (request.method == m_get)
    vret ← ipc_run peers (text "vcl.list")
    if vret.status == 400
        then http_reply request.connection 500 (some vret.answer)
        else reply_active request (active_name (c_str vret.answer))
