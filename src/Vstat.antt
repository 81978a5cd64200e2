-- ===== src/Vstat.antt =====
-- src/modules/vstat.c: the statistics of varnishd as JSON, on request and pushed to a URL. What
-- libvarnishapi and the clock give at a call is a record of its own.
pub mod Pushed
pub mod Sending
pub mod Refined
use vagent.Prelude.{
  ℕ, List, [], ◌∷◌, ◌++◌, Bool, true, false, not, ◌&&◌, ◌||◌, Option, none, some, Str, text, ◌==◌,
  if◌then◌else◌, strcmp_eq, length,
}
use vagent.Exec.{M, Peers, ◌>>=◌, ◌>>◌, pure, log, ipc_curl, aborted, done}
use vagent.Foreign.{VsbOps}
use vagent.Http.{HttpRequest, http_reply, http_mkresp, http_add_header, send_response}
use vagent.Helpers.{c_str}
use vagent.Vcl.Handlers.{decimal}

-- struct VSC_point with its section and description, as far as they are printed.
pub record VscPoint : Type 0 where
  pub ctype : Str
  pub type : Str
  pub ident : Str
  pub name : Str
  pub value : ℕ
  pub semantics : ℕ
  pub sdesc : Str

-- What a call finds: VSM_Abandoned, whether VSM_Open fails then, the time, and the points that
-- VSC_Iter goes through, NULL among them.
pub record Vsm : Type 0 where
  pub abandoned : Bool
  pub open_fails : Bool
  pub time_stamp : Str
  pub points : List (Option VscPoint)

abbrev pub with_dot : Str → Str
with_dot [] = []
with_dot (c ∷ s) = (c ∷ s) ++ text "."

abbrev pub optional : Str → Str → Str
optional key [] = []
optional key (c ∷ s) = text "\"" ++ (key ++ (text "\": \"" ++ ((c ∷ s) ++ text "\", ")))

unfoldable pub point_json : VscPoint → Str
point_json pt =
    text ",\n\t\""
    ++ (with_dot pt.type
        ++ (with_dot pt.ident
            ++ (pt.name
                ++ (text "\": {"
                    ++ (optional (text "type") pt.type
                        ++ (optional (text "ident") pt.ident
                            ++ (text "\"value\": "
                                ++ (decimal pt.value
                                    ++ (text ", \"flag\": \""
                                        ++ ((pt.semantics ∷ [])
                                            ++ (text "\", \"description\": \""
                                                ++ (pt.sdesc ++ text "\" }"))))))))))))

module _ {S : Type 0} where
  -- True where the log cannot be opened again.
  unfoldable pub check_reopen : Vsm → M S Bool
  check_reopen vsm = if vsm.abandoned && vsm.open_fails then (do log 2; pure true) else pure false

  unfoldable pub push_reply : HttpRequest → Bool → M S Unit
  push_reply request true = http_reply request.connection 200 (some (text "Stats pushed"))
  push_reply request false = http_reply request.connection 500 (some (text "Stats pushing failed"))

module _ (v : VsbOps) where
  open v use {Vsb, vsb_bcat, vsb_clear, vsb_data}

  -- `none`: the assert on the type of the counter fails.
  unfoldable pub do_json_cb : Vsb → Option VscPoint → Option Vsb
  do_json_cb out none = some out
  do_json_cb out (some pt) =
      if strcmp_eq pt.ctype (text "uint64_t") then some (vsb_bcat out (point_json pt)) else none

  -- VSC_Iter with do_json_cb, which always returns 0.
  unfoldable pub iterate : Vsb → List (Option VscPoint) → Option Vsb
  iterate out [] = some out
  iterate out (pt ∷ pts) = elim (do_json_cb out pt) [ none ↦ none | some out' ↦ iterate out' pts ]

  unfoldable pub do_json : Vsm → Vsb → Option Vsb
  do_json vsm out =
      let opened = vsb_bcat out (text "{\n\t\"timestamp\": \"" ++ (vsm.time_stamp ++ text "\"")) in
      elim (iterate opened vsm.points) [
        | none ↦ none
        | some out' ↦ some (vsb_bcat out' (text "\n}\n"))
      ]

  -- struct vstat_priv_t: the buffers of its two contexts, and the URL.
  pub record VstatPriv : Type 0 where
    pub http_vsb : Vsb
    pub timer_vsb : Vsb
    pub push_url : Option Str

  -- Which context a caller of push_stats passes.
  pub data Context : Type 0 where
    http_ctx timer_ctx : Context

  unfoldable pub ctx_vsb : Context → VstatPriv → Vsb
  ctx_vsb http_ctx priv = priv.http_vsb
  ctx_vsb timer_ctx priv = priv.timer_vsb

  unfoldable pub set_vsb : Context → Vsb → VstatPriv → VstatPriv
  set_vsb http_ctx b priv = record priv { http_vsb = b }
  set_vsb timer_ctx b priv = record priv { timer_vsb = b }

  module _ {S : Type 0} where
    unfoldable pub send_stats : HttpRequest → VstatPriv → Option Vsb → M S VstatPriv
    send_stats request priv none = λ _. aborted
    send_stats request priv (some b) = do
      send_response (
          http_add_header (http_mkresp request.connection 200 (some (vsb_data b)))
            (text "Content-Type") (text "application/json"))
      pure (record priv { http_vsb = vsb_clear b })

    unfoldable pub vstat_reply : Vsm → VstatPriv → HttpRequest → Option Str → M S VstatPriv
    vstat_reply vsm priv request arg = do
      failed ← check_reopen vsm
      if failed
          then (do
            http_reply request.connection 500 (some (text "Couldn't open shmlog"))
            pure priv)
          else send_stats request priv (do_json vsm priv.http_vsb)

  module _ {S : Type 0} (peers : Peers S) where
    -- From do_json on. The buffer is cleared whatever the answer is.
    unfoldable pub push_json : Context → Str → VstatPriv → Option Vsb → M S (Bool × VstatPriv)
    push_json ctx url priv none = λ _. aborted
    push_json ctx url priv (some b) = do
      vret ← ipc_curl peers (url ++ b'\n' ∷ c_str (vsb_data b))
      if vret.status == 200
          then pure (true, set_vsb ctx (vsb_clear b) priv)
          else (do log 2; pure (false, set_vsb ctx (vsb_clear b) priv))

    unfoldable pub push_to : Vsm → Context → Str → VstatPriv → M S (Bool × VstatPriv)
    push_to vsm ctx url priv = do
      failed ← check_reopen vsm
      if failed then pure (false, priv) else push_json ctx url priv (do_json vsm (ctx_vsb ctx priv))

    unfoldable pub push_at : Option Str → Vsm → Context → VstatPriv → M S (Bool × VstatPriv)
    push_at none vsm ctx priv = pure (false, priv)
    push_at (some []) vsm ctx priv = pure (false, priv)
    push_at (some (c ∷ s)) vsm ctx priv = push_to vsm ctx (c ∷ s) priv

    -- False for -1.
    unfoldable pub push_stats : Vsm → Context → VstatPriv → M S (Bool × VstatPriv)
    push_stats vsm ctx priv = push_at priv.push_url vsm ctx priv

    unfoldable pub vstat_push_test : Vsm → VstatPriv → HttpRequest → Option Str → M S VstatPriv
    vstat_push_test vsm priv request arg = do
      (ok, priv') ← push_stats vsm http_ctx priv
      push_reply request ok
      pure priv'

    unfoldable pub store_url : VstatPriv → HttpRequest → Option Str → M S VstatPriv
    store_url priv request none = λ _. aborted
    store_url priv request (some b) = do
      log 2
      http_reply request.connection 200 (some (text "Url stored"))
      pure (record priv { push_url = some (c_str b) })

    -- The URL is a copy of the body, which DUP_OBJ asserts to be there.
    unfoldable pub vstat_push_url : VstatPriv → HttpRequest → Option Str → M S VstatPriv
    vstat_push_url priv request arg = store_url priv request request.body

    -- A round of the timer's thread: true where it sleeps ten seconds more.
    unfoldable pub vstat_round : Vsm → VstatPriv → M S (Bool × VstatPriv)
    vstat_round vsm priv = do (ok, priv') ← push_stats vsm timer_ctx priv; pure (not ok, priv')
