-- ===== src/Vstat/Pushed.antt =====
-- src/modules/vstat.c without its buffers: what the statistics plugin promises.
use vagent.Helpers.{c_str}
use vagent.Vstat.{
  do_json, do_json_cb, iterate, point_json, vstat_round, vstat_push_url, push_reply,
  vstat_push_test, check_reopen, VscPoint, vstat_reply, VstatPriv, Vsm,
}
use vagent.Prelude.{
  not, arith, ◌∙◌, inl, inr, Bool-cases, refl, ap, sym, ◌==◌, strcmp_eq, text, ◌∷◌, ◌++◌, false, [],
  ◌≡◌, some, Bool, Option, Str, List,
}
use vagent.Http.{http_mkresp, http_add_header, send_response, http_reply, HttpRequest}
use vagent.Prelude.{none, true, if◌then◌else◌, text}
use mathlib.Core.List.{append-nil, append_assoc}
use vagent.Foreign.{VsbOps, IsBuffer}
use vagent.Exec.{M, Peers, aborted, ◌>>=◌, ◌>>◌, pure, log, ipc_curl}

abbrev behind : Str → Option Str → Option Str
behind s none = none
behind s (some t) = some (s ++ t)

behind-append : (s t : Str) (o : Option Str) → behind (s ++ t) o ≡ behind s (behind t o)
behind-append s t none = refl
behind-append s t (some u) = ap some (append_assoc s t u)

-- What one iteration over the points adds, where all are counters.
abbrev entries : List (Option VscPoint) → Option Str
entries [] = some []
entries (none ∷ pts) = entries pts
entries (some pt ∷ pts) =
    if strcmp_eq pt.ctype (text "uint64_t") then behind (point_json pt) (entries pts) else none

-- The JSON document of the statistics that a call finds.
abbrev closed : Option Str → Option Str
closed none = none
closed (some s) = some (s ++ text "\n}\n")

abbrev pub document : Vsm → Option Str
document vsm =
    closed
      (behind (text "{\n\t\"timestamp\": \"" ++ (vsm.time_stamp ++ text "\"")) (entries vsm.points))

module _ (v : VsbOps) where
  abbrev pub contents : Option v.Vsb → Option Str
  contents none = none
  contents (some b) = some (v.vsb_data b)

  module _ (laws : IsBuffer v) where
    iterate-counter :
        (pt : VscPoint) (pts : List (Option VscPoint)) (out : v.Vsb)
        → strcmp_eq pt.ctype (text "uint64_t") ≡ true
        → iterate v out (some pt ∷ pts) ≡ iterate v (v.vsb_bcat out (point_json pt)) pts
    unfolding iterate do_json_cb
    iterate-counter pt pts out e = ground arith

    iterate-contents :
        (pts : List (Option VscPoint)) (out : v.Vsb)
        → contents (iterate v out pts) ≡ behind (v.vsb_data out) (entries pts)
    unfolding iterate do_json_cb
    iterate-contents [] out = ap some (sym (append-nil (v.vsb_data out)))
    iterate-contents (none ∷ pts) out = iterate-contents pts out
    iterate-contents (some pt ∷ pts) out =
        elim (Bool-cases (strcmp_eq pt.ctype (text "uint64_t"))) [
          | inr e ↦ ground arith
          | inl e ↦
              let behind_pt = behind-append (v.vsb_data out) (point_json pt) (entries pts) in
              rw (e) (
                ap contents (iterate-counter pt pts out e)
                ∙ iterate-contents pts (v.vsb_bcat out (point_json pt))
                ∙ rw (laws.data-bcat out (point_json pt)) behind_pt)
        ]

    ended :
        (r : Option v.Vsb) (o : Option Str)
        → contents r ≡ o
        → contents (elim r [ none ↦ none | some out' ↦ some (v.vsb_bcat out' (text "\n}\n")) ])
          ≡ closed o
    ended none o e = ap closed e
    ended (some b) o e = ap some (laws.data-bcat b (text "\n}\n")) ∙ ap closed e

    pub do_json-contents :
        (vsm : Vsm) (out : v.Vsb)
        → v.vsb_data out ≡ []
        → contents (do_json v vsm out) ≡ document vsm
    unfolding do_json
    do_json-contents vsm out empty =
        ended
          (iterate v
            (v.vsb_bcat out (text "{\n\t\"timestamp\": \"" ++ (vsm.time_stamp ++ text "\"")))
            vsm.points)
          _
          (iterate-contents vsm.points _
            ∙ rw
                (
                  laws.data-bcat out
                      (text "{\n\t\"timestamp\": \"" ++ (vsm.time_stamp ++ text "\"")),
                  empty,
                )
                refl)

-- The calls of the plugin: its three handlers, and a round of its thread.
pub data Call : Type 0 where
  stats push_test push_url : HttpRequest → Option Str → Call
  round : Call

module _ {S : Type 0} where
  -- The state of the specification is the URL.
  abbrev pub reply_document : HttpRequest → Option Str → Option Str → M S (Option Str)
  reply_document request url none = λ _. aborted
  reply_document request url (some doc) = do
    send_response (
        http_add_header (http_mkresp request.connection 200 (some doc)) (text "Content-Type")
          (text "application/json"))
    pure url

  abbrev pub specified_stats : HttpRequest → Vsm → Option Str → M S (Option Str)
  specified_stats request vsm url = do
    failed ← check_reopen vsm
    if failed
        then (do http_reply request.connection 500 (some (text "Couldn't open shmlog")); pure url)
        else reply_document request url (document vsm)

  abbrev pub specified_url : HttpRequest → Option Str → M S (Option Str)
  specified_url request none = λ _. aborted
  specified_url request (some b) = do
    log 2
    http_reply request.connection 200 (some (text "Url stored"))
    pure (some (c_str b))

module _ {S : Type 0} (peers : Peers S) where
  abbrev pub upload_document : Str → Option Str → M S Bool
  upload_document url none = λ _. aborted
  upload_document url (some doc) = do
    vret ← ipc_curl peers (url ++ b'\n' ∷ c_str doc)
    if vret.status == 200 then pure true else (do log 2; pure false)

  abbrev pub specified_push : Vsm → Option Str → M S Bool
  specified_push vsm none = pure false
  specified_push vsm (some []) = pure false
  specified_push vsm (some (c ∷ s)) = do
    failed ← check_reopen vsm
    if failed then pure false else upload_document (c ∷ s) (document vsm)

  -- True where the thread sleeps ten seconds more.
  abbrev pub specified_round : Vsm → Option Str → M S Bool
  specified_round vsm url = do ok ← specified_push vsm url; pure (not ok)

  abbrev pub specified : Call → Vsm → Option Str → M S (Option Str)
  specified (stats request arg) vsm url = specified_stats request vsm url
  specified (push_test request arg) vsm url = do
    ok ← specified_push vsm url
    push_reply request ok
    pure url
  specified (push_url request arg) vsm url = specified_url request request.body
  specified round vsm url = do again ← specified_round vsm url; pure url

  abbrev pub all_specified : List (Call × Vsm) → Option Str → M S (Option Str)
  all_specified [] url = pure url
  all_specified ((call, vsm) ∷ calls) url = do
    url' ← specified call vsm url
    all_specified calls url'

  module _ (v : VsbOps) where
    abbrev pub run_call : Call → Vsm → VstatPriv v → M S (VstatPriv v)
    run_call (stats request arg) vsm priv = vstat_reply v vsm priv request arg
    run_call (push_test request arg) vsm priv = vstat_push_test v peers vsm priv request arg
    run_call (push_url request arg) vsm priv = vstat_push_url v peers priv request arg
    run_call round vsm priv = do (again, priv') ← vstat_round v peers vsm priv; pure priv'

    abbrev pub run_calls : List (Call × Vsm) → VstatPriv v → M S (VstatPriv v)
    run_calls [] priv = pure priv
    run_calls ((call, vsm) ∷ calls) priv = do priv' ← run_call call vsm priv; run_calls calls priv'

-- The private data stands for a URL: its buffers are empty.
abbrev pub Holds : (v : VsbOps) → VstatPriv v → Option Str → Type 0
Holds v priv url =
    (priv.push_url ≡ url) × (v.vsb_data priv.http_vsb ≡ []) × (v.vsb_data priv.timer_vsb ≡ [])
