-- ===== src/Vstat/Refined.antt =====
-- The handlers and the thread of src/modules/vstat.c implement their specification without buffers.
use vagent.Vstat.Sending.{push_stats-Implements, vstat_reply-Implements, Pushed}
use mathlib.Core.Path.{subst}
use vagent.Vstat.{
  push_reply, vstat_round, vstat_push_url, vstat_push_test, store_url, http_ctx, timer_ctx,
  push_stats, VstatPriv, Vsm,
}
use vagent.Prelude.{not, text, refl, ap, Option, none, some, Str, List, [], ◌∷◌}
use vagent.Foreign.{VsbOps, IsBuffer}
use vagent.Http.{http_reply, HttpRequest}
use vagent.Exec.{◌>>◌, Peers, World, pure, log}
use vagent.Exec.Refinement.{
  Refines, Implements, Implements-then, Implements-bind, Implements-pure, Implements-pure,
  Implements-aborted, Implements-bind, Implements-then, Implements-bind,
}
use vagent.Vstat.Pushed.{
  specified_round, specified_push, round, Call, stats, push_test, push_url, run_call, run_calls,
  specified, specified_url, all_specified, Holds,
}

module _ {S : Type 0} (v : VsbOps) (laws : IsBuffer v) (peers : Peers S) where
  push_test-Implements :
      (request : HttpRequest) (arg : Option Str) (vsm : Vsm) (priv : VstatPriv v) (url : Option Str)
      → Holds v priv url
      → Implements {S = S}
          (Holds v)
          (vstat_push_test v peers vsm priv request arg)
          (specified peers (push_test request arg) vsm url)
  unfolding vstat_push_test
  push_test-Implements request arg vsm priv url h =
      Implements-bind (Pushed v laws peers url) (Holds v) (push_stats v peers vsm http_ctx priv)
        (specified_push peers vsm url) _ _
        (push_stats-Implements v laws peers vsm http_ctx priv url h)
        (λ (ok, priv') ok' p.
          subst
            (λ o.
              Implements {S = S} (Holds v) (push_reply request ok >> pure priv')
                (push_reply request o >> pure url))
            p.0
            (Implements-then (Holds v) (push_reply request ok) _ _
              λ _. Implements-pure (Holds v) _ _ p.1))

  round-Implements :
      (vsm : Vsm) (priv : VstatPriv v) (url : Option Str)
      → Holds v priv url
      → Implements {S = S}
          (Holds v)
          (run_call peers v round vsm priv)
          (specified peers round vsm url)
  unfolding vstat_round
  round-Implements vsm priv url h =
      Implements-bind (Pushed v laws peers url) (Holds v) (vstat_round v peers vsm priv)
        (specified_round peers vsm url) _ _
        (Implements-bind (Pushed v laws peers url) (Pushed v laws peers url)
          (push_stats v peers vsm timer_ctx priv) (specified_push peers vsm url) _ _
          (push_stats-Implements v laws peers vsm timer_ctx priv url h)
          (λ (ok, priv') ok' p.
            Implements-pure (Pushed v laws peers url) (not ok, priv') (not ok') (ap not p.0, p.1)))
        (λ (again, priv') again' p. Implements-pure (Holds v) priv' url p.1)

  url-Implements :
      (request : HttpRequest) (body : Option Str) (priv : VstatPriv v) (url : Option Str)
      → Holds v priv url
      → Implements {S = S}
          (Holds v)
          (store_url v peers priv request body)
          (specified_url request body)
  unfolding store_url
  url-Implements request none priv url h = Implements-aborted (Holds v)
  url-Implements request (some b) priv url h = Implements-then (Holds v) (log 2) _ _ λ _.
      Implements-then (Holds v) (http_reply request.connection 200 (some (text "Url stored"))) _ _
        λ _. Implements-pure (Holds v) _ _ (refl, h.1, h.2)

  call-Implements :
      (call : Call) (vsm : Vsm) (priv : VstatPriv v) (url : Option Str)
      → Holds v priv url
      → Implements {S = S} (Holds v) (run_call peers v call vsm priv) (specified peers call vsm url)
  unfolding vstat_push_url
  call-Implements (stats request arg) vsm priv url h =
      vstat_reply-Implements v laws request arg vsm priv url h
  call-Implements (push_test request arg) vsm priv url h =
      push_test-Implements request arg vsm priv url h
  call-Implements (push_url request arg) vsm priv url h =
      url-Implements request request.body priv url h
  call-Implements round vsm priv url h = round-Implements vsm priv url h

  run_calls-Implements :
      (calls : List (Call × Vsm)) (priv : VstatPriv v) (url : Option Str)
      → Holds v priv url
      → Implements {S = S} (Holds v) (run_calls peers v calls priv) (all_specified peers calls url)
  run_calls-Implements [] priv url h = Implements-pure (Holds v) _ _ h
  run_calls-Implements ((call, vsm) ∷ calls) priv url h =
      Implements-bind (Holds v) (Holds v) (run_call peers v call vsm priv)
        (specified peers call vsm url) _ _ (call-Implements call vsm priv url h)
        (λ priv' url' h'. run_calls-Implements calls priv' url' h')

  -- From private data with empty buffers, any sequence of requests to /stats, /push/test/stats and
  -- /push/url/stats and of rounds of the timer's thread does what its specification without buffers
  -- does: the same responses, uploads and log lines, where both end; or both fail an assert. Each
  -- response and upload holds the document of that call alone, and the buffers are empty again.
  pub vstat-Refines :
      (calls : List (Call × Vsm)) (priv : VstatPriv v) (url : Option Str) (w : World S)
      → Holds v priv url
      → Refines (Holds v) (run_calls peers v calls priv w) (all_specified peers calls url w)
  vstat-Refines calls priv url w h = (run_calls-Implements calls priv url h).run w
