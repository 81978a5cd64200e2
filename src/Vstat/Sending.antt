-- ===== src/Vstat/Sending.antt =====
-- vstat_reply and push_stats of src/modules/vstat.c against their specification without buffers.
use mathlib.Core.Path.{subst}
use vagent.Helpers.{c_str}
use vagent.Vstat.{
  push_at, http_ctx, timer_ctx, set_vsb, push_to, push_stats, ctx_vsb, Context, push_json, do_json,
  check_reopen, VstatPriv, vstat_reply, send_stats, Vsm,
}
use vagent.Prelude.{
  ◌++◌, text, ℕ, ◌==◌, sym, ◌≡◌, refl, Bool, true, false, Option, none, some, Str, [], ◌∷◌,
}
use vagent.Foreign.{VsbOps, IsBuffer}
use vagent.Http.{http_reply, HttpRequest}
use vagent.Exec.{ipc_curl, M, Peers, log}
use vagent.Exec.Refinement.{
  Implements, Implements-if, Implements-then, Implements-pure, Implements-pure, Implements-aborted,
  Implements-then, Implements-if,
}
use vagent.Vstat.Pushed.{
  specified_push, upload_document, specified_stats, Holds, document, contents, do_json-contents,
  reply_document,
}

module _ {S : Type 0} (v : VsbOps) (laws : IsBuffer v) where
  open v use {vsb_data, vsb_clear}

  abbrev couldnt_open : HttpRequest → M S Unit
  couldnt_open request = http_reply request.connection 500 (some (text "Couldn't open shmlog"))

  send_stats-Implements :
      (request : HttpRequest) (priv : VstatPriv v) (url : Option Str) (b : Option v.Vsb)
      → Holds v priv url
      → Implements {S = S}
          (Holds v)
          (send_stats v request priv b)
          (reply_document request url (contents v b))
  unfolding send_stats
  send_stats-Implements request priv url none h = Implements-aborted (Holds v)
  send_stats-Implements request priv url (some b) h =
      Implements-then (Holds v) _ _ _
        λ _. Implements-pure (Holds v) _ _ (h.0, laws.data-clear b, h.2)

  send_document :
      (request : HttpRequest) (vsm : Vsm) (priv : VstatPriv v) (url : Option Str)
      → Holds v priv url
      → Implements {S = S}
          (Holds v)
          (send_stats v request priv (do_json v vsm priv.http_vsb))
          (reply_document request url (document vsm))
  send_document request vsm priv url h =
      rw (sym (do_json-contents v laws vsm priv.http_vsb h.1))
        (send_stats-Implements request priv url (do_json v vsm priv.http_vsb) h)

  pub vstat_reply-Implements :
      (request : HttpRequest) (arg : Option Str) (vsm : Vsm) (priv : VstatPriv v) (url : Option Str)
      → Holds v priv url
      → Implements {S = S}
          (Holds v)
          (vstat_reply v vsm priv request arg)
          (specified_stats request vsm url)
  unfolding vstat_reply
  vstat_reply-Implements request arg vsm priv url h =
      Implements-then (Holds v) (check_reopen vsm) _ _ λ failed.
        Implements-if (Holds v) failed _ _ _ _
          (Implements-then (Holds v) (couldnt_open request) _ _
            λ _. Implements-pure (Holds v) _ _ h)
          (send_document request vsm priv url h)

  module _ (peers : Peers S) where
    Holds-set :
        (ctx : Context v) (b : v.Vsb) (priv : VstatPriv v) (url : Option Str)
        → v.vsb_data b ≡ []
        → Holds v priv url
        → Holds v (set_vsb v ctx b priv) url
    unfolding set_vsb
    Holds-set http_ctx b priv url e h = (h.0, e, h.2)
    Holds-set timer_ctx b priv url e h = (h.0, h.1, e)

    empty-ctx :
        (ctx : Context v) (priv : VstatPriv v) (url : Option Str)
        → Holds v priv url
        → v.vsb_data (ctx_vsb v ctx priv) ≡ []
    unfolding ctx_vsb
    empty-ctx http_ctx priv url h = h.1
    empty-ctx timer_ctx priv url h = h.2

    -- What push_stats gives: the same answer, and data that stands for the same URL.
    abbrev pub Pushed : Option Str → Bool × VstatPriv v → Bool → Type 0
    Pushed url (ok, priv) ok' = (ok ≡ ok') × Holds v priv url

    push_json-Implements :
        (ctx : Context v) (u : Str) (priv : VstatPriv v) (url : Option Str) (b : Option v.Vsb)
        → Holds v priv url
        → Implements {S = S}
            (Pushed url)
            (push_json v peers ctx u priv b)
            (upload_document peers u (contents v b))
    unfolding push_json
    push_json-Implements ctx u priv url none h = Implements-aborted (Pushed url)
    push_json-Implements ctx u priv url (some b) h =
        let cleared = Holds-set ctx (v.vsb_clear b) priv url (laws.data-clear b) h in
        Implements-then (Pushed url) (ipc_curl peers (u ++ b'\n' ∷ c_str (vsb_data b))) _ _ λ vret.
          Implements-if (Pushed url) (vret.status == 200) _ _ _ _
            (Implements-pure (Pushed url) _ true (refl, cleared))
            (Implements-then (Pushed url) (log 2) _ _
              λ _. Implements-pure (Pushed url) _ false (refl, cleared))

    push_document :
        (ctx : Context v) (u : Str) (vsm : Vsm) (priv : VstatPriv v) (url : Option Str)
        → Holds v priv url
        → Implements {S = S}
            (Pushed url)
            (push_json v peers ctx u priv (do_json v vsm (ctx_vsb v ctx priv)))
            (upload_document peers u (document vsm))
    push_document ctx u vsm priv url h =
        rw (sym (do_json-contents v laws vsm (ctx_vsb v ctx priv) (empty-ctx ctx priv url h)))
          (push_json-Implements ctx u priv url (do_json v vsm (ctx_vsb v ctx priv)) h)

    push_to-Implements :
        (vsm : Vsm) (ctx : Context v) (c : ℕ) (s : Str) (priv : VstatPriv v) (url : Option Str)
        → Holds v priv url
        → Implements {S = S}
            (Pushed url)
            (push_to v peers vsm ctx (c ∷ s) priv)
            (specified_push peers vsm (some (c ∷ s)))
    unfolding push_to
    push_to-Implements vsm ctx c s priv url h =
        Implements-then (Pushed url) (check_reopen vsm) _ _ λ failed.
          Implements-if (Pushed url) failed _ _ _ _ (Implements-pure (Pushed url) _ false (refl, h))
            (push_document ctx (c ∷ s) vsm priv url h)

    push_at-Implements :
        (u : Option Str) (vsm : Vsm) (ctx : Context v) (priv : VstatPriv v) (url : Option Str)
        → Holds v priv url
        → Implements {S = S}
            (Pushed url)
            (push_at v peers u vsm ctx priv)
            (specified_push peers vsm u)
    unfolding push_at
    push_at-Implements none vsm ctx priv url h = Implements-pure (Pushed url) _ false (refl, h)
    push_at-Implements (some []) vsm ctx priv url h = Implements-pure (Pushed url) _ false (refl, h)
    push_at-Implements (some (c ∷ s)) vsm ctx priv url h = push_to-Implements vsm ctx c s priv url h

    pub push_stats-Implements :
        (vsm : Vsm) (ctx : Context v) (priv : VstatPriv v) (url : Option Str)
        → Holds v priv url
        → Implements {S = S}
            (Pushed url)
            (push_stats v peers vsm ctx priv)
            (specified_push peers vsm url)
    unfolding push_stats
    push_stats-Implements vsm ctx priv url h =
        subst
          (λ u.
            Implements (Pushed url) (push_stats v peers vsm ctx priv) (specified_push peers vsm u))
          h.0 (push_at-Implements priv.push_url vsm ctx priv url h)
