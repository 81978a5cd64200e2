-- ===== src/Agent/Plugins.antt =====
-- How many responses the handlers of the other plugins under src/modules queue.
use vagent.Prelude.{
  Option-cases, ◌≡◌, inl, inr, [], ◌∷◌, Bool, true, false, Option, none, some, Str, ℕ, text, ◌==◌,
  cut_at,
}
use vagent.Exec.{Peers, IpcRet, log}
use vagent.Foreign.{VsbOps}
use vagent.Http.{HttpRequest, m_put, http_reply, http_get_header}
use vagent.Helpers.{c_str}
use vagent.Helpers.Respond.{
  Silent-pure, Silent-log, once_rules, OnceOr, SilentOr, Silent-bind, Silent-first_line, Once-then,
  Once-respond, Once-reply, Once-send,
}
use vagent.Agent.Handlers.{Once-abort}
use vagent.Html.{
  FileSystem, html_reply, redirect, send_redirect, send_file, opened_file, stat_file, serve_file,
}
use vagent.Vdirect.{vdirect_reply, format_only}
use vagent.Vbackends.{vbackends_reply}
use vagent.Vlog.{VslApi, vlog_reply, query_log, send_log, log_args, LogArgs, log_failure}
use vagent.Vstat.{
  Vsm, VstatPriv, Context, vstat_reply, send_stats, vstat_push_test, vstat_push_url, push_reply,
  push_stats, push_at, push_to, push_json, store_url, check_reopen,
}
use vagent.VacRegister.{
  VacRegisterPriv, vac_register_reply, answer_vac, send_curl, send_at, send_to, log_new_url,
}

module _ {S : Type 0} (C : Type 0) (request : HttpRequest) where
  send_file-OnceOr :
      C
      → (path : Str) (size : ℕ) (buffer : Str)
      → OnceOr {S = S} C (send_file request path size buffer)
  unfolding send_file
  send_file-OnceOr c path size buffer = search (once_rules, Once-abort c) depth 7

  opened_file-OnceOr :
      C
      → (path : Str) (regular : Bool) (size : ℕ) (fd : Option (ℕ → Str))
      → OnceOr {S = S} C (opened_file request path regular size fd)
  unfolding opened_file
  opened_file-OnceOr c path regular size none = search (once_rules) depth 7
  opened_file-OnceOr c path false size (some fd) = search (once_rules) depth 7
  opened_file-OnceOr c path true size (some fd) = send_file-OnceOr c path size _

  stat_file-OnceOr :
      C
      → (path : Str) (st : Option (Bool × ℕ)) (fd : Option (ℕ → Str))
      → OnceOr {S = S} C (stat_file request path st fd)
  unfolding stat_file
  stat_file-OnceOr c path none fd = search (once_rules) depth 7
  stat_file-OnceOr c path (some (regular, size)) fd = opened_file-OnceOr c path regular size fd

  redirect-OnceOr : OnceOr {S = S} C (redirect request)
  unfolding redirect send_redirect
  redirect-OnceOr = elim (Option-cases (http_get_header request.connection (text "Host"))) [
    | inl e ↦ rw (e, redirect) (search (once_rules) depth 7)
    | inr (host, e) ↦ rw (e, redirect) (Once-send _)
  ]

  pub html_reply-OnceOr :
      C
      → (fs : FileSystem) (H_arg : Str) (arg : Option Str)
      → OnceOr {S = S} C (html_reply fs H_arg request arg)
  unfolding html_reply serve_file
  html_reply-OnceOr c fs H_arg arg =
      search (once_rules, redirect-OnceOr, stat_file-OnceOr c) depth 7

  send_log-OnceOr :
      C
      → (quote : Str → Str) (api : VslApi) (n_arg : Str) (o : Option Str)
      → OnceOr {S = S} C (send_log quote api n_arg request o)
  unfolding send_log
  send_log-OnceOr c quote api n_arg none = Once-abort c
  send_log-OnceOr c quote api n_arg (some json) = search (once_rules) depth 7

  query_log-OnceOr :
      C
      → (quote : Str → Str) (api : VslApi) (n_arg : Str) (args : LogArgs)
      → OnceOr {S = S} C (query_log quote api n_arg request args)
  unfolding query_log
  query_log-OnceOr c quote api n_arg args = elim (Option-cases (log_failure api n_arg args)) [
    | inr (failure, e) ↦ rw (e, query_log) (Once-reply _ _ _)
    | inl e ↦ elim (Option-cases (api.query args)) [
      | inr (refusal, q) ↦ rw (e, q, query_log) (Once-abort c)
      | inl q ↦ rw (e, q, query_log) (send_log-OnceOr c quote api n_arg _)
    ]
  ]

  pub vlog_reply-OnceOr :
      C
      → (quote : Str → Str) (api : VslApi) (n_arg : Str) (arg : Option Str)
      → OnceOr {S = S} C (vlog_reply quote api n_arg request arg)
  unfolding vlog_reply
  vlog_reply-OnceOr c quote api n_arg arg = elim (Option-cases (log_args arg)) [
    | inl e ↦ rw (e, vlog_reply) (Once-reply _ _ _)
    | inr (args, e) ↦ rw (e, vlog_reply) (query_log-OnceOr c quote api n_arg args)
  ]

  module _ (peers : Peers S) where
    pub vdirect_reply-OnceOr : C → (arg : Option Str) → OnceOr C (vdirect_reply peers request arg)
    unfolding vdirect_reply
    vdirect_reply-OnceOr c arg = record {
      run = λ w. elim (Option-cases request.body) [
        | inl e ↦ rw (e) c
        | inr (body, e) ↦ elim (Option-cases (format_only (cut_at b'\n' (c_str body)))) [
          | inl p ↦ rw (e, p, vdirect_reply) c
          | inr (cmd, p) ↦
              rw (e, p, vdirect_reply) ((Once-respond peers request.connection cmd).run w)
        ]
      ];
    }

    pub vbackends_reply-OnceOr :
        (arg : Option Str) (body : Str)
        → (request.method == m_put) ≡ true
        → request.body ≡ some body
        → OnceOr C (vbackends_reply peers request arg)
    unfolding vbackends_reply
    vbackends_reply-OnceOr none body m e = rw (m) (Once-reply _ _ _)
    vbackends_reply-OnceOr (some a) body m e =
        rw (m) (search (once_rules, Silent-first_line request body e) depth 7)

  module _ (v : VsbOps) (peers : Peers S) (quote : Str → Str) where
    answer_vac-OnceOr :
        (ret : Option IpcRet) → OnceOr {S = S} C (answer_vac quote v peers request ret)
    unfolding answer_vac
    answer_vac-OnceOr none = Once-reply _ _ _
    answer_vac-OnceOr (some vret) =
        Once-then (http_reply request.connection vret.status (some vret.answer)) (λ _. log 2)
          (Once-reply _ _ _) (λ _. Silent-log 2)

    Silent-log_new_url : SilentOr {S = S} C (log_new_url quote v peers request)
    Silent-log_new_url = search (once_rules) depth 5

    Silent-send_at :
        (url : Option Str) (priv : VacRegisterPriv v) → SilentOr C (send_at quote v peers url priv)
    unfolding send_at send_to
    Silent-send_at none priv = search (once_rules, Silent-bind) depth 7
    Silent-send_at (some []) priv = search (once_rules, Silent-bind) depth 7
    Silent-send_at (some (b ∷ s)) priv = search (once_rules, Silent-bind) depth 7

    pub vac_register_reply-OnceOr :
        (priv : VacRegisterPriv v) (arg : Option Str)
        → OnceOr C (vac_register_reply quote v peers priv request arg)
    unfolding vac_register_reply send_curl
    vac_register_reply-OnceOr priv arg =
        search (once_rules, Once-then, Silent-log_new_url, Silent-send_at, answer_vac-OnceOr) depth
          9

  module _ (v : VsbOps) where
    Silent-check_reopen : (vsm : Vsm) → SilentOr {S = S} C (check_reopen vsm)
    unfolding check_reopen
    Silent-check_reopen vsm = search (once_rules, Silent-bind) depth 7

    send_stats-OnceOr :
        C → (priv : VstatPriv v) (o : Option v.Vsb) → OnceOr {S = S} C (send_stats v request priv o)
    unfolding send_stats
    send_stats-OnceOr c priv none = Once-abort c
    send_stats-OnceOr c priv (some b) = search (once_rules, Once-then) depth 7

    pub vstat_reply-OnceOr :
        C
        → (vsm : Vsm) (priv : VstatPriv v) (arg : Option Str)
        → OnceOr {S = S} C (vstat_reply v vsm priv request arg)
    unfolding vstat_reply
    vstat_reply-OnceOr c vsm priv arg =
        search (once_rules, Once-then, Silent-check_reopen, send_stats-OnceOr c) depth 9

    push_reply-OnceOr : (b : Bool) → OnceOr {S = S} C (push_reply request b)
    unfolding push_reply
    push_reply-OnceOr true = Once-reply _ _ _
    push_reply-OnceOr false = Once-reply _ _ _

    store_url-OnceOr :
        (peers : Peers S) (priv : VstatPriv v) (body : Str)
        → OnceOr {S = S} C (store_url v peers priv request (some body))
    unfolding store_url
    store_url-OnceOr peers priv body = search (once_rules, Once-then) depth 7

    pub vstat_push_url-OnceOr :
        (peers : Peers S) (priv : VstatPriv v) (arg : Option Str) (body : Str)
        → request.body ≡ some body
        → OnceOr {S = S} C (vstat_push_url v peers priv request arg)
    unfolding vstat_push_url store_url
    vstat_push_url-OnceOr peers priv arg body e = rw (e) (store_url-OnceOr peers priv body)

    Silent-push_json :
        C
        → (peers : Peers S) (ctx : Context v) (url : Str) (priv : VstatPriv v) (o : Option v.Vsb)
        → SilentOr {S = S} C (push_json v peers ctx url priv o)
    unfolding push_json
    Silent-push_json c peers ctx url priv none = record { run = λ w. c }
    Silent-push_json c peers ctx url priv (some b) = search (once_rules, Silent-bind) depth 8

    Silent-push_stats :
        C
        → (peers : Peers S) (vsm : Vsm) (ctx : Context v) (priv : VstatPriv v) (url : Option Str)
        → SilentOr {S = S} C (push_at v peers url vsm ctx priv)
    unfolding push_at push_to
    Silent-push_stats c peers vsm ctx priv none = Silent-pure _
    Silent-push_stats c peers vsm ctx priv (some []) = Silent-pure _
    Silent-push_stats c peers vsm ctx priv (some (b ∷ s)) =
        search (once_rules, Silent-bind, Silent-check_reopen, Silent-push_json c) depth 8

    pub vstat_push_test-OnceOr :
        C
        → (peers : Peers S) (vsm : Vsm) (priv : VstatPriv v) (arg : Option Str)
        → OnceOr {S = S} C (vstat_push_test v peers vsm priv request arg)
    unfolding vstat_push_test push_stats
    vstat_push_test-OnceOr c peers vsm priv arg =
        search (once_rules, Once-then, Silent-push_stats c, push_reply-OnceOr) depth 9
