-- ===== src/Agent/Answers.antt =====
-- Every request that reaches a callback of src/modules is answered once.
use vagent.Prelude.{◌+◌, ◌≡◌, refl, [], true, Option, none, some, Str, ℕ, text, starts_with, suc}
use vagent.Exec.{oversized, M, World, Run, EndsOr, done, aborted}
use vagent.Foreign.{VsbOps}
use vagent.Http.{HttpRequest, m_get, m_put, m_delete, has_method}
use vagent.Helpers.{help_reply}
use vagent.Helpers.Respond.{OnceOr, replies, Once-reply, Once-respond, Once-then}
use vagent.Init.{
  Callback, on_help, on_echo, on_status, on_stop, on_start, on_panic, on_ping, on_vcl_json,
  on_vcl_listshow, on_vcl_push, on_vcl_delete, on_vcl_active, on_vcl_deploy, on_html, on_params,
  on_params_json, on_ban, on_stats, on_push_test, on_push_url, on_log, on_vac_register, on_direct,
  on_backends, on_backends_json,
}
use vagent.Echo.{echo_reply-Once}
use vagent.Vstatus.{reply_func, vstatus_panic-Once}
use vagent.Vban.Commands.{vban_reply-Once}
use vagent.Vparams.Replies.{vparams_reply-Once}
use vagent.VacRegister.{VacRegisterPriv}
use vagent.Vstat.{VstatPriv}
use vagent.Agent.Methods.{Method, only_get, only_put, only_delete, get_or_delete}
use vagent.Agent.{Agent, Outside, outside, put_back, with_vstat, with_vac_register, callbacks}
use vagent.Agent.Handlers.{
  OnceOr-Once, vcl_json-OnceOr, vcl_listshow-OnceOr, vcl_push-OnceOr, vcl_delete-OnceOr,
  vcl_active-OnceOr, vcl_deploy-OnceOr, vparams_json_reply-OnceOr, vbackends_json_reply-OnceOr,
}
use vagent.Agent.Plugins.{
  html_reply-OnceOr, vlog_reply-OnceOr, vdirect_reply-OnceOr, vbackends_reply-OnceOr,
  vac_register_reply-OnceOr, vstat_reply-OnceOr, vstat_push_test-OnceOr, vstat_push_url-OnceOr,
}

-- The callbacks that can fail an assert or never return: by what the disk, varnishd or the log holds,
-- or by a verbatim command with a percent sign.
abbrev pub MayAbort : Callback → Type 0
MayAbort on_vcl_json = Unit
MayAbort on_vcl_push = Unit
MayAbort on_html = Unit
MayAbort on_params_json = Unit
MayAbort on_stats = Unit
MayAbort on_push_test = Unit
MayAbort on_log = Unit
MayAbort on_direct = Unit
MayAbort on_backends_json = Unit
MayAbort _ = ⊥

-- The text that the asserts of a callback want in front of the URL, and the methods that they allow.
abbrev pub asserts : Callback → Option (Str × ℕ)
asserts on_panic = some ([], m_get + m_delete)
asserts on_vcl_listshow = some (text "/vcl", m_get)
asserts on_vcl_delete = some (text "/vcl", m_delete)
asserts on_vcl_active = some (text "/vclactive", m_get)
asserts on_vcl_deploy = some (text "/vcldeploy", m_put)
asserts on_backends = some ([], m_put)
asserts _ = none

abbrev pub Meets : Option (Str × ℕ) → HttpRequest → Type 0
Meets none request = Unit
Meets (some (path, methods)) request =
    (starts_with request.url path ≡ true) × (has_method methods request.method ≡ true)

abbrev pub Expected : Callback → HttpRequest → Type 0
Expected c request = Meets (asserts c) request

module _ {v : VsbOps} {S : Type 0} (C : Type 0) where
  OnceOr-outside :
      {A : Type 0} (f : S → M S A) → ((s : S) → OnceOr C (f s)) → OnceOr C (outside {v = v} f)
  unfolding outside
  OnceOr-outside {A} f h = record {
    run = λ w.
        lifted w _ ((h w.peer.outside).run (record { peer = w.peer.outside; trace = w.trace }));
  }
    where
      lifted :
          (w : World (Agent v S)) (r : Run S A)
          → EndsOr C (λ a w'. replies w'.trace ≡ suc (replies w.trace)) r
          → EndsOr C (λ a w'. replies w'.trace ≡ suc (replies w.trace)) (put_back w r)
      lifted w (done a w') p = p
      lifted w aborted p = p
      lifted w (oversized cmd) p = p

  OnceOr-with_vstat :
      (f : S → VstatPriv v → M S (VstatPriv v))
      → ((s : S) (priv : VstatPriv v) → OnceOr C (f s priv))
      → OnceOr C (with_vstat f)
  unfolding with_vstat
  OnceOr-with_vstat f h = record {
    run = λ w.
        (Once-then (outside (λ s. f s w.peer.vstat)) _
            (OnceOr-outside (λ s. f s w.peer.vstat) (λ s. h s w.peer.vstat))
            (λ priv. record { run = λ w'. refl })).run
          w;
  }

  OnceOr-with_vac_register :
      (f : VacRegisterPriv v → M S (VacRegisterPriv v))
      → ((priv : VacRegisterPriv v) → OnceOr C (f priv))
      → OnceOr C (with_vac_register f)
  unfolding with_vac_register
  OnceOr-with_vac_register f h = record {
    run = λ w.
        (Once-then (outside (λ s. f w.peer.vac_priv)) _
            (OnceOr-outside (λ s. f w.peer.vac_priv) (λ s. h w.peer.vac_priv))
            (λ priv. record { run = λ w'. refl })).run
          w;
  }

module _ (v : VsbOps) {S : Type 0} (o : Outside S) (C : Type 0) (request : HttpRequest)
    (arg : Option Str) where
  open o use {peers, disk, html, now, vsm, vsl, quote, p_arg, H_arg, n_arg, help}

  pub callbacks-OnceOr :
      (c : Callback) {body : Str}
      → Method request.method
      → (MayAbort c → C)
      → Expected c request
      → request.body ≡ some body
      → OnceOr C (callbacks v o c request arg)
  unfolding callbacks help_reply reply_func
  callbacks-OnceOr (on_help t) k may x e = OnceOr-outside C _ (λ s. Once-reply _ _ _)
  callbacks-OnceOr on_echo k may x e =
      OnceOr-outside C _ (λ s. OnceOr-Once _ (echo_reply-Once request arg _ e))
  callbacks-OnceOr on_status k may x e = OnceOr-outside C _ (λ s. Once-respond peers _ _)
  callbacks-OnceOr on_stop k may x e = OnceOr-outside C _ (λ s. Once-respond peers _ _)
  callbacks-OnceOr on_start k may x e = OnceOr-outside C _ (λ s. Once-respond peers _ _)
  callbacks-OnceOr on_panic k may (u, m) e =
      OnceOr-outside C _
        (λ s. OnceOr-Once _ (vstatus_panic-Once peers request arg (get_or_delete k m)))
  callbacks-OnceOr on_ping k may x e = OnceOr-outside C _ (λ s. Once-respond peers _ _)
  callbacks-OnceOr on_vcl_json k may x e =
      OnceOr-outside C _ (λ s. vcl_json-OnceOr C peers request (may tt) arg)
  callbacks-OnceOr on_vcl_listshow k may (u, m) e =
      OnceOr-outside C _ (λ s. vcl_listshow-OnceOr C peers request arg u (only_get k m))
  callbacks-OnceOr on_vcl_push k may x e =
      OnceOr-outside C _ (λ s. vcl_push-OnceOr C peers request disk p_arg (may tt) (now s) arg)
  callbacks-OnceOr on_vcl_delete k may (u, m) e =
      OnceOr-outside C _ (λ s. vcl_delete-OnceOr C peers request arg u (only_delete k m))
  callbacks-OnceOr on_vcl_active k may (u, m) e =
      OnceOr-outside C _ (λ s. vcl_active-OnceOr C peers request arg u (only_get k m))
  callbacks-OnceOr on_vcl_deploy k may (u, m) e =
      OnceOr-outside C _ (λ s. vcl_deploy-OnceOr C peers request disk p_arg arg u (only_put k m))
  callbacks-OnceOr on_html k may x e =
      OnceOr-outside C _ (λ s. html_reply-OnceOr C request (may tt) (html s) H_arg arg)
  callbacks-OnceOr on_params k may x e =
      OnceOr-outside C _ (λ s. OnceOr-Once _ (vparams_reply-Once peers request arg _ e))
  callbacks-OnceOr on_params_json k may x e =
      OnceOr-outside C _ (λ s. vparams_json_reply-OnceOr C peers request v (may tt) arg)
  callbacks-OnceOr on_ban k may x e =
      OnceOr-outside C _ (λ s. OnceOr-Once _ (vban_reply-Once peers request arg _ e))
  callbacks-OnceOr on_stats k may x e =
      OnceOr-with_vstat C _ (λ s priv. vstat_reply-OnceOr C request v (may tt) (vsm s) priv arg)
  callbacks-OnceOr on_push_test k may x e =
      OnceOr-with_vstat C _
        (λ s priv. vstat_push_test-OnceOr C request v (may tt) peers (vsm s) priv arg)
  callbacks-OnceOr on_push_url k may x e =
      OnceOr-with_vstat C _ (λ s priv. vstat_push_url-OnceOr C request v peers priv arg _ e)
  callbacks-OnceOr on_log k may x e =
      OnceOr-outside C _ (λ s. vlog_reply-OnceOr C request (may tt) quote (vsl s) n_arg arg)
  callbacks-OnceOr on_vac_register k may x e =
      OnceOr-with_vac_register C _
        (λ priv. vac_register_reply-OnceOr C request v peers quote priv arg)
  callbacks-OnceOr on_direct k may x e =
      OnceOr-outside C _ (λ s. vdirect_reply-OnceOr C request peers (may tt) arg)
  callbacks-OnceOr on_backends k may (u, m) e =
      OnceOr-outside C _ (λ s. vbackends_reply-OnceOr C request peers arg _ (only_put k m) e)
  callbacks-OnceOr on_backends_json k may x e =
      OnceOr-outside C _ (λ s. vbackends_json_reply-OnceOr C peers request v (may tt) arg)
