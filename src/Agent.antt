-- ===== src/Agent.antt =====
-- The agent as a whole: the callbacks that the init functions under src/modules register, on one
-- state, behind answer_to_connection of src/modules/http.c.

pub mod Handlers
pub mod Methods
pub mod Answers
pub mod Requests
pub mod Session
pub mod Plugins
use vagent.Prelude.{ℕ, List, Option, Str, text}
use vagent.Exec.{oversized, M, Run, World, Peers, done, aborted, ◌>>=◌, pure}
use vagent.Foreign.{VsbOps}
use vagent.Http.{HttpRequest}
use vagent.Helpers.{help_reply}
use vagent.Init.{Callback, HelpText}
use vagent.Vstat.{Vsm, VstatPriv, vstat_reply, vstat_push_test, vstat_push_url}
use vagent.VacRegister.{VacRegisterPriv, vac_register_reply}
use vagent.Vlog.{VslApi, vlog_reply}
use vagent.Html.{FileSystem, html_reply}
use vagent.Vcl.Files.{FileOps}
use vagent.Vcl.Handlers.{vcl_push, vcl_deploy, vcl_listshow, vcl_delete}
use vagent.Vcl.Listing.{vcl_active}
use vagent.Vcl.Json.Reply.{vcl_json}
use vagent.Echo.{echo_reply}
use vagent.Vstatus.{reply_func, vstatus_panic}
use vagent.Vban.{vban_reply}
use vagent.Vparams.{vparams_reply}
use vagent.Vparams.Json.{vparams_json_reply}
use vagent.Vdirect.{vdirect_reply}
use vagent.Vbackends.{vbackends_reply, vbackends_json_reply}
use vagent.Init.{
  on_help, on_echo, on_status, on_stop, on_start, on_panic, on_ping, on_vcl_json, on_vcl_listshow,
  on_vcl_push, on_vcl_delete, on_vcl_active, on_vcl_deploy, on_html, on_params, on_params_json,
  on_ban, on_stats, on_push_test, on_push_url, on_log, on_vac_register, on_direct, on_backends,
  on_backends_json,
}

-- What the callbacks find outside the agent. `S` is the state of varnishd, the VAC and the disk.
pub record Outside (S : Type 0) : Type 0 where
  pub peers : Peers S
  pub disk : FileOps S
  pub html : S → FileSystem
  pub now : S → ℕ
  pub vsm : S → Vsm
  pub vsl : S → VslApi
  pub quote : Str → Str
  -- the arguments -p, -H and -n, and the texts for help_reply
  pub p_arg : Str
  pub H_arg : Str
  pub n_arg : Str
  pub help : HelpText → Str

-- The state that the callbacks share: what is outside, and the private data of the plugins that
-- change theirs.
pub record Agent (v : VsbOps) (S : Type 0) : Type 0 where
  pub outside : S
  pub vstat : VstatPriv v
  pub vac_priv : VacRegisterPriv v

module _ {v : VsbOps} {S : Type 0} where
  abbrev pub put_back : {A : Type 0} → World (Agent v S) → Run S A → Run (Agent v S) A
  put_back w (done a w') =
      done a (record { peer = record w.peer { outside = w'.peer }; trace = w'.trace })
  put_back w aborted = aborted
  put_back w (oversized cmd) = oversized cmd

  -- An action on what is outside.
  unfoldable pub outside : {A : Type 0} → (S → M S A) → M (Agent v S) A
  outside f w = put_back w (f w.peer.outside (record { peer = w.peer.outside; trace = w.trace }))

  -- A callback that leaves its private data changed.
  unfoldable pub with_vstat : (S → VstatPriv v → M S (VstatPriv v)) → M (Agent v S) (Unit {0})
  with_vstat f w =
      (outside (λ s. f s w.peer.vstat) >>= λ priv w'.
      done tt (record w' { peer = record w'.peer { vstat = priv } }))
        w

  unfoldable pub with_vac_register :
      (VacRegisterPriv v → M S (VacRegisterPriv v)) → M (Agent v S) (Unit {0})
  with_vac_register f w =
      (outside (λ s. f w.peer.vac_priv) >>= λ priv w'.
      done tt (record w' { peer = record w'.peer { vac_priv = priv } }))
        w

-- The functions that the init functions give to http_register_path, with what they read of the
-- agent's configuration.
module _ (v : VsbOps) {S : Type 0} (o : Outside S) where
  open o use {peers, disk, html, now, vsm, vsl, quote, p_arg, H_arg, n_arg, help}

  unfoldable pub callbacks : Callback → HttpRequest → Option Str → M (Agent v S) (Unit {0})
  unfolding outside with_vstat with_vac_register
  callbacks (on_help t) request arg = outside (λ s. help_reply (help t) request arg)
  callbacks on_echo request arg = outside (λ s. echo_reply request arg)
  callbacks on_status request arg = outside (λ s. reply_func peers (text "status") request arg)
  callbacks on_stop request arg = outside (λ s. reply_func peers (text "stop") request arg)
  callbacks on_start request arg = outside (λ s. reply_func peers (text "start") request arg)
  callbacks on_panic request arg = outside (λ s. vstatus_panic peers request arg)
  callbacks on_ping request arg = outside (λ s. reply_func peers (text "ping") request arg)
  callbacks on_vcl_json request arg = outside (λ s. vcl_json peers request arg)
  callbacks on_vcl_listshow request arg = outside (λ s. vcl_listshow peers request arg)
  callbacks on_vcl_push request arg = outside (λ s. vcl_push peers disk p_arg (now s) request arg)
  callbacks on_vcl_delete request arg = outside (λ s. vcl_delete peers request arg)
  callbacks on_vcl_active request arg = outside (λ s. vcl_active peers request arg)
  callbacks on_vcl_deploy request arg = outside (λ s. vcl_deploy peers disk p_arg request arg)
  callbacks on_html request arg = outside (λ s. html_reply (html s) H_arg request arg)
  callbacks on_params request arg = outside (λ s. vparams_reply peers request arg)
  callbacks on_params_json request arg = outside (λ s. vparams_json_reply v peers request arg)
  callbacks on_ban request arg = outside (λ s. vban_reply peers request arg)
  callbacks on_stats request arg = with_vstat (λ s priv. vstat_reply v (vsm s) priv request arg)
  callbacks on_push_test request arg =
      with_vstat (λ s priv. vstat_push_test v peers (vsm s) priv request arg)
  callbacks on_push_url request arg = with_vstat (λ s priv. vstat_push_url v peers priv request arg)
  callbacks on_log request arg = outside (λ s. vlog_reply quote (vsl s) n_arg request arg)
  callbacks on_vac_register request arg =
      with_vac_register (λ priv. vac_register_reply quote v peers priv request arg)
  callbacks on_direct request arg = outside (λ s. vdirect_reply peers request arg)
  callbacks on_backends request arg = outside (λ s. vbackends_reply peers request arg)
  callbacks on_backends_json request arg = outside (λ s. vbackends_json_reply v peers request arg)
