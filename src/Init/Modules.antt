-- ===== src/Init/Modules.antt =====
-- The init functions under src/modules, and core_plugins of src/main.c, which runs them.
use vagent.Prelude.{◌+◌, Bool, Option, some, is_some, Str, text}
use vagent.Prelude.Options.{require, ◌>>=◌, ◌>>◌}
use vagent.Vadmin.{Net, Vadmin, vadmin_init}
use vagent.Exec.{M}
use vagent.Http.{HttpRequest, m_get, m_post, m_put, m_delete}
use vagent.Init.{
  on_ping, vcl_help, package_string, vagent_version, on_vcl_deploy, panic_help, on_vcl_active,
  on_vcl_delete, on_panic, param_help, on_vcl_push, on_start, on_push_url, direct_help, ban_help,
  backends_help, on_vcl_listshow, on_stop, on_push_test, on_params_json, on_help, on_backends_json,
  on_vcl_json, on_vac_register, on_status, on_stats, on_params, on_log, on_html, on_direct, on_ban,
  on_backends, Callback, Core, on_echo, register, set_data, set_start, set_cb, register_path,
}

module _ {S : Type 0} (cb : Callback → HttpRequest → Option Str → M S Unit) where
  unfoldable pub vping_init : Core S → Option (Core S)
  vping_init core = do
    core ← register (text "vping") (text "vadmin") core
    core ← register (text "vping") (text "logger") core
    core ← set_data (text "vping") core
    set_start (text "vping") core

  unfoldable pub logger_init : Core S → Option (Core S)
  logger_init core = do
    core ← set_cb (text "logger") core
    core ← set_data (text "logger") core
    set_start (text "logger") core

  unfoldable pub http_init : Core S → Option (Core S)
  http_init core = do
    core ← register (text "http") (text "logger") core
    core ← register (text "http") (text "logger") core
    core ← set_data (text "http") core
    set_start (text "http") core

  unfoldable pub echo_init : Core S → Option (Core S)
  echo_init core = do
    core ← register (text "echo") (text "logger") core
    core ← set_data (text "echo") core
    register_path cb (text "/echo") (m_post + m_put + m_get) on_echo core

  -- The handles of a plugin that logs and sends commands to varnishd, and its private data.
  unfoldable pub init_vadmin_client : Str → Core S → Option (Core S)
  init_vadmin_client name core = do
    core ← register name (text "logger") core
    core ← register name (text "vadmin") core
    set_data name core

  unfoldable pub vstatus_init : Core S → Option (Core S)
  vstatus_init core = do
    core ← init_vadmin_client (text "vstatus") core
    core ← register_path cb (text "/status") m_get on_status core
    core ← register_path cb (text "/stop") (m_put + m_post) on_stop core
    core ← register_path cb (text "/start") (m_put + m_post) on_start core
    core ← register_path cb (text "/panic") (m_get + m_delete) on_panic core
    core ← register_path cb (text "/help/panic") m_get (on_help panic_help) core
    core ← register_path cb (text "/version") m_get (on_help vagent_version) core
    core ← register_path cb (text "/package_string") m_get (on_help package_string) core
    register_path cb (text "/ping") m_get on_ping core

  unfoldable pub vcl_init : Core S → Option (Core S)
  vcl_init core = do
    core ← init_vadmin_client (text "vcl") core
    core ← register_path cb (text "/vcljson") m_get on_vcl_json core
    core ← register_path cb (text "/vcl") m_get on_vcl_listshow core
    core ← register_path cb (text "/vcl") (m_put + m_post) on_vcl_push core
    core ← register_path cb (text "/vcl") m_delete on_vcl_delete core
    core ← register_path cb (text "/vclactive") m_get on_vcl_active core
    core ← register_path cb (text "/vcldeploy") m_put on_vcl_deploy core
    register_path cb (text "/help/vcl") m_get (on_help vcl_help) core

  unfoldable pub html_init : Core S → Option (Core S)
  html_init core = do
    core ← register (text "html") (text "logger") core
    core ← set_data (text "html") core
    register_path cb (text "/html") m_get on_html core

  -- `connects` says that no assert of the first connection fails.
  unfoldable pub vadmin_plugin_init : Bool → Core S → Option (Core S)
  vadmin_plugin_init connects core = do
    core ← set_cb (text "vadmin") core
    core ← set_data (text "vadmin") core
    core ← set_start (text "vadmin") core
    core ← register (text "vadmin") (text "logger") core
    require connects
    some core

  unfoldable pub vparams_init : Core S → Option (Core S)
  vparams_init core = do
    core ← init_vadmin_client (text "vparams") core
    core ← register_path cb (text "/param") (m_put + m_get) on_params core
    core ← register_path cb (text "/paramjson") m_get on_params_json core
    register_path cb (text "/help/param") m_get (on_help param_help) core

  unfoldable pub vban_init : Core S → Option (Core S)
  vban_init core = do
    core ← init_vadmin_client (text "vban") core
    core ← register_path cb (text "/ban") (m_get + m_post) on_ban core
    register_path cb (text "/help/ban") m_get (on_help ban_help) core

  -- The thread's context has handles of its own.
  unfoldable pub vstat_init_ctx : Core S → Option (Core S)
  vstat_init_ctx core = do
    core ← register (text "vstat") (text "curl") core
    register (text "vstat") (text "logger") core

  unfoldable pub vstat_init : Core S → Option (Core S)
  vstat_init core = do
    core ← vstat_init_ctx core
    core ← vstat_init_ctx core
    core ← set_data (text "vstat") core
    core ← set_start (text "vstat") core
    core ← register_path cb (text "/stats") m_get on_stats core
    core ← register_path cb (text "/push/test/stats") m_put on_push_test core
    register_path cb (text "/push/url/stats") m_put on_push_url core

  unfoldable pub vlog_init : Core S → Option (Core S)
  vlog_init core = do
    core ← set_data (text "vlog") core
    register_path cb (text "/log") m_get on_log core

  unfoldable pub curl_init : Core S → Option (Core S)
  curl_init core = do
    core ← register (text "curl") (text "logger") core
    core ← set_data (text "curl") core
    core ← set_start (text "curl") core
    set_cb (text "curl") core

  unfoldable pub vac_register_init : Core S → Option (Core S)
  vac_register_init core = do
    core ← register (text "vac_register") (text "logger") core
    core ← register (text "vac_register") (text "curl") core
    core ← set_data (text "vac_register") core
    core ← set_start (text "vac_register") core
    register_path cb (text "/vac_register") m_post on_vac_register core

  unfoldable pub vdirect_init : Core S → Option (Core S)
  vdirect_init core = do
    core ← init_vadmin_client (text "vdirect") core
    core ← register_path cb (text "/direct") m_post on_direct core
    register_path cb (text "/help/direct") m_get (on_help direct_help) core

  unfoldable pub vbackends_init : Core S → Option (Core S)
  vbackends_init core = do
    core ← init_vadmin_client (text "vbackends") core
    core ← register_path cb (text "/backend") m_put on_backends core
    core ← register_path cb (text "/backendjson") m_get on_backends_json core
    register_path cb (text "/help/backend") m_get (on_help backends_help) core

  -- The init functions, in the order of include/plugin-list.h.
  unfoldable pub init_plugins : Bool → Core S → Option (Core S)
  init_plugins connects core = do
    core ← vping_init core
    core ← logger_init core
    core ← http_init core
    core ← echo_init core
    core ← vstatus_init core
    core ← vcl_init core
    core ← html_init core
    core ← vadmin_plugin_init connects core
    core ← vparams_init core
    core ← vban_init core
    core ← vstat_init core
    core ← vlog_init core
    core ← curl_init core
    core ← vac_register_init core
    core ← vdirect_init core
    vbackends_init core

  -- core_plugins, where vadmin_init makes the first connection, with -n and the configuration of the
  -- connection.
  unfoldable pub core_plugins : Net → Option Str → Vadmin → Core S → Option (Core S)
  core_plugins net n_arg vadmin core = init_plugins (is_some (vadmin_init net n_arg vadmin)) core
