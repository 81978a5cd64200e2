-- ===== src/Init/Routes.antt =====
-- The paths that the init functions register, and the requests that reach each of them.
use vagent.Prelude.{
  zero, suc, ℕ, ◌+◌, ◌≡◌, refl, List, [], ◌∷◌, ◌++◌, Bool, true, false, not, ◌&&◌, ◌||◌, Option,
  none, some, Str, text, starts_with, All, map,
}
use vagent.Exec.{M}
use vagent.Http.{
  HttpRequest, HttpListener, has_method, select_listener, m_get, m_post, m_put, m_delete, m_options,
}
use vagent.Init.{
  on_echo, on_status, on_stop, on_start, on_panic, panic_help, vagent_version, package_string,
  on_ping, on_vcl_json, on_vcl_listshow, on_vcl_push, on_vcl_delete, has_data, on_vcl_active,
  on_vcl_deploy, vcl_help, on_html, on_params, on_params_json, param_help, on_ban, ban_help,
  on_stats, on_push_test, on_push_url, on_log, on_vac_register, on_direct, direct_help, on_backends,
  on_backends_json, backends_help, on_help, Callback, Core, core_alloc,
}
use vagent.Plugins.{started, ipc_sanity, plugin_names}
use vagent.Init.Modules.{init_plugins}

-- A path with its methods and its callback.
pub record Route : Type 0 where
  pub url : Str
  pub methods : ℕ
  pub callback : Callback

abbrev route : Str → ℕ → Callback → Route
route url methods callback = record { url = url; methods = methods; callback = callback }

-- All paths, the one registered last first.
abbrev pub routes : List Route
routes =
    route (text "/help/backend") m_get (on_help backends_help)
    ∷ route (text "/backendjson") m_get on_backends_json
    ∷ route (text "/backend") m_put on_backends
    ∷ route (text "/help/direct") m_get (on_help direct_help)
    ∷ route (text "/direct") m_post on_direct
    ∷ route (text "/vac_register") m_post on_vac_register
    ∷ route (text "/log") m_get on_log
    ∷ route (text "/push/url/stats") m_put on_push_url
    ∷ route (text "/push/test/stats") m_put on_push_test
    ∷ route (text "/stats") m_get on_stats
    ∷ route (text "/help/ban") m_get (on_help ban_help)
    ∷ route (text "/ban") (m_get + m_post) on_ban
    ∷ route (text "/help/param") m_get (on_help param_help)
    ∷ route (text "/paramjson") m_get on_params_json
    ∷ route (text "/param") (m_put + m_get) on_params
    ∷ route (text "/html") m_get on_html
    ∷ route (text "/help/vcl") m_get (on_help vcl_help)
    ∷ route (text "/vcldeploy") m_put on_vcl_deploy
    ∷ route (text "/vclactive") m_get on_vcl_active
    ∷ route (text "/vcl") m_delete on_vcl_delete
    ∷ route (text "/vcl") (m_put + m_post) on_vcl_push
    ∷ route (text "/vcl") m_get on_vcl_listshow
    ∷ route (text "/vcljson") m_get on_vcl_json
    ∷ route (text "/ping") m_get on_ping
    ∷ route (text "/package_string") m_get (on_help package_string)
    ∷ route (text "/version") m_get (on_help vagent_version)
    ∷ route (text "/help/panic") m_get (on_help panic_help)
    ∷ route (text "/panic") (m_get + m_delete) on_panic
    ∷ route (text "/start") (m_put + m_post) on_start
    ∷ route (text "/stop") (m_put + m_post) on_stop
    ∷ route (text "/status") m_get on_status
    ∷ route (text "/echo") (m_post + m_put + m_get) on_echo
    ∷ []

-- Whether GET_PRIV finds the private data of each plugin.
abbrev all_set : List Str → List Str → Bool
all_set [] set = true
all_set (name ∷ names) set = has_data name set && all_set names set

-- The plugins that have a start function, in the order of the list.
abbrev pub thread_names : List Str
thread_names =
    text "vac_register"
    ∷ text "curl"
    ∷ text "vstat"
    ∷ text "vadmin"
    ∷ text "http"
    ∷ text "logger"
    ∷ text "vping"
    ∷ []

module _ {S : Type 0} (cb : Callback → HttpRequest → Option Str → M S Unit) where
  abbrev pub listener_of : Route → HttpListener S
  listener_of r = record { url = r.url; method = r.methods; cb = cb r.callback }

  abbrev countdown : ℕ → List ℕ
  countdown zero = []
  countdown (suc n) = n ∷ countdown n

  -- What main relies on once core_plugins has run.
  abbrev pub Ready : (ℕ → ℕ × ℕ) → Option (Core S) → Type 0
  Ready pair none = ⊥
  Ready pair (some core) =
      (core.listener ≡ map listener_of routes)
      × (ipc_sanity core.plugins ≡ true)
      × (all_set plugin_names core.data_set ≡ true)
      × (map (λ h. h.fd) core.handles ≡ map (λ n. (pair n).1) (countdown core.sockets))
      × (started core.plugins ≡ thread_names)

  -- Where every socketpair succeeds and no assert of the first connection fails, core_plugins comes
  -- to its end: no assert fails and no NULL is
  -- followed. Then the listeners are those of the table of paths, ipc_sanity holds, every plugin has
  -- its private data, which the handlers assert, every handle is the end of a pair of its own, and
  -- seven plugins have a start function.
  pub init_plugins-Ready :
      (pair : ℕ → ℕ × ℕ) → Ready pair (init_plugins cb true (core_alloc (λ n. some (pair n))))
  unfolding init_plugins vagent.Init.Modules.vping_init vagent.Init.register core_alloc
      vagent.Plugins.ipc_register vagent.Plugins.plugin_find vagent.Plugins.core_alloc_plugins
      vagent.Plugins.plugin_alloc vagent.Prelude.strcmp_eq text vagent.Init.set_data
      vagent.Init.set_start vagent.Init.Modules.logger_init vagent.Init.set_cb
      vagent.Init.Modules.http_init vagent.Init.Modules.echo_init vagent.Init.register_path
      vagent.Http.http_register_path vagent.Init.Modules.curl_init vagent.Init.Modules.html_init
      vagent.Init.Modules.init_vadmin_client vagent.Init.Modules.vac_register_init
      vagent.Init.Modules.vadmin_plugin_init vagent.Init.Modules.vbackends_init
      vagent.Init.Modules.vban_init vagent.Init.Modules.vcl_init vagent.Init.Modules.vdirect_init
      vagent.Init.Modules.vlog_init vagent.Init.Modules.vparams_init vagent.Init.Modules.vstat_init
      vagent.Init.Modules.vstat_init_ctx vagent.Init.Modules.vstatus_init has_data
      vagent.Plugins.add_listener vagent.Plugins.ipc_init vagent.Plugins.plugin_names
      vagent.Plugins.update_plugin ipc_sanity started
  init_plugins-Ready pair = (refl, refl, refl, refl, refl)

  -- The listeners that core_plugins leaves where it comes to its end.
  abbrev pub registered : (ℕ → ℕ × ℕ) → List (HttpListener S)
  registered pair = elim (init_plugins cb true (core_alloc (λ n. some (pair n)))) [
    | none ↦ []
    | some core ↦ core.listener
  ]

  listeners :
      (pair : ℕ → ℕ × ℕ) (o : Option (Core S))
      → Ready pair o
      → elim o [ none ↦ [] | some core ↦ core.listener ] ≡ map listener_of routes
  listeners pair none h = absurd h
  listeners pair (some core) h = h.0

  pub registered-routes : (pair : ℕ → ℕ × ℕ) → registered pair ≡ map listener_of routes
  registered-routes pair =
      listeners pair (init_plugins cb true (core_alloc (λ n. some (pair n))))
        (init_plugins-Ready pair)
