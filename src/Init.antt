-- ===== src/Init.antt =====
-- The init functions of the plugins and core_plugins of src/main.c: the IPC handles that each takes,
-- its start function and callback, and the paths that it registers with src/modules/http.c.
pub mod Modules
pub mod Routes
pub mod Lookup
use vagent.Prelude.{
  true, false, ℕ, ◌+◌, List, [], ◌∷◌, ◌++◌, Bool, Option, none, some, Str, text, ◌||◌, strcmp_eq,
}
use vagent.Prelude.Options.{require, ◌>>=◌, ◌>>◌}
use vagent.Exec.{M}
use vagent.Http.{HttpRequest, HttpListener, http_register_path, m_get, m_post, m_put, m_delete}
use vagent.Plugins.{AgentPlugin, plugin_find, update_plugin, ipc_register, core_alloc_plugins}

-- The texts that help_reply is registered with.
pub data HelpText : Type 0 where
  panic_help vagent_version package_string vcl_help param_help ban_help direct_help backends_help :
      HelpText

-- The functions that are registered with http_register_path.
pub data Callback : Type 0 where
  on_help : HelpText → Callback
  on_echo on_status on_stop on_start on_panic on_ping on_vcl_json on_vcl_listshow on_vcl_push
        on_vcl_delete on_vcl_active on_vcl_deploy on_html on_params on_params_json on_ban on_stats
        on_push_test on_push_url on_log on_vac_register on_direct on_backends on_backends_json :
      Callback

-- A handle that ipc_register returned: whose private data it is kept in, and whose plugin it reaches.
pub record Handle : Type 0 where
  pub owner : Str
  pub peer : Str
  pub fd : ℕ

-- struct agent_core_t while it is filled: the plugins, the names of those whose private data is set,
-- the listeners in the private data of "http", the handles, and the calls of socketpair so far.
pub record Core (S : Type 0) : Type 0 where
  pub plugins : List AgentPlugin
  pub data_set : List Str
  pub listener : List (HttpListener S)
  pub handles : List Handle
  pub sockets : ℕ
  -- what each call of socketpair gives, the server's and the client's end; `none` where it fails
  pub socketpair : ℕ → Option (ℕ × ℕ)

unfoldable pub has_data : Str → List Str → Bool
has_data name [] = false
has_data name (n ∷ names) = strcmp_eq name n || has_data name names

module _ {S : Type 0} where
  -- `priv->handle = ipc_register(core, peer)`
  unfoldable pub register : Str → Str → Core S → Option (Core S)
  register owner peer core = do
    (server, client) ← core.socketpair core.sockets
    (fd, plugins) ← ipc_register peer server client core.plugins
    some (record core {
      plugins = plugins;
      handles = record { owner = owner; peer = peer; fd = fd } ∷ core.handles;
      sockets = core.sockets + 1;
    })

  -- `plug->data = priv`, with plug from plugin_find.
  unfoldable pub set_data : Str → Core S → Option (Core S)
  set_data name core = do
    plug ← plugin_find core.plugins name
    some (record core { data_set = name ∷ core.data_set })

  -- `plug->start = ...`
  unfoldable pub set_start : Str → Core S → Option (Core S)
  set_start name core = do
    plug ← plugin_find core.plugins name
    some (record core {
      plugins = update_plugin name (λ p. record p { has_start = true }) core.plugins;
    })

  -- `plug->ipc->cb = ...`
  unfoldable pub set_cb : Str → Core S → Option (Core S)
  set_cb name core = do
    plug ← plugin_find core.plugins name
    some (record core {
      plugins =
          update_plugin name (λ p. record p { ipc = record p.ipc { has_cb = true } }) core.plugins;
    })

  -- http_register_path, whose GET_PRIV asserts that "http" has its private data.
  unfoldable pub register_path :
      (Callback → HttpRequest → Option Str → M S Unit)
      → Str
      → ℕ
      → Callback
      → Core S
      → Option (Core S)
  register_path cb url method callback core = do
    require (has_data (text "http") core.data_set)
    some (record core { listener = http_register_path core.listener url method (cb callback) })

-- What main hands to core_plugins.
unfoldable pub core_alloc : {S : Type 0} → (ℕ → Option (ℕ × ℕ)) → Core S
core_alloc socketpair = record {
  plugins = core_alloc_plugins;
  data_set = [];
  listener = [];
  handles = [];
  sockets = 0;
  socketpair = socketpair;
}
