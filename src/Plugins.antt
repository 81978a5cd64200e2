-- ===== src/Plugins.antt =====
-- src/plugins.c, the table of include/plugin-list.h, and the part of src/ipc.c and src/main.c that
-- works on the list of plugins.
pub mod Registry
use vagent.Prelude.{
  ℕ, ◌+◌, ◌≡◌, List, [], ◌∷◌, ◌++◌, Bool, true, false, not, ◌&&◌, ◌||◌, Option, none, some, Str,
  text, ltb, if◌then◌else◌, strcmp_eq, length,
}

-- struct ipc_t: the server's ends of the socket pairs, and whether a callback is set.
pub record Ipc : Type 0 where
  pub listeners : List ℕ
  pub has_cb : Bool

-- struct agent_plugin_t, without the private data of the plugin.
pub record AgentPlugin : Type 0 where
  pub name : Str
  pub ipc : Ipc
  pub has_start : Bool

-- MAX_LISTENERS
abbrev pub max_listeners : ℕ
max_listeners = 1024

-- The list starts with the plugin that was allocated last. Where no plugin has the name, the
-- assert is on a string, so it holds, and the function returns NULL.
unfoldable pub plugin_find : List AgentPlugin → Str → Option AgentPlugin
plugin_find [] name = none
plugin_find (plug ∷ plugins) name =
    if strcmp_eq name plug.name then some plug else plugin_find plugins name

-- ipc_init on a structure from calloc
unfoldable pub ipc_init : Ipc
ipc_init = record { listeners = []; has_cb = false }

unfoldable pub plugin_alloc : Str → List AgentPlugin → List AgentPlugin
unfolding ipc_init
plugin_alloc name plugins = record { name = name; ipc = ipc_init; has_start = false } ∷ plugins

-- The PLUGIN lines, in order.
unfoldable pub plugin_names : List Str
plugin_names =
    text "vping"
    ∷ text "logger"
    ∷ text "http"
    ∷ text "echo"
    ∷ text "vstatus"
    ∷ text "vcl"
    ∷ text "html"
    ∷ text "vadmin"
    ∷ text "vparams"
    ∷ text "vban"
    ∷ text "vstat"
    ∷ text "vlog"
    ∷ text "curl"
    ∷ text "vac_register"
    ∷ text "vdirect"
    ∷ text "vbackends"
    ∷ []

alloc_all : List Str → List AgentPlugin → List AgentPlugin
alloc_all [] plugins = plugins
alloc_all (name ∷ names) plugins = alloc_all names (plugin_alloc name plugins)

-- core_alloc_plugins, on an empty list as in main
unfoldable pub core_alloc_plugins : List AgentPlugin
unfolding alloc_all plugin_names
core_alloc_plugins = alloc_all plugin_names []

-- The plugin of the name with one listener more.
unfoldable pub add_listener : ℕ → AgentPlugin → AgentPlugin
add_listener fd plug = record plug {
  ipc = record plug.ipc { listeners = plug.ipc.listeners ++ fd ∷ [] };
}

unfoldable pub update_plugin :
    Str → (AgentPlugin → AgentPlugin) → List AgentPlugin → List AgentPlugin
update_plugin name f [] = []
update_plugin name f (plug ∷ plugins) =
    if strcmp_eq name plug.name then f plug ∷ plugins else plug ∷ update_plugin name f plugins

-- ipc_register, with the two ends that socketpair made. The client's end is returned. A failed
-- assert, or a NULL that is followed, is `none`.
unfoldable pub ipc_register : Str → ℕ → ℕ → List AgentPlugin → Option (ℕ × List AgentPlugin)
unfolding update_plugin add_listener
ipc_register name server client plugins = elim (plugin_find plugins name) [
  | none ↦ none
  | some v ↦
      if ltb (length v.ipc.listeners) max_listeners
      then some (client, update_plugin name (add_listener server) plugins)
      else none
]

-- ipc_sanity: false where the assert fails.
unfoldable pub ipc_sanity : List AgentPlugin → Bool
ipc_sanity [] = true
ipc_sanity (plug ∷ plugins) = (not plug.ipc.has_cb || plug.has_start) && ipc_sanity plugins

-- The plugins that main starts a thread for, in the order of the list.
unfoldable pub started : List AgentPlugin → List Str
started [] = []
started (plug ∷ plugins) = if plug.has_start then plug.name ∷ started plugins else started plugins
