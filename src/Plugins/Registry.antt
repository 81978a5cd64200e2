-- ===== src/Plugins/Registry.antt =====
-- The list of plugins as a table by name: plugin_find against plugin_alloc and ipc_register.
use vagent.Prelude.{
  Option-cases, ◌⊎◌, inl, inr, ℕ, ◌<◌, ◌≤◌, ◌≡◌, refl, List, [], ◌∷◌, false, none, some, Str,
  if◌then◌else◌, strcmp_eq, strcmp_eq_refl, strcmp_eq_sound, length, length-append, All, arith,
}
use vagent.Plugins.{
  AgentPlugin, ipc_init, max_listeners, plugin_find, plugin_alloc, plugin_names, core_alloc_plugins,
  alloc_all, add_listener, update_plugin, ipc_register,
}

-- The plugin that plugin_find returns has the name.
plugin_find-name :
    (plugins : List AgentPlugin) (name : Str) {plug : AgentPlugin}
    → plugin_find plugins name ≡ some plug
    → plug.name ≡ name
unfolding plugin_find
plugin_find-name [] name h = ground arith
plugin_find-name (p ∷ ps) name {plug} h =
    ground (arith, strcmp_eq_sound name p.name, plugin_find-name ps name {plug = plug})

find-update :
    (plugins : List AgentPlugin) (name other : Str) (f : AgentPlugin → AgentPlugin)
    → ((p : AgentPlugin) → (f p).name ≡ p.name)
    → plugin_find (update_plugin name f plugins) other ≡ (
        if strcmp_eq other name
        then elim (plugin_find plugins name) [ none ↦ none | some p ↦ some (f p) ]
        else plugin_find plugins other)
unfolding plugin_find update_plugin
find-update [] name other f keep = ground arith
find-update (p ∷ ps) name other f keep = ground (
  arith,
  keep p,
  find-update ps name other f keep,
  strcmp_eq_sound name p.name,
  strcmp_eq_sound other p.name,
  strcmp_eq_sound other name,
  strcmp_eq_refl name,
  strcmp_eq_refl p.name,
  strcmp_eq_refl other,
)

abbrev pub Bounded : AgentPlugin → Type 0
Bounded p = length p.ipc.listeners ≤ max_listeners

add_listener-name : (server : ℕ) (p : AgentPlugin) → (add_listener server p).name ≡ p.name
unfolding add_listener
add_listener-name server p = refl

All-update :
    (plugins : List AgentPlugin) (name : Str) (server : ℕ) {plug : AgentPlugin}
    → plugin_find plugins name ≡ some plug
    → length plug.ipc.listeners < max_listeners
    → All Bounded plugins
    → All Bounded (update_plugin name (add_listener server) plugins)
unfolding plugin_find update_plugin add_listener
All-update [] name server h room b = tt
All-update (p ∷ ps) name server {plug} h room b =
    ground
      (arith, length-append p.ipc.listeners (server ∷ []), All-update ps name server {plug = plug})

-- A successful ipc_register hands back the client's end, puts the server's end behind the listeners
-- of the named plugin, leaves what plugin_find returns for every other name, and keeps every plugin
-- within MAX_LISTENERS.
pub ipc_register_lem :
    (plugins plugins' : List AgentPlugin) (name : Str) (server client fd : ℕ)
    → All Bounded plugins
    → ipc_register name server client plugins ≡ some (fd, plugins')
    → (fd ≡ client)
      × ((other : Str)
          → plugin_find plugins' other ≡ (
              if strcmp_eq other name
              then elim (plugin_find plugins name) [
                | none ↦ none
                | some p ↦ some (add_listener server p)
              ]
              else plugin_find plugins other))
      × All Bounded plugins'
unfolding ipc_register
ipc_register_lem plugins plugins' name server client fd b h =
    elim (Option-cases (plugin_find plugins name)) [
      | inl e ↦ ground arith
      | inr (plug, e) ↦
          let same : plugins' ≡ update_plugin name (add_listener server) plugins = ground arith in
          (
            ground arith,
            λ other.
                rw same
                  (find-update plugins name other (add_listener server) (add_listener-name server)),
            rw same (All-update plugins name server e (ground arith) b),
          )
    ]

unfoldable pub fresh : Str → AgentPlugin
fresh name = record { name = name; ipc = ipc_init; has_start = false }

abbrev pub IsNamed : Str → List Str → Type 0
IsNamed name [] = ⊥
IsNamed name (n ∷ names) = (name ≡ n) ⊎ IsNamed name names

-- A name that is in the table, or in the list before, is found afterwards.
alloc_all-keeps :
    (names : List Str) (plugins : List AgentPlugin) (name : Str)
    → plugin_find plugins name ≡ some (fresh name)
    → plugin_find (alloc_all names plugins) name ≡ some (fresh name)
unfolding alloc_all plugin_alloc plugin_find fresh
alloc_all-keeps [] plugins name h = h
alloc_all-keeps (n ∷ names) plugins name h =
    alloc_all-keeps names _ name (ground (arith, strcmp_eq_sound name n))

alloc_all-IsNamed :
    (names : List Str) (plugins : List AgentPlugin) (name : Str)
    → IsNamed name names
    → plugin_find (alloc_all names plugins) name ≡ some (fresh name)
unfolding alloc_all plugin_alloc plugin_find fresh
alloc_all-IsNamed [] plugins name h = absurd h
alloc_all-IsNamed (n ∷ names) plugins name (inl e) =
    alloc_all-keeps names _ name (ground (arith, strcmp_eq_refl n))
alloc_all-IsNamed (n ∷ names) plugins name (inr h) = alloc_all-IsNamed names _ name h

-- After core_alloc_plugins, plugin_find of each name of the table returns a plugin of that name
-- with no listener, callback or start function; it never returns NULL there.
pub core_alloc_plugins_lem :
    (name : Str)
    → IsNamed name plugin_names
    → plugin_find core_alloc_plugins name ≡ some (fresh name)
unfolding core_alloc_plugins
core_alloc_plugins_lem name h = alloc_all-IsNamed plugin_names [] name h
