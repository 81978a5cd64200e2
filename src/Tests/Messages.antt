-- ===== src/Tests/Messages.antt =====
-- The properties of src/ipc.c and src/plugins.c at concrete messages.
use vagent.Prelude.{
  strcmp_eq, if◌then◌else◌, ◌==◌, ◌<◌, All, ℕ, List, [], ◌∷◌, ◌++◌, true, false, Option, none, some,
  Str, text, refl, ◌≡◌, ◌≢◌, drop, take, cut_at, replicate, length, arith, inl, inr,
}
use vagent.Ipc.{
  Client, ipc_send, ipc_cmd, message, ipc_verify_sock_thread, ipc_write, read_loop, waiting,
  length_header,
}
use vagent.Ipc.Framing.{ipc_cmd-ipc_send, read_loop-closed, send_all}
use vagent.Ipc.Handles.{verify-owner}
use vagent.Plugins.{
  plugin_names, plugin_find, core_alloc_plugins, ipc_register, plugin_alloc, add_listener,
  AgentPlugin,
}
use vagent.Plugins.Registry.{IsNamed, ipc_register_lem, fresh, Bounded}

abbrev client : Client
client = record { tid_to_fd = λ _. 0; wire = [] }

abbrev owned : Client
owned = record { tid_to_fd = λ fd. if fd == 5 then 1 else 0; wire = [] }

verify-owner_example :
    (owned.tid_to_fd 5 ≡ 1)
    × (◌≢◌ {A = ℕ} 2 1 → ipc_verify_sock_thread 5 2 owned ≡ none)
    × ((fd : ℕ) → fd ≢ 5 → owned.tid_to_fd fd ≡ client.tid_to_fd fd)
verify-owner_example =
    verify-owner 5 1 2 client owned (omega arith) (omega arith)
      (unfold ipc_verify_sock_thread in refl)

read_loop-closed_example : read_loop 4 (text "pi") (replicate 3 []) ≡ waiting
read_loop-closed_example =
    read_loop-closed 4 (text "pi") 3 (unfold text in omega arith) (unfold text in omega arith)

abbrev sent_ping : Client
sent_ping = record {
  tid_to_fd = λ fd. if fd == 5 then 1 else (if fd == 5 then 1 else 0);
  wire = text "000000004 ping";
}

ping_sent : send_all 1 5 1 0 (text "ping") client ≡ some sent_ping
unfolding ipc_send text ipc_write length_header
ping_sent = refl

parts : All (λ p. 0 < length p) (text "pi" ∷ text "ng" ∷ [])
unfolding text
parts = (omega arith, (omega arith, tt))

ipc_cmd-ipc_send_example :
    ipc_cmd (take 10 (text "000000004 ping")) (text "pi" ∷ text "ng" ∷ [])
    ≡ message (cut_at 0 (text "ping"))
ipc_cmd-ipc_send_example =
    ipc_cmd-ipc_send 1 5 1 0 (text "ping") client sent_ping (text "pi" ∷ text "ng" ∷ []) refl
      ping_sent parts (unfold text in refl)

abbrev two_plugins : List AgentPlugin
two_plugins = fresh (text "curl") ∷ fresh (text "logger") ∷ []

abbrev registered : List AgentPlugin
registered = fresh (text "curl") ∷ add_listener 7 (fresh (text "logger")) ∷ []

register_logger : ipc_register (text "logger") 7 8 two_plugins ≡ some (8, registered)
unfolding ipc_register plugin_find vagent.Prelude.strcmp_eq text fresh vagent.Plugins.ipc_init
register_logger = refl

two_plugins-Bounded : All Bounded two_plugins
unfolding fresh vagent.Plugins.ipc_init
two_plugins-Bounded = (omega arith, (omega arith, tt))

ipc_register_lem_example :
    (◌≡◌ {A = ℕ} 8 8)
    × ((other : Str)
        → plugin_find registered other ≡ (
            if strcmp_eq other (text "logger")
            then elim (plugin_find two_plugins (text "logger")) [
              | none ↦ none
              | some p ↦ some (add_listener 7 p)
            ]
            else plugin_find two_plugins other))
    × All Bounded registered
ipc_register_lem_example =
    ipc_register_lem two_plugins registered (text "logger") 7 8 8 two_plugins-Bounded
      register_logger

logger-IsNamed : IsNamed (text "logger") plugin_names
unfolding plugin_names
logger-IsNamed = inr (inl refl)
