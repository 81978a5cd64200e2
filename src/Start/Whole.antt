-- ===== src/Start/Whole.antt =====
-- main of src/main.c from its first call of the plugins to its threads.
use vagent.Prelude.{[], Option, none, some, Str}
use vagent.Config.{AgentConfig}
use vagent.Exec.{M}
use vagent.Http.{HttpRequest}
use vagent.Init.{Callback, Core}
use vagent.Init.Routes.{thread_names}
use vagent.Vadmin.{Vadmin}
use vagent.Start.{Kernel, main}
use vagent.Start.Threads.{Serves, in_reverse}

module _ {S : Type 0} (cb : Callback → HttpRequest → Option Str → M S Unit) (k : Kernel)
    (config : AgentConfig) where
  -- core_plugins left a core, and main on its plugins comes to its threads, the last one first.
  abbrev pub Up : Option (Core S) → Type 0
  Up none = ⊥
  Up (some core) = Serves (in_reverse thread_names []) (main k config core.plugins [])
