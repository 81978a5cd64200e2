-- ===== src/Vping.antt =====
-- src/modules/vping.c: the commands that the thread sends every 30 seconds.
use vagent.Prelude.{◌&&◌, ◌==◌, if◌then◌else◌, strcmp_eq, text}
use vagent.Exec.{M, Peers, ◌>>=◌, ◌>>◌, pure, log, ipc_run}

module _ {S : Type 0} (peers : Peers S) where
  -- A round of vping_run, after its sleep.
  unfoldable pub vping_round : M S Unit
  vping_round = do
    vret ← ipc_run peers (text "ping")
    if vret.status == 200 then pure tt else log 2
    vret ← ipc_run peers (text "status")
    if (vret.status == 200) && strcmp_eq vret.answer (text "Child in state running")
        then pure tt
        else log 2
