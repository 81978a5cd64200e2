-- ===== src/Start.antt =====
-- src/main.c from core_plugins on: the pidfile, the change of user and group, the fork, and the
-- threads. The kernel, libpidfile and the name service are parameters.
pub mod Order
pub mod Dropping
pub mod Outcome
pub mod Privileges
pub mod Threads
pub mod Whole
use vagent.Prelude.{
  ℕ, List, [], ◌∷◌, Bool, true, false, Option, none, some, Str, text, ◌==◌, if◌then◌else◌,
}
use vagent.Config.{AgentConfig}
use vagent.Plugins.{AgentPlugin, ipc_sanity}

-- What the process did that can be seen from outside or by its threads, and `threads_started`.
pub data Act : Type 0 where
  opened_pidfile wrote_pidfile removed_pidfile daemonized warned noted : Act
  set_gid set_uid threads_started : ℕ → Act
  thread joined : Str → Act

-- How main goes on, with what was done so far, newest first.
pub data Progress (A : Type 0) : Type 0 where
  value : A → List Act → Progress A
  -- exit and errx
  exited : ℕ → List Act → Progress A
  -- an assert failed
  aborted : List Act → Progress A
  -- pthread_join of a thread that does not return
  waits : List Act → Progress A

abbrev pub Main : Type 0 → Type 0
Main A = List Act → Progress A

abbrev pub pure : {A : Type 0} → A → Main A
pure a acts = value a acts

infixl 5 ◌>>=◌ ◌>>◌
abbrev pub ◌>>=◌ : {A B : Type 0} → Main A → (A → Main B) → Main B
◌>>=◌ m f acts = elim (m acts) [
  | value a acts' ↦ f a acts'
  | exited n acts' ↦ exited n acts'
  | aborted acts' ↦ aborted acts'
  | waits acts' ↦ waits acts'
]

abbrev pub ◌>>◌ : {B : Type 0} → Main (Unit {0}) → Main B → Main B
m >> k = m >>= λ _. k

abbrev pub act : Act → Main (Unit {0})
act a acts = value tt (a ∷ acts)

abbrev pub assert : Bool → Main (Unit {0})
assert true acts = value tt acts
assert false acts = aborted acts

abbrev pub exit : {A : Type 0} → ℕ → Main A
exit n acts = exited n acts

pub data PidfileOpen : Type 0 where
  opened unopened : PidfileOpen
  -- EEXIST, with the pid of the other process
  running : ℕ → PidfileOpen

pub record Kernel : Type 0 where
  pub geteuid : ℕ
  -- the ids of the user and of its group
  pub getpwnam : Str → Option (ℕ × ℕ)
  pub getgrnam : Str → Option ℕ
  -- whether the calls return 0
  pub setgid : ℕ → Bool
  pub setuid : ℕ → Bool
  pub daemon : Bool
  pub pidfile_open : Str → PidfileOpen
  pub pthread_create : Str → Bool
  -- whether the thread of a plugin ever returns
  pub returns : Str → Bool

module _ (k : Kernel) where
  -- p_open, by what pidfile_open returns; whether `pfh` is set.
  unfoldable pub opened_as : PidfileOpen → Main Bool
  opened_as opened = do act opened_pidfile; pure true
  opened_as (running pid) = exit 1
  opened_as unopened = do act warned; pure false

  -- With -P.
  unfoldable pub p_open : Option Str → Main Bool
  unfolding opened_as
  p_open none = pure false
  p_open (some p) = opened_as (k.pidfile_open p)

  -- The argument of -u, or "varnish".
  abbrev pub user_name : AgentConfig → Str
  user_name config = elim config.u_arg [ none ↦ text "varnish" | some u ↦ u ]

  -- The group's id: that of -g, or that of the user. `none`: there is no such group.
  unfoldable pub group_id : AgentConfig → ℕ → Option ℕ
  group_id config pw_gid = elim config.g_arg [ none ↦ some pw_gid | some g ↦ k.getgrnam g ]

  unfoldable pub set_ids : Option ℕ → ℕ → Main (Unit {0})
  set_ids none uid = exit 1
  set_ids (some gid) uid = do
    assert (k.setgid gid)
    act (set_gid gid)
    assert (k.setuid uid)
    act (set_uid uid)

  unfoldable pub become : AgentConfig → Option (ℕ × ℕ) → Main (Unit {0})
  unfolding group_id
  become config none = exit 1
  become config (some (uid, gid)) = set_ids (group_id config gid) uid

  unfoldable pub sandbox : AgentConfig → Main (Unit {0})
  sandbox config =
      if k.geteuid == 0 then become config (k.getpwnam (user_name config)) else act noted

  unfoldable pub v_daemon : Bool → Main (Unit {0})
  v_daemon pfh =
      if k.daemon
      then act daemonized
      else (do act warned; (if pfh then act removed_pidfile else pure tt); exit 1)

  -- `if (plug->start != NULL) plug->thread = plug->start(...)`, whose pthread_create is asserted.
  unfoldable pub start_plugins : List AgentPlugin → Main (Unit {0})
  start_plugins [] = pure tt
  start_plugins (plug ∷ plugins) = do
    (if plug.has_start
        then (do assert (k.pthread_create plug.name); act (thread plug.name))
        else pure tt)
    start_plugins plugins

  unfoldable pub join_plugins : List AgentPlugin → Main (Unit {0})
  join_plugins [] = pure tt
  join_plugins (plug ∷ plugins) = do
    (if plug.has_start
        then (if k.returns plug.name then act (joined plug.name) else waits)
        else pure tt)
    join_plugins plugins

  unfoldable pub run_threads : List AgentPlugin → Main (Unit {0})
  run_threads plugins = do
    act (threads_started 1)
    start_plugins plugins
    act (threads_started 2)
    join_plugins plugins

  -- From the fork on.
  unfoldable pub main_threads : Bool → AgentConfig → List AgentPlugin → Main ℕ
  main_threads pfh config plugins = do
    (if config.d_arg then act noted else v_daemon pfh)
    (if pfh then act wrote_pidfile else pure tt)
    assert (ipc_sanity plugins)
    run_threads plugins
    (if pfh then act removed_pidfile else pure tt)
    pure 0

  -- main from core_plugins on.
  unfoldable pub main : AgentConfig → List AgentPlugin → Main ℕ
  main config plugins = do
    pfh ← p_open config.P_arg
    sandbox config
    main_threads pfh config plugins
