-- ===== src/Start/Threads.antt =====
-- The threads that main of src/main.c starts.
use mathlib.Core.Path.{subst}
use vagent.Prelude.{
  arith, inl, inr, ℕ, ◌≡◌, ◌≢◌, refl, sym, List, [], ◌∷◌, Bool, true, false, Option, none, some,
  Str, ◌==◌, if◌then◌else◌, Bool-cases,
}
use vagent.Config.{AgentConfig}
use vagent.Plugins.{AgentPlugin, ipc_sanity, started}
use vagent.Start.{
  Progress, Act, thread, wrote_pidfile, removed_pidfile, noted, threads_started, joined, Main, pure,
  ◌>>◌, act, assert, opened, unopened, running, PidfileOpen, opened_as, Kernel, p_open, user_name,
  group_id, set_ids, become, sandbox, v_daemon, start_plugins, join_plugins, run_threads,
  main_threads, main,
}
use vagent.Start.Outcome.{Post, Post-bind, Post-if}

-- The threads of the plugins, the one started last first.
abbrev pub threads_of : List Act → List Str
threads_of [] = []
threads_of (thread name ∷ older) = name ∷ threads_of older
threads_of (_ ∷ older) = threads_of older

abbrev pub in_reverse : List Str → List Str → List Str
in_reverse [] names = names
in_reverse (name ∷ more) names = in_reverse more (name ∷ names)

-- What the start needs from the system: no other agent holds the pidfile, and, for root, there are the
-- user and the group; the calls to change to them, to fork and to make threads succeed.
pub record Works (k : Kernel) (config : AgentConfig) : Type 0 where
  pub alone : (p : Str) → config.P_arg ≡ some p → (pid : ℕ) → k.pidfile_open p ≢ running pid
  pub ids :
      k.geteuid ≡ 0
      → (uid pg gid : ℕ) × (k.getpwnam (user_name k config) ≡ some (uid, pg))
        × (group_id k config pg ≡ some gid)
  pub setgid : (gid : ℕ) → k.setgid gid ≡ true
  pub setuid : (uid : ℕ) → k.setuid uid ≡ true
  pub daemon : k.daemon ≡ true
  pub pthread_create : (name : Str) → k.pthread_create name ≡ true

-- main goes on for ever behind the start of all threads, or ends with 0 once they have returned.
abbrev pub Serves : List Str → Progress ℕ → Type 0
Serves names r =
    Post (λ code acts. (code ≡ 0) × (threads_of acts ≡ names)) (λ acts. ⊥)
      (λ acts. threads_of acts ≡ names) r

module _ (k : Kernel) (config : AgentConfig) (works : Works k config) (names : List Str) where
  -- A step from a state with some threads to one with others, without an end.
  abbrev Goes : {A : Type 0} → List Str → Main A → List Act → Type 0
  Goes to m acts =
      Post (λ _ acts'. threads_of acts' ≡ to) (λ acts'. ⊥) (λ acts'. threads_of acts' ≡ names)
        (m acts)

  assert-Goes :
      (to : List Str) (b : Bool) (acts : List Act)
      → b ≡ true
      → threads_of acts ≡ to
      → Goes to (assert b) acts
  assert-Goes to true acts e h = h
  assert-Goes to false acts e h = cc

  opened_as-Goes : (r : PidfileOpen) → ((pid : ℕ) → r ≢ running pid) → Goes [] (opened_as k r) []
  unfolding opened_as
  opened_as-Goes opened alone = refl
  opened_as-Goes (running pid) alone = alone pid refl
  opened_as-Goes unopened alone = refl

  p_open-Goes : (o : Option Str) → config.P_arg ≡ o → Goes [] (p_open k o) []
  unfolding p_open
  p_open-Goes none e = refl
  p_open-Goes (some p) e = opened_as-Goes (k.pidfile_open p) (works.alone p e)

  set_ids-Goes :
      (gid uid : ℕ) (acts : List Act)
      → threads_of acts ≡ []
      → Goes [] (set_ids k (some gid) uid) acts
  unfolding set_ids
  set_ids-Goes gid uid acts h = rw (works.setgid gid, works.setuid uid) h

  sandbox-Goes : (acts : List Act) → threads_of acts ≡ [] → Goes [] (sandbox k config) acts
  unfolding sandbox become
  sandbox-Goes acts h =
      Post-if (λ acts'. ⊥) (λ acts'. threads_of acts' ≡ names) (λ _ acts'. threads_of acts' ≡ [])
        (k.geteuid == 0) (become k config (k.getpwnam (user_name k config))) (act noted) acts
        (λ e. root (works.ids (is_root e))) (λ e. h)
    where
      is_root : (k.geteuid == 0) ≡ true → k.geteuid ≡ 0
      is_root e = ground arith

      root :
          (uid pg gid : ℕ) × (k.getpwnam (user_name k config) ≡ some (uid, pg))
            × (group_id k config pg ≡ some gid)
          → Goes [] (become k config (k.getpwnam (user_name k config))) acts
      root (uid, pg, gid, u, g) =
          subst (λ (o : Option (ℕ × ℕ)). Goes [] (become k config o) acts) (sym u)
            (subst (λ (o : Option ℕ). Goes [] (set_ids k o uid) acts) (sym g)
              (set_ids-Goes gid uid acts h))

  detach-Goes :
      (pfh : Bool) (acts : List Act)
      → threads_of acts ≡ []
      → Goes [] (if config.d_arg then act noted else v_daemon k pfh) acts
  unfolding v_daemon
  detach-Goes pfh acts h = elim (Bool-cases config.d_arg) [
    | inl e ↦ rw (e) h
    | inr e ↦ rw (e, works.daemon) h
  ]

  start_plugins-Goes :
      (plugins : List AgentPlugin) (acts : List Act)
      → Goes (in_reverse (started plugins) (threads_of acts)) (start_plugins k plugins) acts
  unfolding start_plugins started
  start_plugins-Goes [] acts = refl
  start_plugins-Goes (plug ∷ plugins) acts = elim (Bool-cases plug.has_start) [
    | inr e ↦ rw (e) (start_plugins-Goes plugins acts)
    | inl e ↦
        rw (e, works.pthread_create plug.name)
          (start_plugins-Goes plugins (thread plug.name ∷ acts))
  ]

  join_plugins-Goes :
      (plugins : List AgentPlugin) (acts : List Act)
      → threads_of acts ≡ names
      → Goes names (join_plugins k plugins) acts
  unfolding join_plugins
  join_plugins-Goes [] acts h = h
  join_plugins-Goes (plug ∷ plugins) acts h = elim (Bool-cases plug.has_start) [
    | inr e ↦ rw (e) (join_plugins-Goes plugins acts h)
    | inl e ↦ elim (Bool-cases (k.returns plug.name)) [
      | inr e' ↦ rw (e, e') h
      | inl e' ↦ rw (e, e') (join_plugins-Goes plugins (joined plug.name ∷ acts) h)
    ]
  ]

  then-Goes :
      {A : Type 0} (to : List Str) (Q : A → List Act → Type 0) (m : Main (Unit {0})) (n : Main A)
      (acts : List Act)
      → Goes to m acts
      → ((acts' : List Act)
          → threads_of acts' ≡ to
          → Post Q (λ acts''. ⊥) (λ acts''. threads_of acts'' ≡ names) (n acts'))
      → Post Q (λ acts'. ⊥) (λ acts'. threads_of acts' ≡ names) ((m >> n) acts)
  then-Goes to Q m n acts h next =
      Post-bind (λ acts'. ⊥) (λ acts'. threads_of acts' ≡ names) (λ _ acts'. threads_of acts' ≡ to)
        Q m (λ _. n) acts h (λ _ acts' e. next acts' e)

  if_opened :
      (pfh : Bool) (a : Act) (to : List Str) (acts : List Act)
      → threads_of (a ∷ acts) ≡ to
      → threads_of acts ≡ to
      → Goes to (if pfh then act a else pure tt) acts
  if_opened true a to acts h k = h
  if_opened false a to acts h k = k

module _ (k : Kernel) (config : AgentConfig) (works : Works k config)
    (plugins : List AgentPlugin) where
  abbrev all_names : List Str
  all_names = in_reverse (started plugins) []

  run_threads-Goes :
      (acts : List Act)
      → threads_of acts ≡ []
      → Goes k config works all_names all_names (run_threads k plugins) acts
  unfolding run_threads
  run_threads-Goes acts h =
      then-Goes k config works all_names all_names (λ _ acts'. threads_of acts' ≡ all_names)
        (start_plugins k plugins) (act (threads_started 2) >> join_plugins k plugins)
        (threads_started 1 ∷ acts)
        (subst
          (λ (now : List Str).
            Goes k config works all_names (in_reverse (started plugins) now)
              (start_plugins k plugins) (threads_started 1 ∷ acts))
          h (start_plugins-Goes k config works all_names plugins (threads_started 1 ∷ acts)))
        (λ acts' e.
          join_plugins-Goes k config works all_names plugins (threads_started 2 ∷ acts') e)

  main_threads-Serves :
      (pfh : Bool) (acts : List Act)
      → ipc_sanity plugins ≡ true
      → threads_of acts ≡ []
      → Serves all_names (main_threads k pfh config plugins acts)
  unfolding main_threads
  main_threads-Serves pfh acts sane h =
      let ends : ℕ → List Act → Type 0 =
        λ code acts'. (code ≡ 0) × (threads_of acts' ≡ all_names) in
      let remove : Main (Unit {0}) = if pfh then act removed_pidfile else pure tt in
      let write : Main (Unit {0}) = if pfh then act wrote_pidfile else pure tt in
      let detach : Main (Unit {0}) = if config.d_arg then act noted else v_daemon k pfh in
      let last : Main ℕ = remove >> pure 0 in
      let threads : Main ℕ = run_threads k plugins >> last in
      let checked : Main ℕ = assert (ipc_sanity plugins) >> threads in
      then-Goes k config works all_names [] ends detach (write >> checked) acts
        (detach-Goes k config works all_names pfh acts h)
        λ acts₁ e₁.
          then-Goes k config works all_names [] ends write checked acts₁
            (if_opened k config works all_names pfh wrote_pidfile [] acts₁ e₁ e₁)
            λ acts₂ e₂.
              then-Goes k config works all_names [] ends (assert (ipc_sanity plugins)) threads acts₂
                (assert-Goes k config works all_names [] (ipc_sanity plugins) acts₂ sane e₂)
                λ acts₃ e₃.
                  then-Goes k config works all_names all_names ends (run_threads k plugins) last
                    acts₃ (run_threads-Goes acts₃ e₃)
                    λ acts₄ e₄.
                      then-Goes k config works all_names all_names ends remove (pure 0) acts₄
                        (if_opened k config works all_names pfh removed_pidfile all_names acts₄ e₄
                          e₄)
                        λ acts₅ e₅. (refl, e₅)

  -- Where the system works and ipc_sanity holds, main starts the thread of every plugin that has a start
  -- function, in the order of the list, once each, and then waits for them, or ends with 0 where all
  -- of them return: no exit and no failed assert stops it on the way.
  pub main-Serves :
      ipc_sanity plugins ≡ true
      → Serves (in_reverse (started plugins) []) (main k config plugins [])
  unfolding main
  main-Serves sane =
      Post-bind (λ acts. ⊥) (λ acts. threads_of acts ≡ all_names) (λ _ acts. threads_of acts ≡ [])
        (λ code acts. (code ≡ 0) × (threads_of acts ≡ all_names)) (p_open k config.P_arg)
        (λ pfh. sandbox k config >> main_threads k pfh config plugins) []
        (p_open-Goes k config works all_names config.P_arg refl)
        λ pfh acts e.
          then-Goes k config works all_names []
            (λ code acts'. (code ≡ 0) × (threads_of acts' ≡ all_names)) (sandbox k config)
            (main_threads k pfh config plugins) acts (sandbox-Goes k config works all_names acts e)
            (λ acts' e'. main_threads-Serves pfh acts' sane e')
