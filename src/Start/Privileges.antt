-- ===== src/Start/Privileges.antt =====
-- When main of src/main.c gives up root, and what it does before and after.
use mathlib.Core.List.{Memᴰ}
use vagent.Prelude.{
  Bool-cases, ℕ, ◌≡◌, refl, List, [], ◌∷◌, Bool, true, false, if◌then◌else◌, inl, inr,
}
use vagent.Config.{AgentConfig}
use vagent.Plugins.{AgentPlugin, ipc_sanity}
use vagent.Start.{
  main_threads, Act, opened_pidfile, wrote_pidfile, removed_pidfile, noted, threads_started, thread,
  joined, Main, pure, ◌>>◌, act, assert, Kernel, p_open, sandbox, v_daemon, start_plugins,
  join_plugins, run_threads, main,
}
use vagent.Start.Outcome.{Post, Post-bind, Post-if, Post-weaken}
use vagent.Start.Order.{Needs, Ordered, Early, Late, Late-act, Goes, acts_of, Post-acts}
use vagent.Start.Dropping.{p_open-Early, sandbox-Late, v_daemon-Late}

module _ (k : Kernel) (config : AgentConfig) where
  abbrev Ordering : List Act → Type 0
  Ordering = Ordered k config

  abbrev Before : Bool → List Act → Type 0
  Before = Early k config

  abbrev After : Bool → List Act → Type 0
  After = Late k config

  assert-Post :
      (Q : List Act → Type 0) (b : Bool) (acts : List Act)
      → Q acts
      → Ordering acts
      → Post (λ _ acts'. Q acts') Ordering Ordering (assert b acts)
  assert-Post Q true acts q o = q
  assert-Post Q false acts q o = o

  -- The state in which the threads are started.
  record Starting (pfh : Bool) (acts : List Act) : Type 0 where
    late : After pfh acts
    one : Memᴰ (threads_started 1) acts

  start_plugins-Starting :
      (pfh : Bool) (plugins : List AgentPlugin) (acts : List Act)
      → Starting pfh acts
      → Post (λ _ acts'. Starting pfh acts') Ordering Ordering (start_plugins k plugins acts)
  unfolding start_plugins
  start_plugins-Starting pfh [] acts h = h
  start_plugins-Starting pfh (plug ∷ plugins) acts h = elim (Bool-cases plug.has_start) [
    | inr e ↦ rw (e) (start_plugins-Starting pfh plugins acts h)
    | inl e ↦ elim (Bool-cases (k.pthread_create plug.name)) [
      | inr e' ↦ rw (e, e') h.late.ordered
      | inl e' ↦
          rw (e, e')
            (start_plugins-Starting pfh plugins (thread plug.name ∷ acts) (record {
              late = Late-act k config pfh _ acts h.late (h.late.dropped, h.one);
              one = Memᴰ.tail h.one;
            }))
    ]
  ]

  record Joining (pfh : Bool) (acts : List Act) : Type 0 where
    late : After pfh acts
    two : Memᴰ (threads_started 2) acts

  join_plugins-Joining :
      (pfh : Bool) (plugins : List AgentPlugin) (acts : List Act)
      → Joining pfh acts
      → Post (λ _ acts'. Joining pfh acts') Ordering Ordering (join_plugins k plugins acts)
  unfolding join_plugins
  join_plugins-Joining pfh [] acts h = h
  join_plugins-Joining pfh (plug ∷ plugins) acts h = elim (Bool-cases plug.has_start) [
    | inr e ↦ rw (e) (join_plugins-Joining pfh plugins acts h)
    | inl e ↦ elim (Bool-cases (k.returns plug.name)) [
      | inr e' ↦ rw (e, e') h.late.ordered
      | inl e' ↦
          rw (e, e')
            (join_plugins-Joining pfh plugins (joined plug.name ∷ acts)
              (record { late = Late-act k config pfh _ acts h.late h.two; two = Memᴰ.tail h.two }))
    ]
  ]

  if_opened :
      (pfh : Bool) (a : Act) (acts : List Act)
      → (Memᴰ opened_pidfile acts → Needs k config a acts)
      → After pfh acts
      → Goes k config pfh (if pfh then act a else pure tt) acts
  if_opened true a acts needs late = Late-act k config true a acts late (needs late.opened)
  if_opened false a acts needs late = late

  foreground :
      (pfh : Bool) (acts : List Act)
      → After pfh acts
      → Goes k config pfh (if config.d_arg then act noted else v_daemon k pfh) acts
  foreground pfh acts late =
      Post-if Ordering Ordering (λ _ acts'. After pfh acts') config.d_arg (act noted)
        (v_daemon k pfh) acts (λ e. Late-act k config pfh noted acts late tt)
        (λ e. v_daemon-Late k config pfh acts late)

  run_threads-Late :
      (pfh : Bool) (plugins : List AgentPlugin) (acts : List Act)
      → After pfh acts
      → Goes k config pfh (run_threads k plugins) acts
  unfolding run_threads
  run_threads-Late pfh plugins acts late =
      let one = Late-act k config pfh (threads_started 1) acts late late.dropped in
      Post-bind Ordering Ordering (λ _ acts'. Starting pfh acts') (λ _ acts'. After pfh acts')
        (start_plugins k plugins) _ (threads_started 1 ∷ acts)
        (start_plugins-Starting pfh plugins _ (record { late = one; one = Memᴰ.head refl }))
        λ _ acts' h.
          Post-weaken Ordering Ordering (λ _ acts''. Joining pfh acts'')
            (λ _ acts''. After pfh acts'') (join_plugins k plugins (threads_started 2 ∷ acts'))
            (λ _ acts'' h'. h'.late)
            (join_plugins-Joining pfh plugins _ (record {
              late = Late-act k config pfh (threads_started 2) acts' h.late h.late.dropped;
              two = Memᴰ.head refl;
            }))

  then_late :
      {A : Type 0} (pfh : Bool) (m : Main (Unit {0})) (n : Main A) (acts : List Act)
      → Goes k config pfh m acts
      → ((acts' : List Act)
          → After pfh acts'
          → Post (λ _ acts''. Ordering acts'') Ordering Ordering (n acts'))
      → Post (λ _ acts'. Ordering acts') Ordering Ordering ((m >> n) acts)
  then_late pfh m n acts h next =
      Post-bind Ordering Ordering (λ _ acts'. After pfh acts') (λ _ acts'. Ordering acts') m
        (λ _. n) acts h (λ _ acts' late. next acts' late)

  main_threads-Ordered :
      (pfh : Bool) (plugins : List AgentPlugin) (acts : List Act)
      → After pfh acts
      → Post (λ _ acts'. Ordering acts') Ordering Ordering (main_threads k pfh config plugins acts)
  unfolding main_threads
  main_threads-Ordered pfh plugins acts late =
      let remove : Main (Unit {0}) = if pfh then act removed_pidfile else pure tt in
      let write : Main (Unit {0}) = if pfh then act wrote_pidfile else pure tt in
      let detach : Main (Unit {0}) = if config.d_arg then act noted else v_daemon k pfh in
      let last : Main ℕ = remove >> pure 0 in
      let threads : Main ℕ = run_threads k plugins >> last in
      let checked : Main ℕ = assert (ipc_sanity plugins) >> threads in
      then_late pfh detach (write >> checked) acts (foreground pfh acts late) λ acts₁ l₁.
        then_late pfh write checked acts₁ (if_opened pfh wrote_pidfile acts₁ (λ o. o) l₁)
          λ acts₂ l₂.
            then_late pfh (assert (ipc_sanity plugins)) threads acts₂
              (assert-Post (After pfh) (ipc_sanity plugins) acts₂ l₂ l₂.ordered)
              λ acts₃ l₃.
                then_late pfh (run_threads k plugins) last acts₃
                  (run_threads-Late pfh plugins acts₃ l₃)
                  λ acts₄ l₄.
                    then_late pfh remove (pure 0) acts₄
                      (if_opened pfh removed_pidfile acts₄ (λ o. o) l₄) λ acts₅ l₅. l₅.ordered

  -- Started as root, main sets the group and then the user, those of the options -u and -g, before it
  -- forks, before threads_started is set, and before it starts any thread; it writes or removes a
  -- pidfile only where it opened one, and joins threads only once all are started. So it is wherever
  -- main stops: by exit, by an assert, at a join, or at its end.
  pub main-Ordered :
      (plugins : List AgentPlugin)
      → k.geteuid ≡ 0
      → Ordered k config (acts_of (main k config plugins []))
  unfolding main
  main-Ordered plugins root = Post-acts k config _ (
      Post-bind Ordering Ordering Before (λ _ acts. Ordering acts) (p_open k config.P_arg) _ []
        (p_open-Early k config config.P_arg)
        λ pfh acts early.
          then_late pfh (sandbox k config) (main_threads k pfh config plugins) acts
            (sandbox-Late k config pfh acts root early)
            λ acts' late. main_threads-Ordered pfh plugins acts' late)
