-- ===== src/Start/Dropping.antt =====
-- The pidfile, the change of user and the fork of src/main.c.
use mathlib.Core.List.{Memᴰ}
use vagent.Prelude.{
  arith, Bool-cases, ℕ, ◌≡◌, refl, List, [], ◌∷◌, Bool, true, false, Option, none, some, Str, ◌==◌,
  if◌then◌else◌, inl, inr,
}
use vagent.Config.{AgentConfig}
use vagent.Start.{
  opened_as, Act, removed_pidfile, daemonized, warned, noted, pure, ◌>>◌, act, exit, opened,
  unopened, running, PidfileOpen, Kernel, p_open, user_name, group_id, set_ids, become, sandbox,
  v_daemon,
}
use vagent.Start.Outcome.{Post, Post-if}
use vagent.Start.Order.{Ids, Ordered, Opened-later, Early, Late, Late-act, Goes}

module _ (k : Kernel) (config : AgentConfig) where
  abbrev Ordering : List Act → Type 0
  Ordering = Ordered k config

  abbrev Before : Bool → List Act → Type 0
  Before = Early k config

  abbrev After : Bool → List Act → Type 0
  After = Late k config

  opened_as-Early : (r : PidfileOpen) → Post Before Ordering Ordering (opened_as k r [])
  unfolding opened_as
  opened_as-Early opened = record { opened = Memᴰ.head refl; ordered = (tt, tt) }
  opened_as-Early (running pid) = tt
  opened_as-Early unopened = record { opened = tt; ordered = (tt, tt) }

  pub p_open-Early : (o : Option Str) → Post Before Ordering Ordering (p_open k o [])
  unfolding p_open
  p_open-Early none = record { opened = tt; ordered = tt }
  p_open-Early (some p) = opened_as-Early (k.pidfile_open p)

  set_ids-Late :
      (pfh : Bool) (o : Option ℕ) (uid pg : ℕ) (acts : List Act)
      → k.getpwnam (user_name k config) ≡ some (uid, pg)
      → group_id k config pg ≡ o
      → Before pfh acts
      → Goes k config pfh (set_ids k o uid) acts
  unfolding set_ids
  set_ids-Late pfh none uid pg acts u g early = early.ordered
  set_ids-Late pfh (some gid) uid pg acts u g early =
      let ids : Ids k config uid gid = record { pw_gid = pg; user = u; group = g } in
      elim (Bool-cases (k.setgid gid)) [
        | inr e ↦ rw (e) early.ordered
        | inl e ↦ elim (Bool-cases (k.setuid uid)) [
          | inr e' ↦ rw (e, e') ((uid, ids), early.ordered)
          | inl e' ↦
              rw (e, e')
                (record {
                  opened =
                      Opened-later k config pfh _ _ (Opened-later k config pfh _ _ early.opened);
                  ordered = ((gid, ids, Memᴰ.head refl), ((uid, ids), early.ordered));
                  dropped = record { uid = uid; done = Memᴰ.head refl };
                })
        ]
      ]

  become-Late :
      (pfh : Bool) (o : Option (ℕ × ℕ)) (acts : List Act)
      → k.getpwnam (user_name k config) ≡ o
      → Before pfh acts
      → Goes k config pfh (become k config o) acts
  unfolding become
  become-Late pfh none acts u early = early.ordered
  become-Late pfh (some (uid, pg)) acts u early =
      set_ids-Late pfh (group_id k config pg) uid pg acts u refl early

  pub sandbox-Late :
      (pfh : Bool) (acts : List Act)
      → k.geteuid ≡ 0
      → Before pfh acts
      → Goes k config pfh (sandbox k config) acts
  unfolding sandbox become
  sandbox-Late pfh acts root early =
      Post-if Ordering Ordering (λ _ acts'. After pfh acts') (k.geteuid == 0)
        (become k config (k.getpwnam (user_name k config))) (act noted) acts
        (λ e. become-Late pfh _ acts refl early) (λ e. absurd (not_root e))
    where
      not_root : (k.geteuid == 0) ≡ false → ⊥
      not_root e = ground (arith, root)

  cannot :
      (pfh : Bool) (acts : List Act)
      → After pfh acts
      → Goes k config pfh
          ((if pfh then act removed_pidfile else pure tt) >> exit {A = Unit {0}} 1)
          acts
  cannot true acts late = (late.opened, late.ordered)
  cannot false acts late = late.ordered

  pub v_daemon-Late :
      (pfh : Bool) (acts : List Act) → After pfh acts → Goes k config pfh (v_daemon k pfh) acts
  unfolding v_daemon
  v_daemon-Late pfh acts late =
      Post-if Ordering Ordering (λ _ acts'. After pfh acts') k.daemon (act daemonized)
        (act warned >> ((if pfh then act removed_pidfile else pure tt) >> exit 1)) acts
        (λ e. Late-act k config pfh daemonized acts late late.dropped)
        (λ e. cannot pfh (warned ∷ acts) (Late-act k config pfh warned acts late tt))
