-- ===== src/Start/Order.antt =====
-- What main of src/main.c does before what.
use mathlib.Core.List.{Memᴰ}
use vagent.Prelude.{ℕ, ◌≡◌, List, [], ◌∷◌, Bool, true, false, some}
use vagent.Config.{AgentConfig}
use vagent.Start.{
  Progress, Act, opened_pidfile, wrote_pidfile, removed_pidfile, daemonized, warned, noted, set_gid,
  set_uid, threads_started, thread, joined, Main, value, exited, aborted, waits, Kernel, user_name,
  group_id,
}
use vagent.Start.Outcome.{Post}

-- What was done when main stops or waits.
abbrev pub acts_of : {A : Type 0} → Progress A → List Act
acts_of (value a acts) = acts
acts_of (exited n acts) = acts
acts_of (aborted acts) = acts
acts_of (waits acts) = acts

module _ (k : Kernel) (config : AgentConfig) where
  -- The ids that the options and the name service give.
  pub record Ids (uid gid : ℕ) : Type 0 where
    pub pw_gid : ℕ
    pub user : k.getpwnam (user_name k config) ≡ some (uid, pw_gid)
    pub group : group_id k config pw_gid ≡ some gid

  pub record Dropped (acts : List Act) : Type 0 where
    pub uid : ℕ
    pub done : Memᴰ (set_uid uid) acts

  -- What has to be done before an act.
  abbrev pub Needs : Act → List Act → Type 0
  Needs opened_pidfile older = Unit
  Needs wrote_pidfile older = Memᴰ opened_pidfile older
  Needs removed_pidfile older = Memᴰ opened_pidfile older
  Needs daemonized older = Dropped older
  Needs warned older = Unit
  Needs noted older = Unit
  Needs (set_gid gid) older = (uid : ℕ) × Ids uid gid
  Needs (set_uid uid) older = (gid : ℕ) × Ids uid gid × Memᴰ (set_gid gid) older
  Needs (threads_started n) older = Dropped older
  Needs (thread name) older = Dropped older × Memᴰ (threads_started 1) older
  Needs (joined name) older = Memᴰ (threads_started 2) older

  abbrev pub Ordered : List Act → Type 0
  Ordered [] = Unit
  Ordered (a ∷ older) = Needs a older × Ordered older

  abbrev pub Opened : Bool → List Act → Type 0
  Opened true acts = Memᴰ opened_pidfile acts
  Opened false acts = Unit

  pub Opened-later :
      (pfh : Bool) (a : Act) (acts : List Act) → Opened pfh acts → Opened pfh (a ∷ acts)
  Opened-later true a acts h = Memᴰ.tail h
  Opened-later false a acts h = tt

  -- Up to the change of user, and behind it.
  pub record Early (pfh : Bool) (acts : List Act) : Type 0 where
    pub opened : Opened pfh acts
    pub ordered : Ordered acts

  pub record Late (pfh : Bool) (acts : List Act) : Type 0 where
    pub opened : Opened pfh acts
    pub ordered : Ordered acts
    pub dropped : Dropped acts

  pub Late-act :
      (pfh : Bool) (a : Act) (acts : List Act) → Late pfh acts → Needs a acts → Late pfh (a ∷ acts)
  Late-act pfh a acts late needs = record {
    opened = Opened-later pfh a acts late.opened;
    ordered = (needs, late.ordered);
    dropped = record { uid = late.dropped.uid; done = Memᴰ.tail late.dropped.done };
  }

  -- From a state to what holds behind a step.
  abbrev pub Goes : {A : Type 0} → Bool → Main A → List Act → Type 0
  Goes pfh m acts = Post (λ _ acts'. Late pfh acts') Ordered Ordered (m acts)

  pub Post-acts :
      {A : Type 0} (r : Progress A)
      → Post (λ _ acts. Ordered acts) Ordered Ordered r
      → Ordered (acts_of r)
  Post-acts (value a acts) h = h
  Post-acts (exited n acts) h = h
  Post-acts (aborted acts) h = h
  Post-acts (waits acts) h = h
