-- ===== src/Exec.antt =====
-- The actions of the agent. A request handler runs to its end or fails an assert, which aborts the
-- process (common.h, logger.c). It acts on the world outside: the peers behind the IPC handles
-- (their state is the parameter `S`) and the trace of what the agent did, newest event first.
pub mod Refinement
use vagent.Prelude.{
  refl, ◌<◌, arith, ltb, length, ◌≤◌, if◌then◌else◌, ℕ, List, ◌∷◌, Bool, true, false, Str, ◌≡◌, ap,
}

-- struct ipc_ret_t
pub record IpcRet : Type 0 where
  pub status : ℕ
  pub answer : Str

-- ANSWER(r, code, reason)
abbrev pub answered : ℕ → Str → IpcRet
answered code reason = record { status = code; answer = reason }

-- A header as libmicrohttpd passes it.
abbrev pub Header : Type 0
Header = Str × Str

-- What MHD_queue_response is given: the headers in the order of MHD_add_response_header.
pub record Sent : Type 0 where
  pub status : ℕ
  pub headers : List Header
  pub body : Str

pub data Event : Type 0 where
  -- a command that ipc_run gave to the plugin "vadmin", and what came back
  ran : Str → IpcRet → Event
  -- the same for the plugin "curl"
  fetched : Str → IpcRet → Event
  -- a response that was queued
  replied : Sent → Event
  -- a line for the logger, with its level: 1 warnlog, 2 logger, 3 debuglog
  logged : ℕ → Event

pub record World (S : Type 0) : Type 0 where
  pub peer : S
  pub trace : List Event

pub data Run (S A : Type 0) : Type 0 where
  done : A → World S → Run S A
  aborted : Run S A
  -- `assert(len < 1000000000)` of ipc_send fails, for this command
  oversized : Str → Run S A

abbrev pub M : Type 0 → Type 0 → Type 0
M S A = World S → Run S A

module _ {S : Type 0} where
  abbrev pub pure : {A : Type 0} → A → M S A
  pure a w = done a w

  infixl 5 ◌>>=◌ ◌>>◌
  abbrev pub ◌>>=◌ : {A B : Type 0} → M S A → (A → M S B) → M S B
  ◌>>=◌ m f w = elim (m w) [
    | done a w' ↦ f a w'
    | aborted ↦ aborted
    | oversized cmd ↦ oversized cmd
  ]

  abbrev pub ◌>>◌ : {B : Type 0} → M S (Unit {0}) → M S B → M S B
  m >> k = m >>= λ _. k

  -- assert(expr)
  abbrev pub assert : Bool → M S (Unit {0})
  assert true w = done tt w
  assert false w = aborted

  abbrev pub emit : Event → M S (Unit {0})
  emit e w = done tt (record w { trace = e ∷ w.trace })

  -- warnlog, logger, debuglog
  unfoldable pub log : ℕ → M S (Unit {0})
  log level = emit (logged level)

-- One action of a block, where its outcome is known.
pub >>=-done :
    {S A B : Type 0} (m : M S A) (f : A → M S B) (w : World S) {a : A} {w' : World S}
    → m w ≡ done a w'
    → (m >>= f) w ≡ f a w'
>>=-done m f w e =
    ap
      (λ (r : Run _ _). elim r [
        | done a w' ↦ f a w'
        | aborted ↦ aborted
        | oversized cmd ↦ oversized cmd
      ])
      e

-- The run comes to its end, in a state with the property; or an assert fails, which `B` allows, or
-- that of ipc_send, which `O` allows for the command.
abbrev pub EndsBy :
    {S A : Type 0} → Type 0 → (Str → Type 0) → (A → World S → Type 0) → Run S A → Type 0
EndsBy B O P (done a w) = P a w
EndsBy B O P aborted = B
EndsBy B O P (oversized cmd) = O cmd

-- A command that ipc_send does not take.
abbrev pub IsOversized : Str → Type 0
IsOversized cmd = 1000000000 ≤ length cmd

-- The run comes to its end, in a state with the property; or it aborts, which `B` allows, or gives
-- ipc_send a command of 10 ^ 9 bytes or more.
abbrev pub EndsOr : {S A : Type 0} → Type 0 → (A → World S → Type 0) → Run S A → Type 0
EndsOr B P r = EndsBy B IsOversized P r

-- The run comes to its end, in a state with the property.
abbrev pub Ends : {S A : Type 0} → (A → World S → Type 0) → Run S A → Type 0
Ends P r = EndsBy ⊥ (λ cmd. ⊥) P r

pub EndsBy-bind :
    {S A B : Type 0} (C : Type 0) (O : Str → Type 0) (P : A → World S → Type 0)
    (Q : B → World S → Type 0) (m : M S A) (f : A → M S B) (w : World S)
    → EndsBy C O P (m w)
    → ((a : A) (w' : World S) → P a w' → EndsBy C O Q (f a w'))
    → EndsBy C O Q ((m >>= f) w)
EndsBy-bind C O P Q m f w h k = bind (m w) h
  where
    bind :
        (r : Run _ _)
        → EndsBy C O P r
        → EndsBy C O Q
            (elim r [ done a w' ↦ f a w' | aborted ↦ aborted | oversized cmd ↦ oversized cmd ])
    bind (done a w') p = k a w' p
    bind aborted p = p
    bind (oversized cmd) p = p

pub EndsOr-bind :
    {S A B : Type 0} (C : Type 0) (P : A → World S → Type 0) (Q : B → World S → Type 0) (m : M S A)
    (f : A → M S B) (w : World S)
    → EndsOr C P (m w)
    → ((a : A) (w' : World S) → P a w' → EndsOr C Q (f a w'))
    → EndsOr C Q ((m >>= f) w)
EndsOr-bind C P Q m f w h k = EndsBy-bind C IsOversized P Q m f w h k

pub Ends-bind :
    {S A B : Type 0} (P : A → World S → Type 0) (Q : B → World S → Type 0) (m : M S A)
    (f : A → M S B) (w : World S)
    → Ends P (m w)
    → ((a : A) (w' : World S) → P a w' → Ends Q (f a w'))
    → Ends Q ((m >>= f) w)
Ends-bind P Q m f w h k = EndsBy-bind ⊥ (λ cmd. ⊥) P Q m f w h k

-- The plugins that a handler reaches by ipc_run. What varnishd and the VAC answer is theirs.
pub record Peers (S : Type 0) : Type 0 where
  pub vadmin : S → Str → S × IpcRet
  pub curl : S → Str → S × IpcRet

module _ {S : Type 0} (peers : Peers S) where
  -- ipc_run on the handle of "vadmin": the formatted command, which ipc_send takes if it is short
  -- enough, and the answer of varnishd.
  unfoldable pub ipc_run : Str → M S IpcRet
  ipc_run cmd w =
      if ltb (length cmd) 1000000000
      then (let (s, ret) = peers.vadmin w.peer cmd in
          done ret (record { peer = s; trace = ran cmd ret ∷ w.trace }))
      else oversized cmd

  -- ipc_run on the handle of "curl".
  unfoldable pub ipc_curl : Str → M S IpcRet
  ipc_curl cmd w =
      if ltb (length cmd) 1000000000
      then (let (s, ret) = peers.curl w.peer cmd in
          done ret (record { peer = s; trace = fetched cmd ret ∷ w.trace }))
      else oversized cmd

  pub ipc_curl-short :
      (cmd : Str) (w : World S)
      → length cmd < 1000000000
      → let (s, ret) = peers.curl w.peer cmd in
        ipc_curl cmd w ≡ done ret (record { peer = s; trace = fetched cmd ret ∷ w.trace })
  unfolding ipc_curl
  ipc_curl-short cmd w short =
      let fits : ltb (length cmd) 1000000000 ≡ true = ground (arith, short) in rw fits refl
