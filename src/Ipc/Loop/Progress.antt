-- ===== src/Ipc/Loop/Progress.antt =====
-- What ipc_cmd of src/ipc.c finds on a descriptor that poll reported.
use vagent.Ipc.Loop.Invariant.{LineOk}
use mathlib.Core.Path.{subst}
use vagent.Prelude.{ℕ, ◌≡◌, ◌≢◌, List, ◌∷◌, some, Str, inl, inr}
use vagent.Exec.{IpcRet}
use vagent.Ipc.Loop.Invariant.{LineOk, Inv, ServerOk, held}
use vagent.Ipc.Loop.{read_header, System, Reach, scanning, aborted}
use vagent.Ipc.Loop.Invariant.Steps.{Reach-Inv}
use vagent.Ipc.Loop.Invariant.Lines.{front}
use vagent.Ipc.Loop.{Server}

-- In every state that is reached, the server has not failed an assert, and each descriptor that it
-- has still to serve from the last poll holds the whole header of a message: the read of ten bytes
-- neither waits nor falls short.
pub ipc_cmd-Due :
    {S : Type 0} (cb : S → Str → S × IpcRet) (nlisteners : ℕ) (priv : S) {s : System S}
    → Reach cb nlisteners priv s
    → (s.server ≢ aborted)
      × ((i : ℕ) (rest : List ℕ)
          → s.server ≡ scanning (i ∷ rest)
          → (len : ℕ) × (read_header (s.lines i).up ≡ some len))
ipc_cmd-Due cb nlisteners priv {s} r =
    let inv = Reach-Inv cb nlisteners priv r in
    (λ e. subst (ServerOk s.lines) e inv.server, λ i rest e. ready inv i rest e)
  where
    ready :
        Inv cb nlisteners priv s
        → (i : ℕ) (rest : List ℕ) → s.server ≡ scanning (i ∷ rest)
        → (len : ℕ) × (read_header (s.lines i).up ≡ some len)
    ready inv i rest e =
        let free = subst (λ (p : Server). LineOk (held p i) (s.lines i)) e (inv.line i) in
        elim (front (s.lines i) free) [
          | inl none_up ↦ absurd ((subst (ServerOk s.lines) e inv.server).0 none_up)
          | inr (len, t, small, all, h) ↦ (len, h)
        ]
