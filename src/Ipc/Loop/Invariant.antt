-- ===== src/Ipc/Loop/Invariant.antt =====
-- What holds of every line and of the server while ipc_loop of src/ipc.c runs.
pub mod Lines
pub mod Cases
pub mod Changes
pub mod Steps
use mathlib.Core.List.{append_assoc, append-nil}
use vagent.Prelude.{
  ℕ, zero, suc, ◌+◌, ◌<◌, ◌≤◌, ◌≡◌, ◌≢◌, refl, sym, ap, ◌∙◌, List, [], ◌∷◌, ◌++◌, Bool, true, false,
  Option, none, some, Str, length, take, drop, All, arith, ◌==◌, if◌then◌else◌, map, cut_at,
}
use vagent.Exec.{IpcRet}
use vagent.Ipc.{length_header}
use vagent.Ipc.Loop.{
  Phase, idle, midway, in_read, Line, Server, polling, scanning, reading, aborted, System,
}
use vagent.Ipc.Loop.Frames.{begun, frames, Small}

-- The message that ipc_cmd is reading from a line: its length, and what has come.
abbrev pub held : Server → ℕ → Option (ℕ × Str)
held polling j = none
held (scanning is) j = none
held (reading i len msg rest) j = if j == i then some (len, msg) else none
held aborted j = none

-- The bytes that ipc_cmd has taken for it.
abbrev pub taken : Option (ℕ × Str) → Str
taken none = []
taken (some (len, msg)) = length_header len ++ msg

abbrev pub Fits : Option (ℕ × Str) → Type 0
Fits none = Unit
Fits (some (len, msg)) = (len < 1000000000) × (length msg ≤ len)

abbrev pub answers_got : List (Option IpcRet) → List IpcRet
answers_got [] = []
answers_got (none ∷ got) = answers_got got
answers_got (some ret ∷ got) = ret ∷ answers_got got

abbrev pub timeouts : List (Option IpcRet) → ℕ
timeouts [] = 0
timeouts (none ∷ got) = suc (timeouts got)
timeouts (some ret ∷ got) = timeouts got

-- How many calls of ipc_send have not returned.
abbrev pub open_calls : Phase → ℕ
open_calls idle = 0
open_calls (midway c) = 1
open_calls in_read = 1

-- A line, and the message that the server is reading from it: the bytes are those of the commands
-- that the callback has not run for, and the answers are on their way in the order of the commands.
pub record LineOk (h : Option (ℕ × Str)) (l : Line) : Type 0 where
  pub whole : List Str
  pub small : All Small whole
  pub begun_small : All Small (begun l.phase)
  pub begun_some : All (λ c. c ≢ []) (begun l.phase)
  pub fits : Fits h
  pub bytes : taken h ++ l.up ≡ frames whole l.phase
  pub sent : l.sent ≡ map (λ r. r.0) l.ran ++ (whole ++ begun l.phase)
  pub answers : map (λ r. r.1) l.ran ≡ answers_got l.got ++ l.down
  pub returned : length l.sent ≡ length l.got + open_calls l.phase

-- Descriptors in the order of the array.
abbrev pub Above : ℕ → List ℕ → Type 0
Above i = All (λ j. i < j)

-- Each of them has bytes.
abbrev pub Due : (ℕ → Line) → List ℕ → Type 0
Due lines [] = Unit
Due lines (i ∷ is) = ((lines i).up ≢ []) × Above i is × Due lines is

abbrev pub ServerOk : (ℕ → Line) → Server → Type 0
ServerOk lines polling = Unit
ServerOk lines (scanning is) = Due lines is
ServerOk lines (reading i len msg rest) = Above i rest × Due lines rest
ServerOk lines aborted = ⊥

-- Each of them is a line of this server.
abbrev pub Known : ℕ → Server → Type 0
Known n polling = Unit
Known n (scanning is) = All (λ (j : ℕ). j < n) is
Known n (reading i len msg rest) = (i < n) × All (λ (j : ℕ). j < n) rest
Known n aborted = Unit

-- The callback run for the commands in turn: the private data afterwards, and the answers.
unfoldable pub serve : {S : Type 0} → (S → Str → S × IpcRet) → S → List Str → S × List IpcRet
serve cb s [] = (s, [])
serve cb s (c ∷ cs) =
    let (s', ret) = cb s (cut_at 0 c) in let (s'', rets) = serve cb s' cs in (s'', ret ∷ rets)

-- Those on one line.
abbrev pub on_line : ℕ → List (ℕ × Str × IpcRet) → List (Str × IpcRet)
on_line i [] = []
on_line i ((j, c, ret) ∷ calls) =
    let rest = on_line i calls in if i == j then (c, ret) ∷ rest else rest

pub record Inv {S : Type 0} (cb : S → Str → S × IpcRet) (nlisteners : ℕ) (priv : S) (s : System S)
    : Type 0 where
  pub line : (i : ℕ) → LineOk (held s.server i) (s.lines i)
  pub server : ServerOk s.lines s.server
  pub known : Known nlisteners s.server
  pub served :
      serve cb priv (map (λ (r : ℕ × Str × IpcRet). r.1) s.calls) ≡ (s.priv, map (λ r. r.2) s.calls)
  pub split : (i : ℕ) → on_line i s.calls ≡ (s.lines i).ran
