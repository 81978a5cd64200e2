-- ===== src/Ipc/Loop.antt =====
-- src/ipc.c: the poll loop of a server (ipc_loop) and the threads that call ipc_send on its handles,
-- in any interleaving. Each line is one socket pair of ipc_register, used by one thread. The kernel
-- takes a write whole; where the socket's buffer is full, a write waits for room, and its step is
-- not taken as long: which steps are taken is not said, so nothing here says that a call returns.
-- VCLI_WriteResult and VCLI_ReadResult of libvarnishapi pass one answer, and the second gives up
-- after five seconds.
pub mod Frames
pub mod Invariant
pub mod Order
pub mod Progress
use vagent.Prelude.{
  ℕ, zero, suc, ◌+◌, ◌<◌, ◌≤◌, ◌≡◌, ◌≢◌, List, [], ◌∷◌, ◌++◌, Bool, true, false, ◌&&◌, Option, none,
  some, Str, ◌==◌, if◌then◌else◌, length, take, drop, cut_at,
}
use vagent.Exec.{IpcRet}
use vagent.Ipc.{length_header, ends_in_space, atoi}

-- Where the client's thread is: outside ipc_send, between its two writes, or in VCLI_ReadResult.
pub data Phase : Type 0 where
  idle : Phase
  midway : Str → Phase
  in_read : Phase

pub record Line : Type 0 where
  -- the bytes that the server has not read, and the answers that the client has not read
  pub up : Str
  pub down : List IpcRet
  pub phase : Phase
  -- history, oldest first: the commands sent; those that the callback was run for, with its answers;
  -- and what each ipc_send that has returned gave its caller, `none` where it timed out
  pub sent : List Str
  pub ran : List (Str × IpcRet)
  pub got : List (Option IpcRet)

-- Where the server's thread is: in poll; in the loop over the descriptors, with those still to come
-- that poll reported; or in ipc_cmd on one of them, with the length of the message and what was read.
pub data Server : Type 0 where
  polling : Server
  scanning : List ℕ → Server
  reading : (i len : ℕ) (msg : Str) (rest : List ℕ) → Server
  aborted : Server

pub record System (S : Type 0) : Type 0 where
  pub lines : ℕ → Line
  pub server : Server
  pub priv : S
  -- history, oldest first: the line of each run of the callback, its command and its answer
  pub calls : List (ℕ × Str × IpcRet)

abbrev pub update : (ℕ → Line) → ℕ → Line → ℕ → Line
update lines i l j = if j == i then l else lines j

-- ipc_send up to the first write. The second write of an empty command puts nothing on the wire.
unfoldable pub write_header : Str → Line → Line
write_header c l = record l {
  up = l.up ++ length_header (length c);
  phase = elim c [ [] ↦ in_read | b ∷ s ↦ midway (b ∷ s) ];
  sent = l.sent ++ c ∷ [];
}

unfoldable pub write_data : Str → Line → Line
write_data c l = record l { up = l.up ++ c; phase = in_read }

-- The end of VCLI_ReadResult: the answer that came first, or none in time.
unfoldable pub take_result : IpcRet → List IpcRet → Line → Line
take_result ret down l = record l { down = down; phase = idle; got = l.got ++ some ret ∷ [] }

unfoldable pub time_out : Line → Line
time_out l = record l { phase = idle; got = l.got ++ none ∷ [] }

abbrev pub has_bytes : Line → Bool
has_bytes l = elim l.up [ [] ↦ false | b ∷ s ↦ true ]

-- The descriptors from `i` on that poll marks with POLLIN, in the order of the array.
unfoldable pub poll : (ℕ → Line) → ℕ → ℕ → List ℕ
poll lines i zero = []
poll lines i (suc k) =
    let later = poll lines (suc i) k in if has_bytes (lines i) then i ∷ later else later

-- The header of ipc_cmd: one read of ten bytes, its asserts, and the length.
unfoldable pub read_header : Str → Option ℕ
read_header up =
    let header : Str = take 10 up in
    if (length header == 10) && ends_in_space header then atoi header else none

unfoldable pub read_bytes : ℕ → Line → Line
read_bytes k l = record l { up = drop k l.up }

-- ipc->cb has returned, and VCLI_WriteResult has sent its answer, for which it may have waited.
unfoldable pub write_result : Str → IpcRet → Line → Line
write_result c ret l = record l { down = l.down ++ ret ∷ []; ran = l.ran ++ (c, ret) ∷ [] }

-- A step of one client.
pub data ClientStep (l : Line) : Line → Type 0 where
  send : (c : Str) → l.phase ≡ idle → length c < 1000000000 → ClientStep l (write_header c l)
  send_rest : (c : Str) → l.phase ≡ midway c → ClientStep l (write_data c l)
  take_answer :
      (ret : IpcRet) (down : List IpcRet)
      → l.phase ≡ in_read
      → l.down ≡ ret ∷ down
      → ClientStep l (take_result ret down l)
  stop_waiting : l.phase ≡ in_read → l.down ≡ [] → ClientStep l (time_out l)

module _ {S : Type 0} (cb : S → Str → S × IpcRet) (nlisteners : ℕ) where
  -- A step of ipc_loop. A read of a wire with no bytes waits: there is no step.
  pub data ServerStep (s : System S) : System S → Type 0 where
    polled :
        s.server ≡ polling
        → poll s.lines 0 nlisteners ≢ []
        → ServerStep s (record s { server = scanning (poll s.lines 0 nlisteners) })
    scanned : s.server ≡ scanning [] → ServerStep s (record s { server = polling })
    header :
        (i len : ℕ) (rest : List ℕ)
        → s.server ≡ scanning (i ∷ rest)
        → read_header (s.lines i).up ≡ some len
        → ServerStep s (record s {
          lines = update s.lines i (read_bytes 10 (s.lines i));
          server = reading i len [] rest;
        })
    -- an assert of ipc_cmd fails
    fail :
        (i : ℕ) (rest : List ℕ)
        → s.server ≡ scanning (i ∷ rest)
        → (s.lines i).up ≢ []
        → read_header (s.lines i).up ≡ none
        → ServerStep s (record s { server = aborted })
    part :
        (i len k : ℕ) (msg : Str) (rest : List ℕ)
        → s.server ≡ reading i len msg rest
        → 0 < k
        → k ≤ length (s.lines i).up
        → length msg + k ≤ len
        → ServerStep s (record s {
          lines = update s.lines i (read_bytes k (s.lines i));
          server = reading i len (msg ++ take k (s.lines i).up) rest;
        })
    run :
        (i len : ℕ) (msg : Str) (rest : List ℕ)
        → s.server ≡ reading i len msg rest
        → length msg ≡ len
        → ServerStep s (record s {
          lines = update s.lines i (write_result msg (cb s.priv (cut_at 0 msg)).1 (s.lines i));
          server = scanning rest;
          priv = (cb s.priv (cut_at 0 msg)).0;
          calls = s.calls ++ (i, msg, (cb s.priv (cut_at 0 msg)).1) ∷ [];
        })

  pub data Step (s : System S) : System S → Type 0 where
    client :
        (i : ℕ) {l : Line}
        → i < nlisteners
        → ClientStep (s.lines i) l
        → Step s (record s { lines = update s.lines i l })
    server : {t : System S} → ServerStep s t → Step s t

  -- After ipc_start: nothing was sent, and the server is on its way to poll.
  abbrev pub ipc_start : S → System S
  ipc_start priv = record {
    lines = λ _. record { up = []; down = []; phase = idle; sent = []; ran = []; got = [] };
    server = polling;
    priv = priv;
    calls = [];
  }

  pub data Reach (priv : S) : System S → Type 0 where
    start : Reach priv (ipc_start priv)
    later : {s t : System S} → Reach priv s → Step s t → Reach priv t
