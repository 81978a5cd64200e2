-- ===== src/Ipc/Handles.antt =====
-- The safety net of src/ipc.c: tid_to_fd, and what a write that falls short comes to.
use vagent.Prelude.{ℕ, ◌<◌, ◌≡◌, ◌≢◌, none, some, Str, length, arith}
use vagent.Ipc.{Client, Kernel, ipc_verify_sock_thread, ipc_write}

module _ (sock a b : ℕ) (c c' : Client) where
  -- Where the test passes for a thread at a handle below 1024, the handle is that thread's: the test
  -- fails for any other thread, and the owners of other handles are as before.
  pub verify-owner :
      sock < 1024
      → a ≢ 0
      → ipc_verify_sock_thread sock a c ≡ some c'
      → (c'.tid_to_fd sock ≡ a)
        × ((b ≢ a) → ipc_verify_sock_thread sock b c' ≡ none)
        × ((fd : ℕ) → fd ≢ sock → c'.tid_to_fd fd ≡ c.tid_to_fd fd)
  unfolding ipc_verify_sock_thread
  verify-owner small thread ok = (ground arith, λ other. ground arith, λ fd ne. ground arith)

-- A write that falls short aborts the process where close succeeds, since the code asserts that
-- close returns something other than 0.
pub ipc_write-short :
    (sock self : ℕ) (k : Kernel) (s : Str) (c : Client)
    → k.written < length s
    → k.closed ≡ 0
    → ipc_write sock self k s c ≡ none
unfolding ipc_write
ipc_write-short sock self k s c short closed = ground arith
