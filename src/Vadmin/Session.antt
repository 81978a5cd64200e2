-- ===== src/Vadmin/Session.antt =====
-- The commands of a session with varnishd: read_cmd and vadmin_run of src/modules/vadmin.c.
use vagent.Prelude.{
  if-both, ℕ, ◌≡◌, ◌⊎◌, ◌∷◌, true, false, some, Str, text, if◌then◌else◌, arith, Bool-cases, inl,
  inr,
}
use vagent.Exec.{IpcRet}
use vagent.Vadmin.{
  Net, Vadmin, wrote, received, is_open, cli_write, read_answer, cli_sock, disconnected, run_on,
  vadmin_run, connected, read_cmd, is_blank,
}
use vagent.Vadmin.Connect.{Unless, Unless-bind, IsNet, IsConnected, cli_sock-IsConnected}

module _ (net : Net) where
  run_on-keeps :
      (sock : ℕ) (cmd : Str) (v : Vadmin)
      → v.sock ≡ some sock
      → is_open sock v.trace ≡ true
      → (run_on net sock cmd v).0.state ≡ true
      → ((run_on net sock cmd v).0.sock ≡ some sock)
        × (is_open sock (run_on net sock cmd v).0.trace ≡ true)
  unfolding run_on cli_write read_answer is_open
  run_on-keeps sock cmd v at_sock up on = ground arith

  vadmin_run-IsConnected :
      (cmd : Str) (ret : IpcRet) (v : Vadmin)
      → IsConnected v
      → v.state ≡ true
      → IsConnected (vadmin_run net cmd ret v).0
  unfolding vadmin_run
  vadmin_run-IsConnected cmd ret v c on up =
      let (fd, at_sock, open') = c on in
      elim (Bool-cases (is_blank cmd)) [
        | inl e ↦ (fd, ground arith, ground arith)
        | inr e ↦
            let keeps = run_on-keeps fd cmd v at_sock open' in
            (fd, ground (arith, keeps), ground (arith, keeps))
      ]

  connected-IsConnected :
      IsNet net → (v : Vadmin) → IsConnected v → Unless IsConnected (connected net v)
  unfolding connected
  connected-IsConnected laws v c =
      if-both (Unless IsConnected) v.state (some v) (cli_sock net v) (λ _. c)
        (cli_sock-IsConnected net laws v)

  run_or_not-IsConnected :
      (msg : Str) (ret : IpcRet) (v : Vadmin)
      → IsConnected v
      → IsConnected (if v.state then vadmin_run net msg ret v else (v, disconnected net)).0
  run_or_not-IsConnected msg ret v c =
      if-both (λ r. IsConnected r.0) v.state (vadmin_run net msg ret v) (v, disconnected net)
        (vadmin_run-IsConnected msg ret v c) (λ e up. cc)

  -- Whatever the command, unless an assert of cli_sock fails, the state says that varnishd is
  -- connected only while there is a socket that has not been closed.
  pub read_cmd-IsConnected :
      IsNet net
      → (msg : Str) (ret : IpcRet) (v : Vadmin) → IsConnected v
      → Unless (λ r. IsConnected r.0) (read_cmd net msg ret v)
  unfolding read_cmd
  read_cmd-IsConnected laws msg ret v c =
      Unless-bind IsConnected (λ r. IsConnected r.0) (connected net v) _
        (connected-IsConnected laws v c) (λ v' c'. run_or_not-IsConnected msg ret v' c')

  -- A command was written whole with a newline and answered by varnishd, or it was answered by 400 and
  -- the connection given up.
  abbrev pub Answered : Str → Vadmin → Vadmin × IpcRet → Type 0
  Answered msg c r =
      ((fd : ℕ) × (c.sock ≡ some fd)
        × (r.1 ≡ net.read_result (wrote fd (text "\n") ∷ wrote fd msg ∷ c.trace) fd)
        × (r.0.trace ≡ received fd ∷ wrote fd (text "\n") ∷ wrote fd msg ∷ c.trace))
      ⊎ ((r.1 ≡ disconnected net) × (r.0.state ≡ false))
