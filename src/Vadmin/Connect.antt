-- ===== src/Vadmin/Connect.antt =====
-- The connection that cli_sock of src/modules/vadmin.c makes.
use vagent.Prelude.{
  ◌∙◌, ℕ, ◌≡◌, ◌≢◌, refl, List, ◌∷◌, true, false, ◌&&◌, Option, none, some, Str, text, ◌==◌, arith,
  Bool-cases, inl, inr,
}
use vagent.Prelude.Options.{◌>>=◌}
use vagent.Exec.{IpcRet}
use vagent.Vadmin.{
  Net, NetEvent, Shm, Vadmin, opened, received, is_open, strstr, clis_ok, clis_auth, cli_write,
  n_arg_found, n_arg_sock, read_answer, drop_sock, after_ping, ping, secret_fd, send_auth,
  after_greeting, after_auth, with_secret, authenticate, greet, with_sock, connect_to, cli_sock,
}

-- VCLI_ReadResult of libvarnishapi reads from a descriptor; on a closed one it does not succeed.
pub record IsNet (net : Net) : Type 0 where
  pub closed_fails :
      (t : List NetEvent) (fd : ℕ) → is_open fd t ≡ false → (net.read_result t fd).status ≢ clis_ok

-- What `state == 1` stands for: there is a socket, and it has not been closed.
abbrev pub IsConnected : Vadmin → Type 0
IsConnected v = v.state ≡ true → (fd : ℕ) × (v.sock ≡ some fd) × (is_open fd v.trace ≡ true)

-- The property, unless an assert failed.
abbrev pub Unless : {A : Type 0} → (A → Type 0) → Option A → Type 0
Unless P none = Unit
Unless P (some a) = P a

pub Unless-bind :
    {A B : Type 0} (P : A → Type 0) (Q : B → Type 0) (o : Option A) (f : A → Option B)
    → Unless P o
    → ((a : A) → P a → Unless Q (f a))
    → Unless Q (o >>= f)
Unless-bind P Q none f h k = tt
Unless-bind P Q (some a) f h k = k a h

module _ (net : Net) (laws : IsNet net) where
  abbrev Opens : ℕ → Vadmin → Type 0
  Opens sock v = v.state ≡ true → (v.sock ≡ some sock) × (is_open sock v.trace ≡ true)

  -- A connection that is given up is not up.
  drop_sock-Opens :
      (sock fd : ℕ) (v : Vadmin) → v.state ≡ false → Unless (Opens sock) (drop_sock net fd v)
  unfolding drop_sock
  drop_sock-Opens sock fd v idle = elim (Bool-cases (net.close v.trace fd)) [
    | inl e ↦ rw e (λ up. cc)
    | inr e ↦ rw e tt
  ]

  after_ping-Opens :
      (sock : ℕ) (ret : IpcRet) (v : Vadmin)
      → v.state ≡ false
      → v.sock ≡ some sock
      → (ret.status ≡ clis_ok → is_open sock v.trace ≡ true)
      → Unless (Opens sock) (after_ping net sock ret v)
  unfolding after_ping
  after_ping-Opens sock ret v idle at_sock up =
      elim (Bool-cases ((ret.status == clis_ok) && strstr ret.answer (text "PONG"))) [
        | inl e ↦ rw e (λ on. (at_sock, up (ground arith)))
        | inr e ↦ rw e (drop_sock-Opens sock sock v idle)
      ]

  open_if_ok :
      (sock : ℕ) (t : List NetEvent)
      → (net.read_result t sock).status ≡ clis_ok
      → is_open sock t ≡ true
  open_if_ok sock t ok = elim (Bool-cases (is_open sock t)) [
    | inl e ↦ e
    | inr e ↦ absurd (laws.closed_fails t sock e ok)
  ]

  ping-Opens :
      (sock : ℕ) (v : Vadmin)
      → v.state ≡ false
      → v.sock ≡ some sock
      → Unless (Opens sock) (ping net sock v)
  unfolding ping cli_write read_answer is_open
  ping-Opens sock v idle at_sock = elim (Bool-cases (net.write v.trace sock (text "ping\n"))) [
    | inl e ↦ rw e (after_ping-Opens sock _ _ idle at_sock (open_if_ok sock _))
    | inr e ↦ rw e (after_ping-Opens sock _ _ idle at_sock (open_if_ok sock _))
  ]

  -- No step before the ping sets the state.
  send_auth-keeps :
      (sock fd : ℕ) (challenge : Str) (v : Vadmin)
      → ((send_auth net sock fd challenge v).0.state ≡ v.state)
        × ((send_auth net sock fd challenge v).0.sock ≡ v.sock)
  unfolding send_auth cli_write read_answer
  send_auth-keeps sock fd challenge v = (ground arith, ground arith)

  after_auth-Opens :
      (sock fd : ℕ) (ret : IpcRet) (v : Vadmin)
      → v.state ≡ false
      → v.sock ≡ some sock
      → Unless (Opens sock) (after_auth net sock fd ret v)
  unfolding after_auth
  after_auth-Opens sock fd ret v idle at_sock = elim (Bool-cases (ret.status == clis_ok)) [
    | inl e ↦ rw e (ping-Opens sock v idle at_sock)
    | inr e ↦ elim (Bool-cases (net.close v.trace fd)) [
      | inl e' ↦ rw (e, e') (λ up. cc)
      | inr e' ↦ rw (e, e') tt
    ]
  ]

  with_secret-Opens :
      (sock : ℕ) (challenge : Str) (v : Vadmin) (o : Option ℕ)
      → v.state ≡ false
      → v.sock ≡ some sock
      → Unless (Opens sock) (with_secret net sock challenge v o)
  unfolding with_secret
  with_secret-Opens sock challenge v none idle at_sock = drop_sock-Opens sock sock v idle
  with_secret-Opens sock challenge v (some fd) idle at_sock =
      let keeps = send_auth-keeps sock fd challenge (record v { s_arg_fd = some fd }) in
      after_auth-Opens sock fd _ _ (keeps.0 ∙ idle) (keeps.1 ∙ at_sock)

  authenticate-Opens :
      (sock : ℕ) (challenge : Str) (v : Vadmin) (o : Option Str)
      → v.state ≡ false
      → v.sock ≡ some sock
      → Unless (Opens sock) (authenticate net sock challenge v o)
  unfolding authenticate
  authenticate-Opens sock challenge v none idle at_sock = drop_sock-Opens sock sock v idle
  authenticate-Opens sock challenge v (some path) idle at_sock =
      with_secret-Opens sock challenge v (secret_fd net v path) idle at_sock

  greet-Opens :
      (sock : ℕ) (v : Vadmin)
      → v.state ≡ false
      → v.sock ≡ some sock
      → Unless (Opens sock) (greet net sock v)
  unfolding greet after_greeting read_answer
  greet-Opens sock v idle at_sock =
      let v₁ = record v { trace = received sock ∷ v.trace } in
      let ret = net.read_result v.trace sock in
      elim (Bool-cases (ret.status == clis_auth)) [
        | inl e ↦ rw e (authenticate-Opens sock ret.answer v₁ v.s_arg idle at_sock)
        | inr e ↦ elim (Bool-cases (ret.status == clis_ok)) [
          | inl e' ↦ rw (e, e') (ping-Opens sock v₁ idle at_sock)
          | inr e' ↦ rw (e, e') (drop_sock-Opens sock sock v₁ idle)
        ]
      ]

  n_arg_found-state : (shm : Shm) (v : Vadmin) → (n_arg_found net shm v).state ≡ v.state
  unfolding n_arg_found
  n_arg_found-state shm v = ground arith

  n_arg_sock-state : (v : Vadmin) → Unless (λ v'. v'.state ≡ v.state) (n_arg_sock net v)
  unfolding n_arg_sock
  n_arg_sock-state v = elim (Bool-cases (net.shm v.trace).n_arg_taken) [
    | inl e ↦ rw e (n_arg_found-state _ v)
    | inr e ↦ rw e tt
  ]

  Opens-IsConnected : (sock : ℕ) (o : Option Vadmin) → Unless (Opens sock) o → Unless IsConnected o
  Opens-IsConnected sock none h = tt
  Opens-IsConnected sock (some v) h = λ up. (sock, (h up).0, (h up).1)

  with_sock-IsConnected :
      (o : Option ℕ) (v : Vadmin) → v.state ≡ false → Unless IsConnected (with_sock net o v)
  unfolding with_sock
  with_sock-IsConnected none v idle = λ up. cc
  with_sock-IsConnected (some sock) v idle =
      let v₂ = record v { sock = some sock; trace = opened sock ∷ v.trace } in
      Opens-IsConnected sock (greet net sock v₂) (greet-Opens sock v₂ idle refl)

  connect_to-IsConnected :
      (o : Option Str) (v : Vadmin) → v.state ≡ false → Unless IsConnected (connect_to net o v)
  unfolding connect_to
  connect_to-IsConnected none v idle = λ up. cc
  connect_to-IsConnected (some t) v idle = with_sock-IsConnected (net.vss_open v.trace t) v idle

  pub cli_sock-IsConnected : (v : Vadmin) → v.state ≡ false → Unless IsConnected (cli_sock net v)
  unfolding cli_sock
  cli_sock-IsConnected v idle =
      Unless-bind (λ v'. v'.state ≡ v.state) IsConnected (n_arg_sock net v) _ (n_arg_sock-state v)
        (λ v₁ same. connect_to-IsConnected v₁.t_arg v₁ (same ∙ idle))
