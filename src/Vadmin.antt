-- ===== src/Vadmin.antt =====
-- src/modules/vadmin.c: the connection to the management port of varnishd. What varnishd, the
-- kernel and the shared memory answer is a function of all that was done before, so the code runs
-- against an interface whose functions take the trace, newest event first. Lines for the logger are
-- left out. A failed assert is `none`.
pub mod Session
pub mod Connect
use vagent.Prelude.{
  ℕ, ◌≡◌, ◌≢◌, List, [], ◌∷◌, ◌++◌, Bool, true, false, not, ◌&&◌, ◌||◌, Option, none, some, Str,
  text, ltb, leb, ◌==◌, if◌then◌else◌, starts_with, cut_at, is_some,
}
use vagent.Prelude.Options.{require, ◌>>=◌, ◌>>◌}
use vagent.Exec.{IpcRet, answered}
use vagent.Ipc.{is_space}

pub data NetEvent : Type 0 where
  opened : ℕ → NetEvent
  closed : ℕ → NetEvent
  wrote : ℕ → Str → NetEvent
  received : ℕ → NetEvent

-- What VSM_n_Arg says of -n, and the arguments of varnishd in its shared memory, if it can be
-- opened: -T and -S.
pub record Shm : Type 0 where
  pub n_arg_taken : Bool
  pub readable : Bool
  pub t_value : Option Str
  pub s_value : Option Str

pub record Net : Type 0 where
  pub shm : List NetEvent → Shm
  pub vss_open : List NetEvent → Str → Option ℕ
  -- whether write takes the whole text
  pub write : List NetEvent → ℕ → Str → Bool
  -- whether close returns 0
  pub close : List NetEvent → ℕ → Bool
  -- VCLI_ReadResult
  pub read_result : List NetEvent → ℕ → IpcRet
  -- open(S_arg, O_RDONLY)
  pub open_secret : List NetEvent → Str → Option ℕ
  -- VCLI_AuthResponse
  pub auth_response : List NetEvent → ℕ → Str → Str

-- CLIS_AUTH and CLIS_OK of vcli.h
abbrev pub clis_auth : ℕ
clis_auth = 107

abbrev pub clis_ok : ℕ
clis_ok = 200

-- struct vadmin_config_t, where a negative descriptor is `none`; the part of agent_config_t that
-- vadmin.c uses; and the trace.
pub record Vadmin : Type 0 where
  pub sock : Option ℕ
  pub state : Bool
  pub s_arg_fd : Option ℕ
  pub t_arg_orig : Option Str
  pub t_arg : Option Str
  pub s_arg : Option Str
  pub trace : List NetEvent

abbrev pub happened : NetEvent → Vadmin → Vadmin
happened e v = record v { trace = e ∷ v.trace }

-- The connection is up as far as the agent has not closed it: the last of its events decides.
unfoldable pub is_open : ℕ → List NetEvent → Bool
is_open fd [] = false
is_open fd (opened f ∷ t) = if f == fd then true else is_open fd t
is_open fd (closed f ∷ t) = if f == fd then false else is_open fd t
is_open fd (wrote f s ∷ t) = is_open fd t
is_open fd (received f ∷ t) = is_open fd t

-- strstr(s, sub) != NULL
unfoldable pub strstr : Str → Str → Bool
strstr [] sub = starts_with [] sub
strstr (c ∷ s) sub = starts_with (c ∷ s) sub || strstr s sub

-- `for (p = cmd; *p; p++) if (!isspace(*p)) break;` and the test behind it
unfoldable pub is_blank : Str → Bool
is_blank [] = true
is_blank (c ∷ s) = is_space c && is_blank s

-- `p = strchr(T_arg, '\n'); if (p) *p = '\0';`
abbrev pub first_of : Option Str → Option Str
first_of none = none
first_of (some s) = some (cut_at b'\n' s)

module _ (net : Net) where
  unfoldable pub cli_write : ℕ → Str → Vadmin → Vadmin × Bool
  cli_write sock s v =
      if net.write v.trace sock s
      then (happened (wrote sock s) v, true)
      else (happened (closed sock) v, false)

  -- Where -T is neither given nor found, the configuration stays.
  unfoldable pub n_arg_found : Shm → Vadmin → Vadmin
  n_arg_found shm v =
      let secret : Option Str = elim v.s_arg [
        | some s ↦ some s
        | none ↦ if shm.readable then shm.s_value else none
      ] in
      elim v.t_arg_orig [
        | some t ↦ record v { t_arg = first_of (some t); s_arg = secret }
        | none ↦
            if shm.readable && is_some shm.t_value
            then record v { t_arg = first_of shm.t_value; s_arg = secret }
            else v
      ]

  -- n_arg_sock: VSM_n_Arg has to take -n.
  unfoldable pub n_arg_sock : Vadmin → Option Vadmin
  n_arg_sock v = do require (net.shm v.trace).n_arg_taken; some (n_arg_found (net.shm v.trace) v)

  unfoldable pub read_answer : ℕ → Vadmin → Vadmin × IpcRet
  read_answer sock v = (happened (received sock) v, net.read_result v.trace sock)

  -- The connection is given up: `assert(close(vadmin->sock) == 0)`, and the handle set to -1.
  unfoldable pub drop_sock : ℕ → Vadmin → Option Vadmin
  drop_sock sock v = do
    require (net.close v.trace sock)
    some (record v { sock = none; trace = closed sock ∷ v.trace })

  -- The last part of cli_sock: the ping that must come back. The result of its write is not looked at.
  unfoldable pub after_ping : ℕ → IpcRet → Vadmin → Option Vadmin
  after_ping sock ret v =
      if (ret.status == clis_ok) && strstr ret.answer (text "PONG")
      then some (record v { state = true })
      else drop_sock sock v

  unfoldable pub ping : ℕ → Vadmin → Option Vadmin
  ping sock v =
      let (v₁, _) = cli_write sock (text "ping\n") v in
      let (v₂, ret) = read_answer sock v₁ in after_ping sock ret v₂

  -- The secret file: opened at the first use, and rewound after that.
  unfoldable pub secret_fd : Vadmin → Str → Option ℕ
  secret_fd v path = elim v.s_arg_fd [ some fd ↦ some fd | none ↦ net.open_secret v.trace path ]

  -- The answer to the challenge, in three writes whose results are not looked at.
  unfoldable pub send_auth : ℕ → ℕ → Str → Vadmin → Vadmin × IpcRet
  send_auth sock fd challenge v =
      let response = net.auth_response v.trace fd challenge in
      let (v₁, _) = cli_write sock (text "auth ") v in
      let (v₂, _) = cli_write sock response v₁ in
      let (v₃, _) = cli_write sock (text "\n") v₂ in read_answer sock v₃

  -- What follows the greeting, if it does not ask for authentication.
  unfoldable pub after_greeting : ℕ → IpcRet → Vadmin → Option Vadmin
  after_greeting sock ret v = if ret.status == clis_ok then ping sock v else drop_sock sock v

  -- After the attempt to authenticate. The connection of a failed one is forgotten, not closed; the
  -- secret file is closed.
  unfoldable pub after_auth : ℕ → ℕ → IpcRet → Vadmin → Option Vadmin
  after_auth sock fd ret v = if ret.status == clis_ok then ping sock v else (do
    require (net.close v.trace fd)
    some (record v { sock = none; s_arg_fd = none; trace = closed fd ∷ v.trace }))

  unfoldable pub with_secret : ℕ → Str → Vadmin → Option ℕ → Option Vadmin
  with_secret sock challenge v none = drop_sock sock v
  with_secret sock challenge v (some fd) =
      let (v₁, ret) = send_auth sock fd challenge (record v { s_arg_fd = some fd }) in
      after_auth sock fd ret v₁

  -- With S_arg.
  unfoldable pub authenticate : ℕ → Str → Vadmin → Option Str → Option Vadmin
  authenticate sock challenge v none = drop_sock sock v
  authenticate sock challenge v (some path) = with_secret sock challenge v (secret_fd v path)

  unfoldable pub greet : ℕ → Vadmin → Option Vadmin
  greet sock v =
      let (v₁, ret) = read_answer sock v in
      if ret.status == clis_auth
      then authenticate sock ret.answer v₁ v₁.s_arg
      else after_greeting sock ret v₁

  -- What VSS_open returns is the socket.
  unfoldable pub with_sock : Option ℕ → Vadmin → Option Vadmin
  with_sock none v = some (record v { sock = none })
  with_sock (some sock) v =
      greet sock (record v { sock = some sock; trace = opened sock ∷ v.trace })

  -- With T_arg.
  unfoldable pub connect_to : Option Str → Vadmin → Option Vadmin
  connect_to none v = some v
  connect_to (some t) v = with_sock (net.vss_open v.trace t) v

  unfoldable pub cli_sock : Vadmin → Option Vadmin
  cli_sock v = do v₁ ← n_arg_sock v; connect_to v₁.t_arg v₁

  abbrev pub disconnected : IpcRet
  disconnected = answered 400 (text "Varnishd disconnected")

  -- vadmin_run behind the test for a blank command, with a socket.
  unfoldable pub run_on : ℕ → Str → Vadmin → Vadmin × IpcRet
  run_on sock cmd v =
      let (v₁, sent) = cli_write sock cmd v in
      if sent
      then (let (v₂, ended) = cli_write sock (text "\n") v₁ in
          if ended then read_answer sock v₂ else (record v₂ { state = false }, disconnected))
      else (record v₁ { state = false }, disconnected)

  -- A blank command sets the answer and leaves the status as it was found.
  unfoldable pub vadmin_run : Str → IpcRet → Vadmin → Vadmin × IpcRet
  vadmin_run cmd ret v = if is_blank cmd then (v, record ret { answer = [] }) else elim v.sock [
    | none ↦ (record v { state = false }, disconnected)
    | some sock ↦ run_on sock cmd v
  ]

  -- The callback of the plugin's IPC. `ret` is the structure on the stack of ipc_cmd, which is not
  -- initialised.
  -- `if (vadmin->state == 0) cli_sock(vadmin, core);`
  unfoldable pub connected : Vadmin → Option Vadmin
  connected v = if v.state then some v else cli_sock v

  unfoldable pub read_cmd : Str → IpcRet → Vadmin → Option (Vadmin × IpcRet)
  read_cmd msg ret v = do
    v' ← connected v
    some (if v'.state then vadmin_run msg ret v' else (v', disconnected))

-- vadmin_init from the configuration of the connection on. With -n and one of -T and -S it does not
-- connect yet.
unfoldable pub vadmin_init : Net → Option Str → Vadmin → Option Vadmin
vadmin_init net n_arg v =
    let v₀ = record v { sock = none; state = false } in
    if is_some n_arg && (is_some v.t_arg || is_some v.s_arg) then some v₀ else cli_sock net v₀
