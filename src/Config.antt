-- ===== src/Config.antt =====
-- src/main.c: the configuration from the command line, and the account from the password file.
-- getopt, strtol, strtod, open and base64_encode are parameters: an option comes here as read.
use vagent.Prelude.{
  ℕ, ◌+◌, ◌≡◌, List, [], ◌∷◌, ◌++◌, Bool, true, false, Option, none, some, Str, text, ltb, leb,
  ◌==◌, if◌then◌else◌, length, take, drop, cut_at, strchr,
}
use vagent.Helpers.{c_str}
pub mod Account

-- What get_first_line comes to. A `fault` is an access outside `buffer`.
pub data FirstLine : Type 0 where
  no_line : FirstLine
  line : Str → FirstLine
  too_large : FirstLine
  fault : FirstLine

-- `char buffer[1024]` after the fread of a file that was opened: the file's bytes in front of what
-- the stack held.
unfoldable pub read_buffer : Str → Str → Str
read_buffer junk content = take 1024 (content ++ drop (length content) junk)

-- From the strchr on, with `len` bytes read. A search that meets neither a newline nor a NUL runs
-- off the buffer, and so does the write of `buffer[len + 1]`.
unfoldable pub terminate_line : ℕ → Str → FirstLine
terminate_line len buffer = elim (strchr b'\n' (c_str buffer)) [
  | none ↦
      if length (c_str buffer) == 1024
      then fault
      else if len == 1024
      then too_large
      else if ltb (len + 1) 1024
      then line (take (len + 1) (c_str buffer))
      else fault
  | some eol ↦
      if ltb (len + 1) 1024 then line (take (len + 1) (cut_at b'\n' (c_str buffer))) else fault
]

abbrev pub bytes_read : Str → ℕ
bytes_read content = if leb (length content) 1024 then length content else 1024

-- `none`: the file cannot be opened.
unfoldable pub get_first_line : Str → Option Str → FirstLine
get_first_line junk none = no_line
get_first_line junk (some content) =
    if bytes_read content == 0
    then no_line
    else terminate_line (bytes_read content) (read_buffer junk content)

-- struct agent_config_t, as core_opt fills it. A string that may be NULL is an Option.
pub record AgentConfig : Type 0 where
  pub bind_address : Str
  pub local_port : Str
  pub remote_port : Str
  pub C_arg : Option Str
  pub d_arg : Bool
  pub g_arg : Option Str
  pub H_arg : Str
  pub K_arg : Str
  pub k_arg : Bool
  pub n_arg : Str
  pub P_arg : Option Str
  pub p_arg : Str
  pub loglevel : ℕ
  pub r_arg : Bool
  pub S_arg : Option Str
  pub S_arg_fd : Option ℕ
  pub T_arg_orig : Option Str
  pub timeout : ℕ
  pub u_arg : Option Str
  pub w_arg : ℕ
  pub vac_arg : Option Str
  pub user : Option Str
  pub password : Option Str
  pub auth_token : Option Str

-- The directories that the build sets.
pub record Dirs : Type 0 where
  pub persist_dir : Str
  pub html_dir : Str
  pub conf_dir : Str

unfoldable pub defaults : Dirs → AgentConfig
defaults dirs = record {
  bind_address = text "0.0.0.0";
  local_port = text "6085";
  remote_port = text "6085";
  C_arg = none;
  d_arg = false;
  g_arg = none;
  H_arg = dirs.html_dir;
  K_arg = dirs.conf_dir ++ text "/agent_secret";
  k_arg = false;
  n_arg = [];
  P_arg = none;
  p_arg = dirs.persist_dir;
  loglevel = 2;
  r_arg = false;
  S_arg = none;
  S_arg_fd = none;
  T_arg_orig = none;
  timeout = 5;
  u_arg = none;
  w_arg = 2;
  vac_arg = none;
  user = none;
  password = none;
  auth_token = none;
}

-- An option as getopt returns it. `-S` comes with what open returns for it (the file of an earlier
-- -S, which is closed, is not kept), `-t` with what strtod makes of it, and `-w` with what strtol
-- makes of it: the number, if it is positive and the whole of the argument.
pub data Opt : Type 0 where
  opt_a : Str → Opt
  opt_C : Str → Opt
  opt_c : Str → Opt
  opt_d : Opt
  opt_g : Str → Opt
  opt_H : Str → Opt
  opt_h : Opt
  opt_K : Str → Opt
  opt_k : Opt
  opt_n : Str → Opt
  opt_P : Str → Opt
  opt_p : Str → Opt
  opt_q : Opt
  opt_r : Opt
  opt_S : Str → Option ℕ → Opt
  opt_T : Str → Opt
  opt_t : ℕ → Opt
  opt_w : Option ℕ → Opt
  opt_u : Str → Opt
  opt_V : Opt
  opt_v : Opt
  opt_z : Str → Opt
  -- a character that the switch has no case for
  opt_other : Opt

unfoldable pub remote_of : Str → Str
remote_of ports = elim (strchr b':' ports) [ none ↦ ports | some sep ↦ drop 1 sep ]

-- One turn of the switch; `none` is an exit.
unfoldable pub core_opt_case : Opt → AgentConfig → Option AgentConfig
core_opt_case (opt_a s) c = some (record c { bind_address = s })
core_opt_case (opt_C s) c = some (record c { C_arg = some s })
core_opt_case (opt_c s) c =
    some (record c { remote_port = remote_of s; local_port = cut_at b':' s })
core_opt_case opt_d c = some (record c { d_arg = true })
core_opt_case (opt_g s) c = some (record c { g_arg = some s })
core_opt_case (opt_H s) c = some (record c { H_arg = s })
core_opt_case opt_h c = none
core_opt_case (opt_K s) c = some (record c { K_arg = s })
core_opt_case opt_k c = some (record c { k_arg = true })
core_opt_case (opt_n s) c = some (record c { n_arg = s })
core_opt_case (opt_P s) c = some (record c { P_arg = some s })
core_opt_case (opt_p s) c = some (record c { p_arg = s })
core_opt_case opt_q c = some (record c { loglevel = 1 })
core_opt_case opt_r c = some (record c { r_arg = true })
core_opt_case (opt_S s fd) c = some (record c { S_arg = some s; S_arg_fd = fd })
core_opt_case (opt_T s) c = some (record c { T_arg_orig = some s })
core_opt_case (opt_t n) c = some (record c { timeout = n })
core_opt_case (opt_w none) c = none
core_opt_case (opt_w (some n)) c = some (record c { w_arg = n })
core_opt_case (opt_u s) c = some (record c { u_arg = some s })
core_opt_case opt_V c = none
core_opt_case opt_v c = some (record c { loglevel = 3 })
core_opt_case (opt_z s) c = some (record c { vac_arg = some s })
core_opt_case opt_other c = some c

unfoldable pub core_opts : List Opt → AgentConfig → Option AgentConfig
core_opts [] c = some c
core_opts (o ∷ os) c = elim (core_opt_case o c) [ none ↦ none | some c' ↦ core_opts os c' ]

-- From `config->password = strchr(config->user, ':')` on: `none` is an exit.
unfoldable pub set_account : (Str → Str) → Str → AgentConfig → Option AgentConfig
set_account base64_encode user_line c = elim (strchr b':' user_line) [
  | none ↦ none
  | some colon ↦
      if length (drop 1 colon) == 0
      then none
      else some (record c {
        user = some (cut_at b':' user_line);
        password = some (drop 1 colon);
        auth_token = some (base64_encode user_line);
      })
]

unfoldable pub read_account : (Str → Str) → FirstLine → AgentConfig → Option AgentConfig
read_account base64_encode no_line c = none
read_account base64_encode (line s) c = set_account base64_encode s c
read_account base64_encode too_large c = none
read_account base64_encode fault c = none

-- The file system is read at `K_arg`; `extra` is `optind < argc`.
unfoldable pub core_opt :
    (Str → Str) → (Str → Option Str) → Str → Dirs → List Opt → Bool → Option AgentConfig
core_opt base64_encode file junk dirs opts extra = elim (core_opts opts (defaults dirs)) [
  | none ↦ none
  | some c ↦
      if extra then none else read_account base64_encode (get_first_line junk (file c.K_arg)) c
]
