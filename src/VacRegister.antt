-- ===== src/VacRegister.antt =====
-- src/modules/vac_register.c: registering with the VAC. VSB_quote is a parameter.
use vagent.Prelude.{
  ℕ, ◌≡◌, List, [], ◌∷◌, ◌++◌, Bool, true, false, Option, none, some, Str, text, ◌==◌,
  if◌then◌else◌, length,
}
use vagent.Exec.{IpcRet, M, Peers, ◌>>=◌, ◌>>◌, pure, log, ipc_curl}
use vagent.Http.{HttpRequest, http_reply, bodylen}
use vagent.Foreign.{VsbOps}
use vagent.Helpers.{c_str}
pub mod Target

-- What struct agent_config_t holds for generate_json, each string as C reads it.
pub record VacConfig : Type 0 where
  pub remote_port : Str
  pub user : Str
  pub password : Str
  pub n_arg : Str

-- struct vac_register_priv_t. The URL may be NULL.
pub record VacRegisterPriv (v : VsbOps) : Type 0 where
  pub config : VacConfig
  pub vsb_out : v.Vsb
  pub vac_url : Option Str

module _ (quote : Str → Str) where
  -- The document that the VAC is sent.
  unfoldable pub registration : VacConfig → Str
  registration config =
      text "{\n"
      ++ (text "\t\"port\": \"" ++ config.remote_port ++ text "\",\n")
      ++ (text "\t\"user\": " ++ quote config.user ++ text ",\n")
      ++ (text "\t\"password\": " ++ quote config.password ++ text ",\n")
      ++ (text "\t\"dash-n\": \"" ++ config.n_arg ++ text "\"\n")
      ++ text "}\n"

  module _ (v : VsbOps) where
    open v use {vsb_bcat, vsb_clear, vsb_data}

    unfoldable pub generate_json : VacRegisterPriv v → VacRegisterPriv v
    generate_json priv = record priv {
      vsb_out = vsb_bcat (vsb_clear priv.vsb_out) (registration priv.config);
    }

    module _ {S : Type 0} (peers : Peers S) where
      -- The command of the private data to the plugin "curl".
      unfoldable pub send_to : Str → VacRegisterPriv v → M S (Option IpcRet × VacRegisterPriv v)
      send_to url priv = do
        log 2
        vret ← ipc_curl peers (url ++ b'\n' ∷ c_str (vsb_data (generate_json priv).vsb_out))
        pure (some vret, generate_json priv)

      abbrev pub no_url : VacRegisterPriv v → M S (Option IpcRet × VacRegisterPriv v)
      no_url priv = do log 2; pure (none, priv)

      unfoldable pub send_at :
          Option Str → VacRegisterPriv v → M S (Option IpcRet × VacRegisterPriv v)
      send_at none priv = no_url priv
      send_at (some []) priv = no_url priv
      send_at (some (c ∷ s)) priv = send_to (c ∷ s) priv

      -- `none`: -1 is returned, there is no URL.
      unfoldable pub send_curl : VacRegisterPriv v → M S (Option IpcRet × VacRegisterPriv v)
      send_curl priv = send_at priv.vac_url priv

      -- `if (request->bodylen)`: the body is the new URL.
      unfoldable pub new_url : VacRegisterPriv v → HttpRequest → VacRegisterPriv v
      new_url priv request = elim request.body [
        | none ↦ priv
        | some b ↦ if length b == 0 then priv else record priv { vac_url = some (c_str b) }
      ]

      abbrev pub log_new_url : HttpRequest → M S (Unit {0})
      log_new_url request = if bodylen request == 0 then pure tt else log 2

      unfoldable pub answer_vac : HttpRequest → Option IpcRet → M S (Unit {0})
      answer_vac request none = http_reply request.connection 500 (some (text "Couldn't register."))
      answer_vac request (some vret) = do
        http_reply request.connection vret.status (some vret.answer)
        log 2

      -- The private data is returned as it is left for the next request.
      unfoldable pub vac_register_reply :
          VacRegisterPriv v → HttpRequest → Option Str → M S (VacRegisterPriv v)
      vac_register_reply priv request arg = do
        log_new_url request
        (ret, priv') ← send_curl (new_url priv request)
        answer_vac request ret
        pure priv'

      -- The registration of the thread that runs at the start.
      unfoldable pub vac_register : VacRegisterPriv v → M S (VacRegisterPriv v)
      vac_register priv = do
        (ret, priv') ← send_curl priv
        elim ret [ none ↦ log 2 | some vret ↦ log 3 ]
        pure priv'
