-- ===== src/VacRegister/Target.antt =====
-- What vac_register.c hands to curl.c, read as curl.c reads it.
use vagent.Prelude.{
  length, ◌<◌, strchr-word, cut_at-word, refl, ◌≡◌, ◌≢◌, [], ◌∷◌, ◌++◌, some, Str, All, arith,
}
use vagent.Exec.{>>=-done, ipc_curl-short, log, ipc_curl, World, fetched, logged, done, Peers}
use vagent.Foreign.{VsbOps, IsBuffer}
use vagent.Helpers.{c_str}
use vagent.Curl.{body_headers, transfer_of}
use vagent.VacRegister.{send_at, send_to, VacRegisterPriv, registration, generate_json, send_curl}

-- What issue_curl makes of the command.
transfer_of-command :
    (url doc : Str)
    → All (λ b. b ≢ b'\n') url
    → transfer_of (url ++ b'\n' ∷ doc)
      ≡ record { url = url; headers = body_headers doc; upload = some doc }
unfolding transfer_of
transfer_of-command url doc h =
    ground (arith, strchr-word b'\n' url doc h, cut_at-word b'\n' url doc h)

-- Where the private data holds a URL with no newline, the document of the registration holds no
-- NUL, and the two are shorter than 10 ^ 9 bytes, send_curl gives the plugin "curl" one command, and returns its answer; issue_curl reads that
-- command as an upload of the whole document to that URL.
pub send_curl_lem :
    {S : Type 0} (quote : Str → Str) (v : VsbOps) (laws : IsBuffer v) (peers : Peers S)
    (priv : VacRegisterPriv v) (url : Str)
    → priv.vac_url ≡ some url
    → url ≢ []
    → All (λ b. b ≢ b'\n') url
    → c_str (registration quote priv.config) ≡ registration quote priv.config
    → length (url ++ b'\n' ∷ registration quote priv.config) < 1000000000
    → (w : World S)
    → let cmd : Str = url ++ b'\n' ∷ registration quote priv.config in
      let (s, ret) = peers.curl w.peer cmd in
      (send_curl quote v peers priv w
        ≡ done
            (some ret, generate_json quote v priv)
            (record { peer = s; trace = fetched cmd ret ∷ logged 2 ∷ w.trace }))
      × (transfer_of cmd ≡ record {
        url = url;
        headers = body_headers (registration quote priv.config);
        upload = some (registration quote priv.config);
      })
unfolding send_curl send_at send_to log generate_json
send_curl_lem quote v laws peers priv [] known nonempty line whole short w = absurd (nonempty refl)
send_curl_lem quote v laws peers priv (c ∷ s) known nonempty line whole short w =
    let written = laws.data-bcat (v.vsb_clear priv.vsb_out) (registration quote priv.config) in
    (
      rw known (
          rw written (
            rw (laws.data-clear priv.vsb_out) (
              rw whole (
                >>=-done (ipc_curl peers ((c ∷ s) ++ b'\n' ∷ registration quote priv.config)) _ _
                  (ipc_curl-short peers _ _ short))))),
      transfer_of-command (c ∷ s) (registration quote priv.config) line,
    )
