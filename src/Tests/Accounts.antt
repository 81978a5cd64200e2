-- ===== src/Tests/Accounts.antt =====
-- The properties of src/main.c, curl.c and vac_register.c at concrete files and documents.
use vagent.Prelude.{
  ℕ, ◌≤◌, ◌<◌, List, [], ◌∷◌, ◌++◌, true, false, Bool, Option, none, some, Str, text, refl, ◌≡◌,
  ◌≢◌, All, take, length, arith,
}
use vagent.Exec.{done, fetched, logged, answered}
use vagent.Helpers.{c_str}
use vagent.Config.{AgentConfig, defaults, get_first_line, line, fault, read_account}
use vagent.Config.Account.{IsText, get_first_line_lem, read_account_lem}
use vagent.Curl.{transfer_of, body_headers}
use vagent.Curl.Upload.{senddata-feed, feed, total}
use vagent.VacRegister.{VacConfig, VacRegisterPriv, registration, generate_json, send_curl}
use vagent.VacRegister.Target.{send_curl_lem}
use vagent.Tests.Data.{buffers, buffers-IsBuffer, peers, idle}

senddata-feed_example :
    feed (2 ∷ 3 ∷ 4 ∷ []) (record { pos = some (text "hello"); ndata = length (text "hello") })
    ≡ some (take (total (2 ∷ 3 ∷ 4 ∷ [])) (text "hello"))
senddata-feed_example = senddata-feed (2 ∷ 3 ∷ 4 ∷ []) (text "hello")

abbrev account : AgentConfig
account =
    defaults (record { persist_dir = text "/var"; html_dir = text "/srv"; conf_dir = text "/etc" })

abbrev account_line : Str
account_line = text "me" ++ b':' ∷ text "pw"

account_line-IsText : IsText account_line
unfolding text
account_line-IsText = (
  (omega arith, omega arith),
  (
    (omega arith, omega arith),
    ((omega arith, omega arith), ((omega arith, omega arith), ((omega arith, omega arith), tt))),
  ),
)

short_line : length account_line < 1024
unfolding text
short_line = omega arith

get_first_line_lem_example :
    (length (account_line ++ b'\n' ∷ []) ≤ 1022
      → get_first_line [] (some (account_line ++ b'\n' ∷ [])) ≡ line account_line)
    × (1023 ≤ length (account_line ++ b'\n' ∷ [])
        → get_first_line [] (some (account_line ++ b'\n' ∷ [])) ≡ fault)
get_first_line_lem_example = get_first_line_lem [] account_line [] account_line-IsText short_line

no_colon : All (λ b. b ≢ b':') (text "me")
unfolding text
no_colon = (omega arith, (omega arith, tt))

password_given : text "pw" ≢ []
unfolding text
password_given = ground arith

small_file : length (account_line ++ b'\n' ∷ []) ≤ 1022
unfolding text
small_file = omega arith

read_account_lem_example :
    read_account
      (λ s. s)
      (get_first_line [] (some ((text "me" ++ b':' ∷ text "pw") ++ b'\n' ∷ [])))
      account
    ≡ some (record account {
      user = some (text "me");
      password = some (text "pw");
      auth_token = some (text "me" ++ b':' ∷ text "pw");
    })
read_account_lem_example =
    read_account_lem (λ s. s) [] (text "me") (text "pw") [] account account_line-IsText no_colon
      password_given small_file

abbrev vac_config : VacConfig
vac_config = record {
  remote_port = text "6085";
  user = text "me";
  password = text "pw";
  n_arg = [];
}

abbrev vac_priv : VacRegisterPriv buffers
vac_priv = record { config = vac_config; vsb_out = []; vac_url = some (text "vac") }

abbrev document : Str
document = registration (λ s. s) vac_config

whole_document : c_str document ≡ document
unfolding registration text vagent.Prelude.cut_at
whole_document = refl

one_url : (text "vac" ≢ []) × All (λ b. b ≢ b'\n') (text "vac")
unfolding text
one_url = (ground arith, (omega arith, (omega arith, (omega arith, tt))))

short_command : length (text "vac" ++ b'\n' ∷ document) < 1000000000
unfolding text registration
short_command = omega arith

send_curl_lem_example :
    (send_curl (λ s. s) buffers peers vac_priv idle
      ≡ done
          (some (answered 200 (text "OK")), generate_json (λ s. s) buffers vac_priv)
          (record {
            peer = (text "vac" ++ b'\n' ∷ document) ∷ [];
            trace =
                fetched (text "vac" ++ b'\n' ∷ document) (answered 200 (text "OK")) ∷ logged 2 ∷ [];
          }))
    × (transfer_of (text "vac" ++ b'\n' ∷ document)
        ≡ record { url = text "vac"; headers = body_headers document; upload = some document })
send_curl_lem_example =
    send_curl_lem (λ s. s) buffers buffers-IsBuffer peers vac_priv (text "vac") refl one_url.0
      one_url.1 whole_document short_command idle
