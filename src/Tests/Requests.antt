-- ===== src/Tests/Requests.antt =====
-- The properties of src/modules/http.c and of the handlers at concrete requests.
use vagent.Prelude.{
  inr, arith, inl, Option-cases, ◌==◌, ℕ, List, [], ◌∷◌, true, false, Option, none, some, Str, text,
  refl, ◌≡◌, ◌↔◌,
}
use vagent.Exec.{pure, ◌>>=◌, Ends, logged}
use vagent.Http.{HttpRequest, http_reply, m_options, m_get, parse_method, m_post, select_listener}
use vagent.Http.Connection.{answer_all, has_token}
use vagent.Http.Connection.Auth.{
  answer_all-IsTurnedAway, Keeps, IsTurnedAway, answer_all-read_only, IsIdle,
}
use vagent.Http.Connection.Body.{
  answer_all-callback, run_calls, request_calls, request_with, joined,
}
use vagent.Http.Routing.{select_listener-Selects, Selects}
use vagent.Tests.Data.{
  buffers, buffers-IsBuffer, idle, direct, http, config, read_only_config, token, post,
}

select_listener-Selects_example :
    (select_listener (text "/direct/x") m_post (direct ∷ []) ≡ some (direct, some (text "x")))
    ↔ Selects (text "/direct/x") m_post (direct ∷ []) direct (some (text "x"))
select_listener-Selects_example =
    select_listener-Selects (text "/direct/x") m_post (direct ∷ []) direct (some (text "x"))

writing :
    ((parse_method (text "POST") == m_get) ≡ false)
    × ((parse_method (text "POST") == m_options) ≡ false)
unfolding parse_method text vagent.Prelude.strcmp_eq
writing = (refl, refl)

anonymous : has_token config [] ≡ false
unfolding has_token vagent.Http.http_get_header
anonymous = refl

answer_all-IsTurnedAway_example :
    Ends (Keeps buffers config http (IsTurnedAway buffers config http [] false)) (
      answer_all buffers config
        (post [] [] ∷ post [] (text "stop") ∷ post [] [] ∷ [])
        http
        none
        idle)
answer_all-IsTurnedAway_example =
    answer_all-IsTurnedAway buffers config http [] false
      (post [] [] ∷ post [] (text "stop") ∷ post [] [] ∷ [])
      ((anonymous, writing.1), ((anonymous, writing.1), ((anonymous, writing.1), tt)))

authorised : has_token config token ≡ true
unfolding has_token text vagent.Http.http_get_header vagent.Http.strcasecmp_eq
    vagent.Prelude.starts_with vagent.Prelude.strcmp_eq
authorised = refl

selected :
    select_listener (text "/direct/x") (parse_method (text "POST")) (direct ∷ [])
    ≡ some (direct, some (text "x"))
unfolding select_listener parse_method text vagent.Prelude.starts_with vagent.Prelude.strcmp_eq
selected = refl

not_options : (parse_method (text "POST") == m_options) ≡ false
unfolding parse_method text vagent.Prelude.strcmp_eq
not_options = refl

-- The body of two parts reaches the callback as one.
answer_all-callback_example :
    run_calls buffers buffers-IsBuffer config http
      (post token [])
      (post token [] ∷ request_calls (post token []) ((b's', text "to") ∷ (b'p', []) ∷ []))
      none
      idle
    ≡ (direct.cb
            (request_with buffers buffers-IsBuffer config http
              (post token [])
              (joined ((b's', text "to") ∷ (b'p', []) ∷ [])))
            (some (text "x"))
          >>= λ _. pure http)
        (record { peer = []; trace = logged 2 ∷ logged 2 ∷ logged 2 ∷ logged 2 ∷ [] })
answer_all-callback_example =
    answer_all-callback buffers buffers-IsBuffer config http (post token []) refl not_options direct
      (some (text "x")) selected refl ((b's', text "to") ∷ (b'p', []) ∷ []) idle authorised

answer_all-read_only_example :
    Ends
      (Keeps buffers read_only_config http (IsIdle buffers read_only_config http []))
      (answer_all buffers read_only_config (post token [] ∷ post token [] ∷ []) http none idle)
answer_all-read_only_example =
    answer_all-read_only buffers read_only_config http [] refl (post token [] ∷ post token [] ∷ [])
      none (writing, (writing, tt))
