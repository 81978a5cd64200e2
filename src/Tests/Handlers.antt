-- ===== src/Tests/Handlers.antt =====
-- The properties of the handlers that pass a request on, at concrete requests.
use vagent.Prelude.{
  starts_with, if◌then◌else◌, ◌&&◌, Bool-cases, ℕ, List, [], ◌∷◌, ◌++◌, true, false, Bool, Option,
  none, some, Str, text, refl, ◌≡◌, ◌≢◌, ◌⊎◌, All, cut_at, take, length, arith, inl, inr, IsWord,
  ◌==◌,
}
use vagent.Exec.{aborted}
use vagent.Helpers.{run_and_respond, c_str}
use vagent.Http.{m_get, m_post}
use vagent.Vbackends.{vbackends_show_json}
use vagent.Vbackends.Separators.{vbackends_show_json_lem, answer_of, separated, IsLine}
use vagent.Vdirect.{vdirect_reply}
use vagent.Vdirect.Verbatim.{vdirect_reply_lem, NoPercent}
use vagent.Html.{html_reply, file_path, FileSystem}
use vagent.Html.Paths.{IsInside, Agree, html_reply-confined}
use vagent.Vcl.Listing.{active_name}
use vagent.Vcl.Listing.ActiveName.{IsOther, active_name_lem, listing, row4, row3, Cell}
use vagent.Tests.Data.{peers, idle, request}

vdirect_reply_lem_example :
    (NoPercent (cut_at b'\n' (c_str (text "status")))
      → vdirect_reply peers (request m_post (text "/direct") (some (text "status"))) none idle
        ≡ run_and_respond peers [] (cut_at b'\n' (c_str (text "status"))) idle)
    × ((pre post : Str) (d : ℕ)
        → NoPercent pre
        → d ≢ b'%'
        → cut_at b'\n' (c_str (text "status")) ≡ pre ++ b'%' ∷ d ∷ post
        → vdirect_reply peers (request m_post (text "/direct") (some (text "status"))) none idle
          ≡ aborted)
vdirect_reply_lem_example =
    vdirect_reply_lem peers (request m_post (text "/direct") (some (text "status"))) none
      (text "status") refl idle

-- A file system with one file, and the same with one more beside the root.
abbrev one_file : FileSystem
one_file = record { stat = λ p. some (true, 2); open_read = λ p. some (λ n. text "hi") }

abbrev above : Str → Bool
above p = starts_with p (text "/srv/../")

abbrev with_secrets : FileSystem
with_secrets = record {
  stat = λ p. if above p then some (true, 6) else some (true, 2);
  open_read = λ p. if above p then some (λ n. text "secret") else some (λ n. text "hi");
}

not_above : (name : Str) → IsInside name → above (file_path (text "/srv") name) ≡ false
unfolding text starts_with file_path
not_above [] h = refl
not_above (c ∷ []) h = ground arith
not_above (c ∷ d ∷ []) h = ground arith
not_above (c ∷ d ∷ e ∷ s) h = elim (Bool-cases ((c == b'.') && ((d == b'.') && (e == b'/')))) [
  | inl up ↦
      let c_dot : c ≡ b'.' = ground arith in
      let d_dot : d ≡ b'.' = ground arith in
      let e_slash : e ≡ b'/' = ground arith in
      absurd (h.start s (ground (arith, c_dot, d_dot, e_slash)))
  | inr in' ↦ ground arith
]

unlike : with_secrets.stat (text "/srv/../x") ≢ one_file.stat (text "/srv/../x")
unfolding text starts_with
unlike e = cc

agreeing : (name : Str) → IsInside name → Agree one_file with_secrets (file_path (text "/srv") name)
agreeing name h = rw (not_above name h) (refl, refl)

html_reply-confined_example :
    html_reply {S = List Str} one_file
      (text "/srv")
      (request m_get (text "/html/a") none)
      (some (text "a"))
    ≡ html_reply with_secrets (text "/srv") (request m_get (text "/html/a") none) (some (text "a"))
html_reply-confined_example =
    html_reply-confined one_file with_secrets (text "/srv") (request m_get (text "/html/a") none)
      (some (text "a")) agreeing

abbrev one_line : List Str
one_line = text "old" ∷ []

one_line-IsOther : All IsOther one_line
unfolding text vagent.Prelude.starts_with
one_line-IsOther = (((ground arith, (omega arith, (omega arith, (omega arith, tt)))), refl), tt)

active_name_lem_example :
    ((a b c : Cell)
      → IsWord b' ' a.1
      → IsWord b' ' b.1
      → IsWord b' ' c.1
      → IsWord b'\n' (row4 a b c)
      → active_name (listing one_line [] one_line-IsOther (row4 a b c)) ≡ some c.1)
    × ((a b : Cell)
        → IsWord b' ' a.1
        → IsWord b' ' b.1
        → IsWord b'\n' (row3 a b)
        → active_name (listing one_line [] one_line-IsOther (row3 a b)) ≡ none)
active_name_lem_example = active_name_lem one_line [] one_line-IsOther

heading : IsLine (text "Nm")
unfolding text
heading = ((ground arith, (omega arith, (omega arith, tt))), omega arith)

backend : All IsLine (text "b a" ∷ [])
unfolding text
backend = (((ground arith, (omega arith, (omega arith, (omega arith, tt)))), omega arith), tt)

vbackends_show_json_lem_example :
    vbackends_show_json (answer_of (text "Nm" ∷ text "b a" ∷ []))
    ≡ some (text "{\n \"backends\" : [\n" ++ (separated (text "b a" ∷ []) ++ text "\n]\n}\n"))
vbackends_show_json_lem_example =
    vbackends_show_json_lem (text "Nm") (text "b a" ∷ []) heading backend
      (unfold text in omega arith) (unfold text in omega arith)
