-- ===== src/Vban.antt =====
-- src/modules/vban.c: listing and adding bans.
use vagent.Prelude.{
  ℕ, ◌≡◌, List, [], ◌∷◌, ◌++◌, Bool, true, false, Option, none, some, Str, text, ◌==◌,
  if◌then◌else◌, length, drop,
}
use vagent.Exec.{M, Peers, ◌>>=◌, ◌>>◌}
use vagent.Http.{HttpRequest, bodylen, http_reply, m_get}
use vagent.Helpers.{run_and_respond, first_line}
pub mod Commands

-- BAN_SHORTHAND
unfoldable pub ban_shorthand : Str
ban_shorthand = text "req.url ~ "

module _ {S : Type 0} (peers : Peers S) where
  unfoldable pub vban_reply : HttpRequest → Option Str → M S (Unit {0})
  unfolding ban_shorthand
  vban_reply request arg =
      if request.method == m_get
      then run_and_respond peers request.connection (text "ban.list")
      else do
        body ← first_line request
        elim arg [
          | none ↦ run_and_respond peers request.connection (text "ban " ++ body)
          | some a ↦
              if bodylen request == 0
              then run_and_respond peers request.connection
                  (text "ban " ++ (ban_shorthand ++ (text "/" ++ drop 4 request.url)))
              else http_reply request.connection 500 (
                  some (
                    text "Banning with both a url and request body? Pick one or the other please."))
        ]
