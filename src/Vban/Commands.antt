-- ===== src/Vban/Commands.antt =====
-- The commands that vban_reply of src/modules/vban.c sends.
use vagent.Prelude.{◌≡◌, [], ◌++◌, false, Option, none, some, Str, text, ◌==◌}
use vagent.Exec.{World, Peers}
use vagent.Http.{HttpRequest, m_get}
use vagent.Helpers.{run_and_respond, first_line}
use vagent.Helpers.Respond.{Once, Silent-first_line, once_rules}
use vagent.Vban.{vban_reply}

module _ {S : Type 0} (peers : Peers S) (request : HttpRequest) (w : World S) where
  -- A ban by URL, `POST /ban/p` with no body, becomes the command `ban req.url ~ //p`: the slash of
  -- the URL behind the one that the format adds.
  pub vban_reply-url :
      (arg p : Str)
      → (request.method == m_get) ≡ false
      → request.body ≡ some []
      → request.url ≡ text "/ban/" ++ p
      → vban_reply peers request (some arg) w
        ≡ run_and_respond peers request.connection (text "ban req.url ~ //" ++ p) w
  unfolding vban_reply first_line text
  vban_reply-url arg p post empty url = rw (post, empty, url)

module _ {S : Type 0} (peers : Peers S) (request : HttpRequest) where
  -- For a request whose body was collected, empty or not, vban_reply ends and queues exactly one
  -- response, with any method and any argument.
  pub vban_reply-Once :
      (arg : Option Str) (body : Str)
      → request.body ≡ some body
      → Once (vban_reply peers request arg)
  unfolding vban_reply
  vban_reply-Once none body e = search (once_rules, Silent-first_line request body e) depth 7
  vban_reply-Once (some a) body e = search (once_rules, Silent-first_line request body e) depth 7
