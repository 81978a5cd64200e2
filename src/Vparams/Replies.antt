-- ===== src/Vparams/Replies.antt =====
-- How vparams_reply of src/modules/vparams.c answers.
use vagent.Prelude.{◌≡◌, Option, some, Str}
use vagent.Exec.{Peers}
use vagent.Http.{HttpRequest}
use vagent.Helpers.Respond.{Once, Silent-first_line, once_rules}
use vagent.Vparams.{vparams_reply}

-- For a request whose body was collected, empty or not, vparams_reply ends and queues exactly one
-- response, with any method and any argument.
pub vparams_reply-Once :
    {S : Type 0} (peers : Peers S) (request : HttpRequest) (arg : Option Str) (body : Str)
    → request.body ≡ some body
    → Once (vparams_reply peers request arg)
unfolding vparams_reply
vparams_reply-Once peers request arg body e =
    search (once_rules, Silent-first_line request body e) depth 7
