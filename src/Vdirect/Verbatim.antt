-- ===== src/Vdirect/Verbatim.antt =====
-- What vdirect_reply of src/modules/vdirect.c makes of the first line of a body.
use vagent.Prelude.{ℕ, ◌≡◌, ◌≢◌, refl, [], ◌∷◌, ◌++◌, Option, none, some, Str, cut_at, All, arith}
use vagent.Exec.{World, Peers, aborted}
use vagent.Http.{HttpRequest}
use vagent.Helpers.{run_and_respond, c_str}
use vagent.Vdirect.{format_only, vdirect_reply}

abbrev pub NoPercent : Str → Type 0
NoPercent s = All (λ c. c ≢ b'%') s

format_only-plain : (s : Str) → NoPercent s → format_only s ≡ some s
unfolding format_only
format_only-plain [] h = refl
format_only-plain (c ∷ []) h = ground arith
format_only-plain (c ∷ d ∷ s) h = ground (arith, format_only-plain (d ∷ s) h.1)

format_only-percent :
    (pre : Str) (d : ℕ) (post : Str)
    → NoPercent pre
    → d ≢ b'%'
    → format_only (pre ++ b'%' ∷ d ∷ post) ≡ none
unfolding format_only
format_only-percent [] d post h ne = ground arith
format_only-percent (c ∷ []) d post h ne = ground arith
format_only-percent (c ∷ e ∷ pre) d post h ne =
    ground (arith, format_only-percent (e ∷ pre) d post h.1 ne)

module _ {S : Type 0} (peers : Peers S) (request : HttpRequest) (arg : Option Str) (body : Str)
    (given : request.body ≡ some body) (w : World S) where
  -- A first line with no percent sign reaches varnishd as it is; one with a percent sign that
  -- another character than a percent sign follows is a format with arguments missing, which C
  -- leaves undefined.
  pub vdirect_reply_lem :
      (NoPercent (cut_at b'\n' (c_str body))
        → vdirect_reply peers request arg w
          ≡ run_and_respond peers request.connection (cut_at b'\n' (c_str body)) w)
      × ((pre post : Str) (d : ℕ)
          → NoPercent pre
          → d ≢ b'%'
          → cut_at b'\n' (c_str body) ≡ pre ++ b'%' ∷ d ∷ post
          → vdirect_reply peers request arg w ≡ aborted)
  unfolding vdirect_reply
  vdirect_reply_lem = (
    λ plain. rw given (ground (arith, format_only-plain (cut_at b'\n' (c_str body)) plain)),
    λ pre post d plain ne e. rw given (ground (arith, format_only-percent pre d post plain ne)),
  )
