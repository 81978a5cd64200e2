-- ===== src/Helpers.antt =====
-- src/helpers.c: a command to varnishd whose answer is the response, and the endpoints of URLs.
pub mod Endpoint
pub mod Respond
use vagent.Prelude.{
  ℕ, ◌+◌, ◌-◌, ◌≡◌, List, [], ◌∷◌, ◌++◌, Bool, true, false, not, ◌&&◌, ◌||◌, Option, none, some,
  Str, text, ltb, leb, ◌==◌, if◌then◌else◌, starts_with, length, drop, cut_at,
}
use vagent.Exec.{IpcRet, World, M, Peers, done, aborted, ◌>>=◌, ◌>>◌, pure, assert, ipc_run}
use vagent.Http.{Connection, HttpRequest, http_reply}

-- What a C function sees of bytes that end in a NUL: those up to the first NUL.
abbrev pub c_str : Str → Str
c_str s = cut_at 0 s

module _ {S : Type 0} (peers : Peers S) where
  -- The command is formatted by the caller. The assert is on the length that vasprintf returns.
  unfoldable pub run_and_respond_eok : Connection → ℕ → ℕ → Str → M S (Unit {0})
  run_and_respond_eok conn min max cmd = do
    assert (ltb 0 (length cmd))
    vret ← ipc_run peers cmd
    http_reply conn (if leb min vret.status && leb vret.status max then 200 else 500)
        (some vret.answer)

  unfoldable pub run_and_respond : Connection → Str → M S (Unit {0})
  run_and_respond conn cmd = do
    vret ← ipc_run peers cmd
    http_reply conn (if vret.status == 200 then 200 else 500) (some vret.answer)

module _ {S : Type 0} where
  unfoldable pub help_reply : Str → HttpRequest → Option Str → M S (Unit {0})
  help_reply help request arg = http_reply request.connection 200 (some help)

  -- `body = strdup(request->body)` and the cut at the first newline. A body that is NULL is
  -- followed, which C leaves undefined.
  unfoldable pub first_line : HttpRequest → M S Str
  first_line request w = elim request.body [
    | none ↦ aborted
    | some b ↦ done (cut_at b'\n' (c_str b)) w
  ]

unfoldable pub last_is : ℕ → Str → Bool
last_is c [] = false
last_is c (b ∷ s) = elim s [ [] ↦ b == c | d ∷ t ↦ last_is c s ]

-- `none`: the assert fails. The endpoint is not empty.
unfoldable pub check_endpoint : Str → Str → Option ℕ
unfolding last_is
check_endpoint url endpoint =
    if starts_with url endpoint
    then some (
        if last_is b'/' endpoint then length endpoint else elim (drop (length endpoint) url) [
          | [] ↦ length endpoint + 1
          | c ∷ s ↦ if c == b'/' then length endpoint + 1 else 0
        ])
    else none

-- A pointer into the URL: at a place of the string (its NUL included), or behind the NUL.
pub data Pointer : Type 0 where
  at : Str → Pointer
  past_end : Pointer

abbrev pub offset : Str → ℕ → Pointer
offset url n = if leb n (length url) then at (drop n url) else past_end

unfoldable pub url_arg : Str → Str → Option Pointer
unfolding check_endpoint
url_arg url endpoint = elim (check_endpoint url endpoint) [
  | none ↦ none
  | some len ↦ if len == 0 then none else some (offset url len)
]
