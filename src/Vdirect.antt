-- ===== src/Vdirect.antt =====
-- src/modules/vdirect.c: verbatim commands. The first line of the body is the format string that
-- run_and_respond gives to vasprintf, with no arguments behind it.
use vagent.Prelude.{
  ℕ, ◌≡◌, refl, ap, List, [], ◌∷◌, ◌++◌, Bool, true, false, Option, none, some, Str, text, ◌==◌,
  if◌then◌else◌, Bool-cases, length, drop, cut_at, arith, ◌≢◌, All,
}
use vagent.Exec.{M, World, Peers, Ends, done, aborted, ◌>>=◌, ◌>>◌, pure}
use vagent.Http.{HttpRequest, bodylen, http_reply, m_get}
use vagent.Helpers.{c_str, run_and_respond}
pub mod Verbatim

-- What a format prints where it has no arguments. `%%` is a percent sign; any other conversion
-- reads an argument that is not there, which C leaves undefined.
unfoldable pub format_only : Str → Option Str
format_only [] = some []
format_only (c ∷ []) = if c == b'%' then none else some (c ∷ [])
format_only (c ∷ d ∷ s) =
    let long : Option Str = elim (format_only s) [ none ↦ none | some t ↦ some (b'%' ∷ t) ] in
    let short : Option Str = elim (format_only (d ∷ s)) [ none ↦ none | some t ↦ some (c ∷ t) ] in
    if c == b'%' then (if d == b'%' then long else none) else short

module _ {S : Type 0} (peers : Peers S) where
  unfoldable pub vdirect_reply : HttpRequest → Option Str → M S (Unit {0})
  vdirect_reply request arg w = elim request.body [
    | none ↦ aborted
    | some body ↦ elim (format_only (cut_at b'\n' (c_str body))) [
      | none ↦ aborted
      | some cmd ↦ run_and_respond peers request.connection cmd w
    ]
  ]
