-- ===== src/Tests/Start.antt =====
-- The properties of the start and of the statistics, at concrete inputs.
use vagent.Vstat.Refined.{vstat-Refines}
use vagent.Init.Lookup.{below, find_listener-lookup}
use vagent.Helpers.{run_and_respond}
use vagent.Init.Routes.{routes, registered}
use vagent.Vstat.Pushed.{stats, all_specified, round, Holds}
use vagent.Vstat.{VstatPriv, Vsm}
use vagent.Exec.Refinement.{Refines}
use vagent.Http.{m_post, m_get, m_put, find_listener, HttpRequest}
use vagent.Init.{on_vcl_push, Callback}
use vagent.Prelude.{
  arith, ℕ, ◌+◌, List, [], ◌∷◌, ◌++◌, Bool, true, false, Option, none, some, Str, text, refl, ◌≡◌,
  replicate, map, take,
}
use vagent.Exec.{M, pure, ◌>>◌}
use mathlib.Core.List.{Memᴰ}
use mathlib.Core.List.Memᴰ
use vagent.Vstat.Pushed.{push_url, Call, run_calls}
use vagent.Tests.Data.{peers, idle, request, buffers, buffers-IsBuffer}

abbrev uptime : Vsm
uptime = record {
  abandoned = false;
  open_fails = false;
  time_stamp = text "2016-01-01T00:00:00";
  points =
      none
      ∷ some (record {
        ctype = text "uint64_t";
        type = text "MAIN";
        ident = [];
        name = text "uptime";
        value = 12;
        semantics = b'c';
        sdesc = text "Child process uptime";
      })
      ∷ [];
}

abbrev fresh_stats : VstatPriv buffers
fresh_stats = record { http_vsb = []; timer_vsb = []; push_url = none }

abbrev stat_calls : List (Call × Vsm)
stat_calls =
    (push_url (request m_put (text "/push/url/stats") (some (text "http://vac/"))) none, uptime)
    ∷ (round, uptime)
    ∷ (stats (request m_get (text "/stats") (some [])) none, uptime)
    ∷ []

vstat-Refines_example :
    Refines
      (Holds buffers)
      (run_calls peers buffers stat_calls fresh_stats idle)
      (all_specified peers stat_calls none idle)
vstat-Refines_example =
    vstat-Refines buffers buffers-IsBuffer peers stat_calls fresh_stats none idle (refl, refl, refl)

-- Every callback sends the command "status".
abbrev status_cb : Callback → HttpRequest → Option Str → M (List Str) Unit
status_cb callback request arg = run_and_respond peers request.connection (text "status")

abbrev next_pair : ℕ → ℕ × ℕ
next_pair n = (n + n, n + n + 1)

abbrev put_vcl : HttpRequest
put_vcl = request m_put (text "/vcl/boot") (some (text "vcl 4.0;"))

vcl_push_route :
    Memᴰ (record { url = text "/vcl"; methods = m_put + m_post; callback = on_vcl_push }) routes
vcl_push_route = Memᴰ.append_right (take 20 routes) (Memᴰ.head refl)

find_listener-lookup_example :
    find_listener put_vcl (registered status_cb next_pair)
    ≡ (do status_cb on_vcl_push put_vcl (some (text "boot")); pure true)
unfolding text vagent.Prelude.strcmp_eq
find_listener-lookup_example =
    find_listener-lookup status_cb next_pair
      (record { url = text "/vcl"; methods = m_put + m_post; callback = on_vcl_push })
      (text "/boot") (some (text "boot")) put_vcl vcl_push_route
      (below b'b' (text "oot") (ground arith)) refl
