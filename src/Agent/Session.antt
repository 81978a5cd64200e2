-- ===== src/Agent/Session.antt =====
-- Any number of requests on a connection to src/modules/http.c, with all callbacks.
use vagent.Prelude.{ℕ, ◌+◌, ◌≡◌, ◌⊎◌, List, [], ◌∷◌, false}
use vagent.Exec.{World}
use vagent.Foreign.{VsbOps}
use vagent.Helpers.Respond.{replies}
use vagent.Http.{parse_method}
use vagent.Http.Connection.{HttpConfig, HttpPriv, Call}
use vagent.Http.Connection.Body.{Chunk, request_calls}
use vagent.Http.Connection.Answered.{turned_away}
use vagent.Agent.{Agent, Outside}
use vagent.Agent.Requests.{CanAbort}

-- A request: its last call, and the parts of its body.
abbrev pub Request : Type 0
Request = Call × List Chunk

abbrev pub calls_of : Request → List Call
calls_of (last, chunks) = last ∷ request_calls last chunks

abbrev pub AnyCanAbort : List Request → Type 0
AnyCanAbort [] = ⊥
AnyCanAbort ((last, chunks) ∷ requests) =
    CanAbort last.url (parse_method last.method) ⊎ AnyCanAbort requests

module _ (v : VsbOps) {S : Type 0} (o : Outside S) (config : HttpConfig) (pair : ℕ → ℕ × ℕ) where
  -- The last call of a request has no upload, and the read-only mode lets its method through.
  abbrev pub Complete : Request → Type 0
  Complete (last, chunks) = (last.upload ≡ []) × (turned_away v config last.method ≡ false)

  -- So many more responses have been queued.
  abbrev pub Queued : ℕ → World (Agent v S) → HttpPriv (Agent v S) → World (Agent v S) → Type 0
  Queued n w http w' = replies w'.trace ≡ n + replies w.trace
