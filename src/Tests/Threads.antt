-- ===== src/Tests/Threads.antt =====
-- A server with one client, whose first call times out: the second gets the answer to the first.
use vagent.Prelude.{
  ℕ, zero, suc, ◌+◌, ◌<◌, ◌≡◌, ◌≢◌, refl, List, [], ◌∷◌, ◌++◌, Option, none, some, Str, text,
  length, map, arith,
}
use vagent.Exec.{IpcRet, answered}
use vagent.Ipc.Loop.{
  System, Reach, start, later, client, server, send, send_rest, take_answer, stop_waiting, polled,
  header, part, run, scanned, idle, in_read, aborted, scanning, read_header, Step,
}
use vagent.Ipc.Loop.Invariant.{on_line}
use vagent.Ipc.Loop.Order.{Serial, Answers, ipc_loop-Serial, ipc_send-late}
use vagent.Ipc.Loop.Progress.{ipc_cmd-Due}

-- The plugin answers with the command, and counts.
abbrev echo : ℕ → Str → ℕ × IpcRet
echo n c = (n + 1, answered 200 c)

record Reached : Type 0 where
  last : System ℕ
  reach : Reach echo 1 0 last

abbrev extend : (r : Reached) {t : System ℕ} → Step echo 1 r.last t → Reached
extend r st = record { last = _; reach = later r.reach st }

-- The first call is sent, and its client stops waiting before the server has run.
unfoldable timed_out : Reached
unfolding text vagent.Ipc.Loop.write_header vagent.Ipc.Loop.write_data
timed_out =
    let r₀ : Reached = record { last = _; reach = start } in
    let r₁ = extend r₀ (client 0 (omega arith) (send (text "a") refl (omega arith))) in
    let r₂ = extend r₁ (client 0 (omega arith) (send_rest (text "a") refl)) in
    extend r₂ (client 0 (omega arith) (stop_waiting refl refl))

-- The server reads the message.
unfoldable half_read : Reached
unfolding timed_out vagent.Ipc.Loop.poll vagent.Ipc.Loop.write_header vagent.Ipc.Loop.write_data
    vagent.Ipc.Loop.read_header vagent.Ipc.Loop.time_out vagent.Ipc.Loop.read_bytes
    vagent.Ipc.Loop.write_result vagent.Ipc.Loop.take_result vagent.Ipc.length_header
    vagent.Ipc.pad_digits vagent.Ipc.atoi vagent.Ipc.atoi_digits vagent.Ipc.is_digit
    vagent.Ipc.is_space vagent.Ipc.ends_in_space text vagent.Prelude.cut_at
half_read =
    let r₁ = extend timed_out (server (polled refl (λ e. cc e))) in
    extend r₁ (server (header 0 1 [] refl refl))

-- The second call is made before the server has run for the first.
unfoldable in_second : Reached
unfolding half_read timed_out vagent.Ipc.Loop.poll vagent.Ipc.Loop.write_header
    vagent.Ipc.Loop.write_data vagent.Ipc.Loop.read_header vagent.Ipc.Loop.time_out
    vagent.Ipc.Loop.read_bytes vagent.Ipc.Loop.write_result vagent.Ipc.Loop.take_result
    vagent.Ipc.length_header vagent.Ipc.pad_digits vagent.Ipc.atoi vagent.Ipc.atoi_digits
    vagent.Ipc.is_digit vagent.Ipc.is_space vagent.Ipc.ends_in_space text vagent.Prelude.cut_at
in_second =
    let r₁ =
      extend half_read (server (part 0 1 1 [] [] refl (omega arith) (omega arith) (omega arith))) in
    let r₂ = extend r₁ (server (run 0 1 (text "a") [] refl refl)) in
    let r₃ = extend r₂ (client 0 (omega arith) (send (text "b") refl (omega arith))) in
    extend r₃ (client 0 (omega arith) (send_rest (text "b") refl))

unfoldable late : Reached
unfolding in_second half_read timed_out vagent.Ipc.Loop.poll vagent.Ipc.Loop.write_header
    vagent.Ipc.Loop.write_data vagent.Ipc.Loop.read_header vagent.Ipc.Loop.time_out
    vagent.Ipc.Loop.read_bytes vagent.Ipc.Loop.write_result vagent.Ipc.Loop.take_result
    vagent.Ipc.length_header vagent.Ipc.pad_digits vagent.Ipc.atoi vagent.Ipc.atoi_digits
    vagent.Ipc.is_digit vagent.Ipc.is_space vagent.Ipc.ends_in_space text vagent.Prelude.cut_at
late =
    extend in_second (client 0 (omega arith) (take_answer (answered 200 (text "a")) [] refl refl))

ipc_loop-Serial_example : Serial echo 0 late.last
ipc_loop-Serial_example = ipc_loop-Serial late.reach

ipc_send-late_example :
    Answers (on_line 0 late.last.calls) (late.last.lines 0).sent (answered 200 (text "a")) 1
unfolding late in_second half_read timed_out vagent.Ipc.Loop.poll vagent.Ipc.Loop.write_header
    vagent.Ipc.Loop.write_data vagent.Ipc.Loop.read_header vagent.Ipc.Loop.time_out
    vagent.Ipc.Loop.read_bytes vagent.Ipc.Loop.write_result vagent.Ipc.Loop.take_result
    vagent.Ipc.length_header vagent.Ipc.pad_digits vagent.Ipc.atoi vagent.Ipc.atoi_digits
    vagent.Ipc.is_digit vagent.Ipc.is_space vagent.Ipc.ends_in_space text vagent.Prelude.cut_at
ipc_send-late_example = ipc_send-late late.reach 0 (none ∷ []) (answered 200 (text "a")) refl refl

ipc_cmd-Due_example :
    (late.last.server ≢ aborted)
    × ((i : ℕ) (rest : List ℕ)
        → late.last.server ≡ scanning (i ∷ rest)
        → (len : ℕ) × (read_header (late.last.lines i).up ≡ some len))
ipc_cmd-Due_example = ipc_cmd-Due echo 1 0 late.reach

-- What the client got, and what it sent.
late_got :
    ((late.last.lines 0).got ≡ none ∷ some (answered 200 (text "a")) ∷ [])
    × ((late.last.lines 0).sent ≡ text "a" ∷ text "b" ∷ [])
unfolding late in_second half_read timed_out vagent.Ipc.Loop.poll vagent.Ipc.Loop.write_header
    vagent.Ipc.Loop.write_data vagent.Ipc.Loop.read_header vagent.Ipc.Loop.time_out
    vagent.Ipc.Loop.read_bytes vagent.Ipc.Loop.write_result vagent.Ipc.Loop.take_result
    vagent.Ipc.length_header vagent.Ipc.pad_digits vagent.Ipc.atoi vagent.Ipc.atoi_digits
    vagent.Ipc.is_digit vagent.Ipc.is_space vagent.Ipc.ends_in_space text vagent.Prelude.cut_at
late_got = (refl, refl)
