-- ===== src/Ipc/Loop/Order.antt =====
-- Which answer ipc_send of src/ipc.c gives its caller, whatever the threads' order.
use mathlib.Core.List.{append_assoc, map-append}
use vagent.Prelude.{
  ℕ, suc, ◌+◌, ◌≡◌, refl, sym, ap, ◌∙◌, List, [], ◌∷◌, ◌++◌, Option, none, some, Str, length, arith,
  map, length-append,
}
use vagent.Exec.{IpcRet}
use vagent.Ipc.Loop.{idle, System, Reach}
use vagent.Ipc.Loop.Frames.{begun}
use vagent.Ipc.Loop.Invariant.{serve, on_line, answers_got, timeouts, open_calls}
use vagent.Ipc.Loop.Invariant.Steps.{Reach-Inv}
use vagent.Ipc.Loop.Invariant.Lines.{answers_got-append}

-- The callback has run for one command at a time, on the private data that the run before left. On
-- each line it has run for the commands in the order in which they were sent, and the client has
-- got, or has before it, the answers in that order.
pub record Serial {S : Type 0} (cb : S → Str → S × IpcRet) (priv : S) (s : System S) : Type 0 where
  pub served :
      serve cb priv (map (λ (r : ℕ × Str × IpcRet). r.1) s.calls) ≡ (s.priv, map (λ r. r.2) s.calls)
  pub order :
      (i : ℕ)
      → (later : List Str) × ((s.lines i).sent ≡ map (λ r. r.0) (on_line i s.calls) ++ later)
  pub answers :
      (i : ℕ) → map (λ r. r.1) (on_line i s.calls) ≡ answers_got (s.lines i).got ++ (s.lines i).down

-- The answer `ret` in `calls` belongs to a command behind which `n` others were sent.
pub record Answers (calls : List (Str × IpcRet)) (sent : List Str) (ret : IpcRet) (n : ℕ)
    : Type 0 where
  pub before : List (Str × IpcRet)
  pub after : List (Str × IpcRet)
  pub cmd : Str
  pub run : calls ≡ before ++ (cmd, ret) ∷ after
  pub later : List Str
  pub order : sent ≡ map (λ r. r.0) before ++ cmd ∷ later
  pub distance : length later ≡ n

module _ {S : Type 0} {cb : S → Str → S × IpcRet} {nlisteners : ℕ} {priv : S} {s : System S} where
  -- In every state that ipc_loop and the threads of its clients reach, in any order of their steps and
  -- however the bytes are read, and whether or not calls of ipc_send have timed out: the callback has
  -- run as a sequence of calls, and the commands and answers of each handle keep their order.
  pub ipc_loop-Serial : Reach cb nlisteners priv s → Serial cb priv s
  ipc_loop-Serial r =
      let inv = Reach-Inv cb nlisteners priv r in
      record {
        served = inv.served;
        order = λ i.
            let ok = inv.line i in
            (
              ok.whole ++ begun (s.lines i).phase,
              ok.sent
                  ∙ ap (λ rs. map (λ r. r.0) rs ++ (ok.whole ++ begun (s.lines i).phase))
                      (sym (inv.split i)),
            );
        answers = λ i. ap (map (λ r. r.1)) (inv.split i) ∙ (inv.line i).answers;
      }

head_eq : {A : Type 0} {x y : A} {xs ys : List A} → x ∷ xs ≡ y ∷ ys → x ≡ y
head_eq e = cc e

tail_eq : {A : Type 0} {x y : A} {xs ys : List A} → x ∷ xs ≡ y ∷ ys → xs ≡ ys
tail_eq e = cc e

-- The element of a list at which its image is cut.
cut_map :
    (rs : List (Str × IpcRet)) (xs ys : List IpcRet) (ret : IpcRet)
    → map (λ r. r.1) rs ≡ xs ++ ret ∷ ys
    → (before : List (Str × IpcRet)) × (cmd : Str) × (after : List (Str × IpcRet)) × (rs
        ≡ before ++ (cmd, ret) ∷ after)
      × (length before ≡ length xs)
cut_map [] [] ys ret e = cc e
cut_map [] (x ∷ xs) ys ret e = cc e
cut_map ((c, a) ∷ rs) [] ys ret e = ([], c, rs, ap (λ (b : IpcRet). (c, b) ∷ rs) (head_eq e), refl)
cut_map (r ∷ rs) (x ∷ xs) ys ret e =
    let (before, cmd, after, p, n) = cut_map rs xs ys ret (tail_eq e) in
    (r ∷ before, cmd, after, ap (λ l. r ∷ l) p, ap suc n)

pub length-map : {A B : Type 0} (f : A → B) (xs : List A) → length (map f xs) ≡ length xs
length-map f [] = refl
length-map f (x ∷ xs) = ap suc (length-map f xs)

pub got_or_not : (got : List (Option IpcRet)) → length got ≡ length (answers_got got) + timeouts got
got_or_not [] = refl
got_or_not (none ∷ got) = omega (arith, got_or_not got)
got_or_not (some ret ∷ got) = omega (arith, got_or_not got)

module _ {S : Type 0} {cb : S → Str → S × IpcRet} {nlisteners : ℕ} {priv : S} {s : System S} where
  -- The answer that a call of ipc_send gives its caller is the one to the command that was sent on
  -- this handle as many commands before its own as calls on the handle have timed out: to its own
  -- command where none has, and to an older one for ever after one has.
  pub ipc_send-late :
      Reach cb nlisteners priv s
      → (i : ℕ) (earlier : List (Option IpcRet)) (ret : IpcRet) → (s.lines i).phase ≡ idle
      → (s.lines i).got ≡ earlier ++ some ret ∷ []
      → Answers (on_line i s.calls) (s.lines i).sent ret (timeouts earlier)
  ipc_send-late r i earlier ret e g =
      let serial = ipc_loop-Serial r in
      let (rest, sent) = serial.order i in
      let read = ap answers_got g ∙ answers_got-append earlier (some ret) in
      let (before, cmd, after, run, n) =
        cut_map (on_line i s.calls) (answers_got earlier) (s.lines i).down ret (
          serial.answers i
          ∙ ap (λ rs. rs ++ (s.lines i).down) read
          ∙ append_assoc (answers_got earlier) (ret ∷ []) (s.lines i).down) in
      let order =
        sent
        ∙ ap (λ cs. cs ++ rest)
            (ap (map (λ r. r.0)) run ∙ map-append (λ r. r.0) before ((cmd, ret) ∷ after))
        ∙ append_assoc (map (λ r. r.0) before) (cmd ∷ map (λ r. r.0) after) rest in
      record {
        before = before;
        after = after;
        cmd = cmd;
        run = run;
        later = map (λ r. r.0) after ++ rest;
        order = order;
        distance = omega (
          arith,
          ap length order,
          length-append (map (λ r. r.0) before) (cmd ∷ (map (λ r. r.0) after ++ rest)),
          length-map (λ r. r.0) before,
          n,
          ((Reach-Inv cb nlisteners priv r).line i).returned,
          ap open_calls e,
          ap length g,
          length-append earlier (some ret ∷ []),
          got_or_not earlier,
        );
      }
