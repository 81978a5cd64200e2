-- ===== src/Ipc/Loop/Invariant/Steps.antt =====
-- Every state that ipc_loop of src/ipc.c and its clients reach keeps the invariant.
use mathlib.Core.Path.{subst}
use mathlib.Core.List.{map-append}
use vagent.Prelude.{
  ℕ, ◌+◌, ◌≤◌, ◌≡◌, ◌≢◌, refl, sym, ap, ◌∙◌, List, [], ◌∷◌, ◌++◌, none, some, Str, length, take,
  arith, map, inl, inr, cut_at,
}
use vagent.Exec.{IpcRet}
use vagent.Ipc.Loop.{
  Line, Server, scanning, reading, System, update, ClientStep, ServerStep, polled, scanned, header,
  fail, part, run, client, server, Reach, start, later, read_bytes, write_result, read_header,
}
use vagent.Ipc.Loop.Invariant.{LineOk, held, ServerOk, Known, serve, on_line, Inv}
use vagent.Ipc.Loop.Invariant.Lines.{
  front, LineOk-ClientStep, LineOk-header, LineOk-part, LineOk-run,
}
use vagent.Ipc.Loop.Invariant.Changes.{
  update-all, held-other, held_self, Due-before, poll-Due, ClientStep-ran, ServerOk-client,
  on_line-append, mine_too, not_theirs, one_more, serve-append, poll-Known,
}

module _ {S : Type 0} (cb : S → Str → S × IpcRet) (nlisteners : ℕ) (priv : S) where
  Inv-client :
      (s : System S) (i : ℕ) {l : Line}
      → Inv cb nlisteners priv s
      → ClientStep (s.lines i) l
      → Inv cb nlisteners priv (record s { lines = update s.lines i l })
  Inv-client s i {l} inv st = record {
    line =
        update-all (λ j m. LineOk (held s.server j) m) s.lines i l
          (LineOk-ClientStep (held s.server i) (s.lines i) (inv.line i) st) (λ j h. inv.line j);
    server = ServerOk-client s.lines i s.server st inv.server;
    known = inv.known;
    served = inv.served;
    split =
        update-all (λ j m. on_line j s.calls ≡ m.ran) s.lines i l (inv.split i ∙ ClientStep-ran st)
          (λ j h. inv.split j);
  }

  -- The server is between two messages.
  free :
      (s : System S)
      → Inv cb nlisteners priv s
      → {is : List ℕ} → s.server ≡ scanning is
      → (j : ℕ) → LineOk none (s.lines j)
  free s inv e j = subst (λ (p : Server). LineOk (held p j) (s.lines j)) e (inv.line j)

  -- The server is in a message of this line, and so of no other.
  mine :
      (s : System S) (i : ℕ)
      → Inv cb nlisteners priv s
      → {len : ℕ} {msg : Str} {rest : List ℕ} → s.server ≡ reading i len msg rest
      → LineOk (some (len, msg)) (s.lines i)
  mine s i inv {len} {msg} {rest} e =
      rw held_self at (subst (λ (p : Server). LineOk (held p i) (s.lines i)) e (inv.line i))

  other :
      (s : System S)
      → Inv cb nlisteners priv s
      → {i len : ℕ} {msg : Str} {rest : List ℕ} → s.server ≡ reading i len msg rest
      → (j : ℕ) → j ≢ i
      → LineOk none (s.lines j)
  other s inv {i} {len} {msg} {rest} e j out =
      rw (held-other i len msg rest j out) at
        (subst (λ (p : Server). LineOk (held p j) (s.lines j)) e (inv.line j))

  Inv-header :
      (s : System S) (i len : ℕ) (rest : List ℕ)
      → Inv cb nlisteners priv s
      → s.server ≡ scanning (i ∷ rest)
      → read_header (s.lines i).up ≡ some len
      → Inv cb nlisteners priv (record s {
        lines = update s.lines i (read_bytes 10 (s.lines i));
        server = reading i len [] rest;
      })
  unfolding read_bytes
  Inv-header s i len rest inv e h = record {
    line =
        update-all (λ j m. LineOk (held (reading i len [] rest) j) m) s.lines i _
          (rw held_self (LineOk-header (s.lines i) len (free s inv e i) h))
          (λ j out. rw (held-other i len [] rest j out) (free s inv e j));
    server =
        let due = subst (ServerOk s.lines) e inv.server in
        (due.1, Due-before s.lines i _ rest due.1 due.2);
    known = subst (Known nlisteners) e inv.known;
    served = inv.served;
    split =
        update-all (λ j m. on_line j s.calls ≡ m.ran) s.lines i _ (inv.split i)
          (λ j out. inv.split j);
  }

  Inv-part :
      (s : System S) (i len k : ℕ) (msg : Str) (rest : List ℕ)
      → Inv cb nlisteners priv s
      → s.server ≡ reading i len msg rest
      → k ≤ length (s.lines i).up
      → length msg + k ≤ len
      → Inv cb nlisteners priv (record s {
        lines = update s.lines i (read_bytes k (s.lines i));
        server = reading i len (msg ++ take k (s.lines i).up) rest;
      })
  unfolding read_bytes
  Inv-part s i len k msg rest inv e some_bytes fits = record {
    line =
        update-all (λ j m. LineOk (held (reading i len (msg ++ take k (s.lines i).up) rest) j) m)
          s.lines i _
          (rw held_self (LineOk-part (s.lines i) len k msg (mine s i inv e) some_bytes fits))
          (λ j out.
            rw (held-other i len (msg ++ take k (s.lines i).up) rest j out) (other s inv e j out));
    server =
        let due = subst (ServerOk s.lines) e inv.server in
        (due.0, Due-before s.lines i _ rest due.0 due.1);
    known = subst (Known nlisteners) e inv.known;
    served = inv.served;
    split =
        update-all (λ j m. on_line j s.calls ≡ m.ran) s.lines i _ (inv.split i)
          (λ j out. inv.split j);
  }

  Inv-run :
      (s : System S) (i len : ℕ) (msg : Str) (rest : List ℕ)
      → Inv cb nlisteners priv s
      → s.server ≡ reading i len msg rest
      → length msg ≡ len
      → Inv cb nlisteners priv (record s {
        lines = update s.lines i (write_result msg (cb s.priv (cut_at 0 msg)).1 (s.lines i));
        server = scanning rest;
        priv = (cb s.priv (cut_at 0 msg)).0;
        calls = s.calls ++ (i, msg, (cb s.priv (cut_at 0 msg)).1) ∷ [];
      })
  unfolding write_result
  Inv-run s i len msg rest inv e full = record {
    line =
        update-all (λ j m. LineOk none m) s.lines i _
          (LineOk-run (s.lines i) len msg _ (mine s i inv e) full) (λ j out. other s inv e j out);
    server =
        let due = subst (ServerOk s.lines) e inv.server in Due-before s.lines i _ rest due.0 due.1;
    known = (subst (Known nlisteners) e inv.known).1;
    served =
        ap (serve cb priv) (map-append _ s.calls _)
        ∙ serve-append cb priv (map (λ r. r.1) s.calls) msg
        ∙ ap (one_more cb msg) inv.served
        ∙ ap (λ rets. ((cb s.priv (cut_at 0 msg)).0, rets)) (sym (map-append (λ r. r.2) s.calls _));
    split =
        update-all
          (λ j m. on_line j (s.calls ++ (i, msg, (cb s.priv (cut_at 0 msg)).1) ∷ []) ≡ m.ran)
          s.lines i _
          (on_line-append i i msg _ s.calls ∙ mine_too i (on_line i s.calls) _ msg _ (inv.split i))
          (λ j out.
            on_line-append j i msg _ s.calls
            ∙ not_theirs j i (on_line j s.calls) _ msg _ out (inv.split j));
  }

  -- No assert of ipc_cmd fails.
  no_fail :
      (s : System S)
      → Inv cb nlisteners priv s
      → (i : ℕ) (rest : List ℕ) → s.server ≡ scanning (i ∷ rest)
      → (s.lines i).up ≢ []
      → read_header (s.lines i).up ≢ none
  no_fail s inv i rest e up h = elim (front (s.lines i) (free s inv e i)) [
    | inl none_up ↦ up none_up
    | inr (n, t, small, all, r) ↦ cc (h, r)
  ]

  Inv-ServerStep :
      {s t : System S}
      → Inv cb nlisteners priv s
      → ServerStep cb nlisteners s t
      → Inv cb nlisteners priv t
  Inv-ServerStep {s} inv (polled e some_ready) = record {
    line = λ j. subst (λ (p : Server). LineOk (held p j) (s.lines j)) e (inv.line j);
    server = poll-Due s.lines 0 nlisteners;
    known = poll-Known s.lines nlisteners 0 nlisteners (omega arith);
    served = inv.served;
    split = inv.split;
  }
  Inv-ServerStep {s} inv (scanned e) = record {
    line = free s inv e;
    server = tt;
    known = tt;
    served = inv.served;
    split = inv.split;
  }
  Inv-ServerStep {s} inv (header i len rest e h) = Inv-header s i len rest inv e h
  Inv-ServerStep {s} inv (fail i rest e up h) = absurd (no_fail s inv i rest e up h)
  Inv-ServerStep {s} inv (part i len k msg rest e pos some_bytes fits) =
      Inv-part s i len k msg rest inv e some_bytes fits
  Inv-ServerStep {s} inv (run i len msg rest e full) = Inv-run s i len msg rest inv e full

  pub Reach-Inv : {s : System S} → Reach cb nlisteners priv s → Inv cb nlisteners priv s
  unfolding serve
  Reach-Inv start = record {
    line = λ i. record {
      whole = [];
      small = tt;
      begun_small = tt;
      begun_some = tt;
      fits = tt;
      bytes = refl;
      sent = refl;
      answers = refl;
      returned = refl;
    };
    server = tt;
    known = tt;
    served = refl;
    split = λ i. refl;
  }
  Reach-Inv (later {s} r (client i below st)) = Inv-client s i (Reach-Inv r) st
  Reach-Inv (later {s} r (server st)) = Inv-ServerStep (Reach-Inv r) st
