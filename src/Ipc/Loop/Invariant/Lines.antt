-- ===== src/Ipc/Loop/Invariant/Lines.antt =====
-- Each step on one line keeps its invariant (src/ipc.c).
use vagent.Ipc.Framing.{drop-header}
use mathlib.Core.List.{append_assoc, append-nil, map-append}
use mathlib.Core.Path.{subst}
use vagent.Prelude.{
  ℕ, zero, suc, ◌+◌, ◌<◌, ◌≤◌, ◌≡◌, ◌≢◌, refl, sym, ap, ◌∙◌, List, [], ◌∷◌, ◌++◌, Option, none,
  some, Str, length, take, drop, All, All-append, arith, map, length-append, take-append-drop, ◌⊎◌,
  inl, inr,
}
use vagent.Exec.{IpcRet}
use vagent.Ipc.{length_header}
use vagent.Ipc.Loop.{
  idle, midway, in_read, Line, ClientStep, send, send_rest, take_answer, stop_waiting, write_header,
  write_data, take_result, time_out, read_bytes, write_result, read_header,
}
use vagent.Ipc.Loop.Frames.{
  begun, frames, Small, frames-snoc, frames-midway, frames-idle, frames-front, frames-message,
  read_header-frame,
}
use vagent.Ipc.Loop.Invariant.{LineOk, taken, answers_got, open_calls}

pub answers_got-append :
    (got : List (Option IpcRet)) (o : Option IpcRet)
    → answers_got (got ++ o ∷ []) ≡ answers_got got ++ answers_got (o ∷ [])
answers_got-append [] o = refl
answers_got-append (none ∷ got) o = answers_got-append got o
answers_got-append (some ret ∷ got) o = ap (λ rs. ret ∷ rs) (answers_got-append got o)

-- The last command is behind the others.
sent-snoc :
    (sent ran whole : List Str) (c : Str)
    → sent ≡ ran ++ (whole ++ [])
    → sent ++ c ∷ [] ≡ ran ++ (whole ++ c ∷ [])
sent-snoc sent ran whole c e = rw (e, append-nil, append_assoc) refl

-- Bytes written behind those that are on the wire.
wrote : (t up : Str) {s u : Str} (v : Str) → t ++ up ≡ s → u ≡ s ++ v → t ++ (up ++ v) ≡ u
wrote t up v e f = sym (append_assoc t up v) ∙ ap (λ x. x ++ v) e ∙ sym f

module _ (h : Option (ℕ × Str)) (l : Line) (ok : LineOk h l) where
  open ok use {whole, small, begun_small, begun_some, fits, bytes, sent, answers, returned}

  -- The bytes of a line with nothing begun.
  bytes-idle : l.phase ≡ idle → taken h ++ l.up ≡ frames whole in_read
  bytes-idle e = bytes ∙ ap (frames whole) e ∙ frames-idle whole

  LineOk-send : (c : Str) → l.phase ≡ idle → length c < 1000000000 → LineOk h (write_header c l)
  unfolding write_header
  LineOk-send [] e s = record {
    whole = whole ++ [] ∷ [];
    small = All-append Small whole ([] ∷ []) small (s, tt);
    begun_small = tt;
    begun_some = tt;
    fits = fits;
    bytes =
        wrote (taken h) l.up _ (bytes-idle e)
          (frames-snoc whole [] ∙ append-nil _ ∙ frames-midway whole []);
    sent =
        sent-snoc _ _ _ [] (sent ∙ ap (λ p. map (λ r. r.0) l.ran ++ (whole ++ begun p)) e)
        ∙ ap (λ cs. map (λ r. r.0) l.ran ++ cs) (sym (append-nil _));
    answers = answers;
    returned = omega (arith, length-append l.sent ([] ∷ []), returned, ap open_calls e);
  }
  LineOk-send (b ∷ c) e s = record {
    whole = whole;
    small = small;
    begun_small = (s, tt);
    begun_some = ((λ p. cc p), tt);
    fits = fits;
    bytes = wrote (taken h) l.up _ (bytes-idle e) (frames-midway whole (b ∷ c));
    sent = sent-snoc _ _ _ (b ∷ c) (sent ∙ ap (λ p. map (λ r. r.0) l.ran ++ (whole ++ begun p)) e);
    answers = answers;
    returned = omega (arith, length-append l.sent ((b ∷ c) ∷ []), returned, ap open_calls e);
  }

  LineOk-send_rest : (c : Str) → l.phase ≡ midway c → LineOk h (write_data c l)
  unfolding write_data
  LineOk-send_rest c e = record {
    whole = whole ++ c ∷ [];
    small = All-append Small whole (c ∷ []) small (subst (λ p. All Small (begun p)) e begun_small);
    begun_small = tt;
    begun_some = tt;
    fits = fits;
    bytes = wrote (taken h) l.up c (bytes ∙ ap (frames whole) e) (frames-snoc whole c);
    sent =
        sent
        ∙ ap (λ p. map (λ r. r.0) l.ran ++ (whole ++ begun p)) e
        ∙ ap (λ cs. map (λ r. r.0) l.ran ++ cs) (sym (append-nil _));
    answers = answers;
    returned = returned ∙ ap (λ p. length l.got + open_calls p) e;
  }

  -- The call of ipc_send returns, with an answer or without.
  LineOk-return :
      (o : Option IpcRet) (down : List IpcRet)
      → l.phase ≡ in_read
      → l.down ≡ answers_got (o ∷ []) ++ down
      → LineOk h (record l { down = down; phase = idle; got = l.got ++ o ∷ [] })
  LineOk-return o down e d = record {
    whole = whole;
    small = small;
    begun_small = tt;
    begun_some = tt;
    fits = fits;
    bytes = bytes ∙ ap (frames whole) e ∙ sym (frames-idle whole);
    sent = sent ∙ ap (λ p. map (λ r. r.0) l.ran ++ (whole ++ begun p)) e;
    answers =
        answers
        ∙ ap (λ ds. answers_got l.got ++ ds) d
        ∙ sym (append_assoc (answers_got l.got) (answers_got (o ∷ [])) down)
        ∙ ap (λ rs. rs ++ down) (sym (answers_got-append l.got o));
    returned = omega (arith, length-append l.got (o ∷ []), returned, ap open_calls e);
  }

  pub LineOk-ClientStep : {l' : Line} → ClientStep l l' → LineOk h l'
  unfolding take_result time_out
  LineOk-ClientStep (send c e s) = LineOk-send c e s
  LineOk-ClientStep (send_rest c e) = LineOk-send_rest c e
  LineOk-ClientStep (take_answer ret down e d) = LineOk-return (some ret) down e d
  LineOk-ClientStep (stop_waiting e d) = LineOk-return none l.down e refl

pub some_inj : {A : Type 0} {a b : A} → some a ≡ some b → a ≡ b
some_inj e = cc e

no_bytes : {len : ℕ} → read_header [] ≢ some len
unfolding read_header
no_bytes {len} e = cc e

length-take : (k : ℕ) (s : Str) → k ≤ length s → length (take k s) ≡ k
length-take zero s h = refl
length-take (suc k) [] h = absurd (omega arith)
length-take (suc k) (c ∷ s) h = omega (arith, length-take k s (omega arith))

-- A line with bytes that the server is not reading from starts with a header that passes the asserts.
pub front :
    (l : Line)
    → LineOk none l
    → (l.up ≡ [])
      ⊎ ((len : ℕ) × (t : Str) × (len < 1000000000)
          × (l.up ≡ length_header len ++ t)
          × (read_header l.up ≡ some len))
front l ok = elim (frames-front ok.whole l.phase ok.small ok.begun_small) [
  | inl e ↦ inl (ok.bytes ∙ e)
  | inr (n, t, s, e) ↦
      let all = ok.bytes ∙ e in inr (n, t, s, all, ap read_header all ∙ read_header-frame n t s)
]

pub LineOk-header :
    (l : Line) (len : ℕ)
    → LineOk none l
    → read_header l.up ≡ some len
    → LineOk (some (len, [])) (read_bytes 10 l)
unfolding read_bytes
LineOk-header l len ok e = record {
  whole = ok.whole;
  small = ok.small;
  begun_small = ok.begun_small;
  begun_some = ok.begun_some;
  fits = elim (front l ok) [
    | inl none_up ↦ absurd (no_bytes (sym (ap read_header none_up) ∙ e))
    | inr (n, t, s, all, r) ↦ (subst (λ m. m < 1000000000) (some_inj (sym r ∙ e)) s, omega arith)
  ];
  bytes = elim (front l ok) [
    | inl none_up ↦ absurd (no_bytes (sym (ap read_header none_up) ∙ e))
    | inr (n, t, s, all, r) ↦
        append_assoc (length_header len) [] (drop 10 l.up)
        ∙ ap (λ m. length_header m ++ drop 10 l.up) (some_inj (sym e ∙ r))
        ∙ ap (λ u. length_header n ++ u) (ap (drop 10) all ∙ drop-header n t)
        ∙ sym all
        ∙ ok.bytes
  ];
  sent = ok.sent;
  answers = ok.answers;
  returned = ok.returned;
}

pub LineOk-part :
    (l : Line) (len k : ℕ) (msg : Str)
    → LineOk (some (len, msg)) l
    → k ≤ length l.up
    → length msg + k ≤ len
    → LineOk (some (len, msg ++ take k l.up)) (read_bytes k l)
unfolding read_bytes
LineOk-part l len k msg ok some_bytes fits = record {
  whole = ok.whole;
  small = ok.small;
  begun_small = ok.begun_small;
  begun_some = ok.begun_some;
  fits = (
    ok.fits.0,
    omega (arith, length-append msg (take k l.up), length-take k l.up some_bytes, fits),
  );
  bytes =
      ap (λ (t : Str). t ++ drop k l.up) (sym (append_assoc (length_header len) msg (take k l.up)))
      ∙ append_assoc (length_header len ++ msg) (take k l.up) (drop k l.up)
      ∙ ap (λ (t : Str). (length_header len ++ msg) ++ t) (take-append-drop k l.up)
      ∙ ok.bytes;
  sent = ok.sent;
  answers = ok.answers;
  returned = ok.returned;
}

pub LineOk-run :
    (l : Line) (len : ℕ) (msg : Str) (ret : IpcRet)
    → LineOk (some (len, msg)) l
    → length msg ≡ len
    → LineOk none (write_result msg ret l)
unfolding write_result
LineOk-run l len msg ret ok full =
    let (rest, first, up) =
      frames-message ok.whole l.phase msg l.up ok.small ok.begun_small ok.begun_some
        (omega (arith, full, ok.fits.0))
        (ap (λ n. length_header n ++ (msg ++ l.up)) full
          ∙ sym (append_assoc (length_header len) msg l.up)
          ∙ ok.bytes) in
    record {
      whole = rest;
      small = (subst (All Small) first ok.small).1;
      begun_small = ok.begun_small;
      begun_some = ok.begun_some;
      fits = tt;
      bytes = up;
      sent =
          ok.sent
          ∙ ap (λ cs. map (λ r. r.0) l.ran ++ (cs ++ begun l.phase)) first
          ∙ sym (append_assoc (map (λ r. r.0) l.ran) (msg ∷ []) (rest ++ begun l.phase))
          ∙ ap (λ cs. cs ++ (rest ++ begun l.phase))
              (sym (map-append (λ r. r.0) l.ran ((msg, ret) ∷ [])));
      answers =
          map-append (λ r. r.1) l.ran ((msg, ret) ∷ [])
          ∙ ap (λ rs. rs ++ ret ∷ []) ok.answers
          ∙ append_assoc (answers_got l.got) l.down (ret ∷ []);
      returned = ok.returned;
    }
