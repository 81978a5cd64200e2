-- ===== src/Ipc/Loop/Frames.antt =====
-- The bytes on one line of src/ipc.c: the commands that are to be read, each behind its header.
use mathlib.Core.List.{append_assoc, append-nil}
use vagent.Prelude.{
  inr, inl, ◌⊎◌, ℕ, ◌<◌, ◌≡◌, ◌≢◌, refl, sym, ap, ◌∙◌, List, [], ◌∷◌, ◌++◌, some, Str, length, All,
  arith, length-append,
}
use vagent.Ipc.{length_header, atoi}
use vagent.Ipc.Framing.{length-length_header, length_header-space, atoi-length_header, take-header}
use vagent.Ipc.Loop.{Phase, idle, midway, in_read, read_header}

-- The header of a command whose bytes are not yet written.
abbrev pub half : Phase → Str
half idle = []
half (midway c) = length_header (length c)
half in_read = []

-- That command.
abbrev pub begun : Phase → List Str
begun idle = []
begun (midway c) = c ∷ []
begun in_read = []

-- What the commands that are whole put on the wire, and behind them the header of the next.
abbrev pub frames : List Str → Phase → Str
frames [] p = half p
frames (c ∷ cs) p = length_header (length c) ++ (c ++ frames cs p)

abbrev pub Small : Str → Type 0
Small c = length c < 1000000000

pub read_header-frame :
    (n : ℕ) (s : Str) → n < 1000000000 → read_header (length_header n ++ s) ≡ some n
unfolding read_header
read_header-frame n s h =
    rw (take-header n s)
      (ground (arith, length-length_header n, length_header-space n, atoi-length_header n h))

pub append_inj : (a b : Str) {s t : Str} → length a ≡ length b → a ++ s ≡ b ++ t → (a ≡ b) × (s ≡ t)
append_inj [] [] h e = (refl, e)
append_inj [] (y ∷ b) h e = absurd (omega (arith, h))
append_inj (x ∷ a) [] h e = absurd (omega (arith, h))
append_inj (x ∷ a) (y ∷ b) h e =
    let (p, q) = append_inj a b (omega (arith, h)) (tail_eq e) in
    (ap (λ (z : Str). x ∷ z) p ∙ ap (λ (z : ℕ). z ∷ b) (head_eq e), q)
  where
    tail_eq : {x y : ℕ} {s t : Str} → x ∷ s ≡ y ∷ t → s ≡ t
    tail_eq e = cc e

    head_eq : {x y : ℕ} {s t : Str} → x ∷ s ≡ y ∷ t → x ≡ y
    head_eq e = cc e

pub header-inj :
    (m n : ℕ) → m < 1000000000 → n < 1000000000 → length_header m ≡ length_header n → m ≡ n
header-inj m n hm hn e =
    let p : some m ≡ some n = sym (atoi-length_header m hm) ∙ ap atoi e ∙ atoi-length_header n hn in
    cc p

behind : (a b : Str) {s : Str} (t u : Str) → s ≡ t ++ u → a ++ (b ++ s) ≡ (a ++ (b ++ t)) ++ u
behind a b t u e =
    ap (λ (x : Str). a ++ (b ++ x)) e
    ∙ sym (append_assoc a (b ++ t) u ∙ ap (λ (x : Str). a ++ x) (append_assoc b t u))

-- A command more, whole.
pub frames-snoc :
    (cs : List Str) (c : Str) → frames (cs ++ c ∷ []) in_read ≡ frames cs (midway c) ++ c
frames-snoc [] c = rw (append-nil c) refl
frames-snoc (d ∷ cs) c = behind (length_header (length d)) d _ _ (frames-snoc cs c)

-- The header of a command more.
pub frames-midway :
    (cs : List Str) (c : Str) → frames cs (midway c) ≡ frames cs in_read ++ length_header (length c)
frames-midway [] c = refl
frames-midway (d ∷ cs) c = behind (length_header (length d)) d _ _ (frames-midway cs c)

pub frames-idle : (cs : List Str) → frames cs idle ≡ frames cs in_read
frames-idle [] = refl
frames-idle (c ∷ cs) = ap (λ s. length_header (length c) ++ (c ++ s)) (frames-idle cs)

-- A line that is not empty starts with a whole header.
pub frames-front :
    (cs : List Str) (p : Phase)
    → All Small cs
    → All Small (begun p)
    → (frames cs p ≡ [])
      ⊎ ((n : ℕ) × (t : Str) × (n < 1000000000) × (frames cs p ≡ length_header n ++ t))
frames-front [] idle h hp = inl refl
frames-front [] (midway c) h hp = inr (length c, [], hp.0, sym (append-nil _))
frames-front [] in_read h hp = inl refl
frames-front (c ∷ cs) p h hp = inr (length c, c ++ frames cs p, h.0, refl)

pub no_header : (n : ℕ) (s : Str) → length_header n ++ s ≢ []
unfolding length_header
no_header n s e = cc e

-- The header and the bytes of a whole message in front are those of the first command.
pub frames-message :
    (cs : List Str) (p : Phase) (msg up : Str)
    → All Small cs
    → All Small (begun p)
    → All (λ c. c ≢ []) (begun p)
    → length msg < 1000000000
    → length_header (length msg) ++ (msg ++ up) ≡ frames cs p
    → (rest : List Str) × (cs ≡ msg ∷ rest) × (up ≡ frames rest p)
frames-message [] idle msg up h hp ne small e = absurd (no_header _ _ e)
frames-message [] in_read msg up h hp ne small e = absurd (no_header _ _ e)
frames-message [] (midway c) msg up h hp ne small e =
    let (p, q) =
      append_inj _ _ {s = msg ++ up} {t = []}
        (length-length_header _ ∙ sym (length-length_header _))
        (e ∙ sym (append-nil (length_header (length c)))) in
    let same = header-inj (length msg) (length c) small hp.0 p in
    absurd (ne.0 (empty c (omega (arith, same, length-append msg up, ap length q))))
  where
    empty : (c : Str) → length c ≡ 0 → c ≡ []
    empty [] h = refl
    empty (b ∷ s) h = absurd (omega (arith, h))
frames-message (c ∷ cs) p msg up h hp ne small e =
    let (a, q) = append_inj _ _ (length-length_header _ ∙ sym (length-length_header _)) e in
    let (same, rest) = append_inj msg c (header-inj _ _ small h.0 a) q in
    (cs, ap (λ m. m ∷ cs) (sym same), rest)
