-- ===== src/Ipc/Framing.antt =====
-- What ipc_send writes, ipc_cmd reads (src/ipc.c).
use mathlib.Core.List.{append_assoc, append-nil}
use native.Mathlib.Nat.{pow-suc}
use vagent.Prelude.{
  inl, inr, Option-cases, ℕ, zero, suc, ◌+◌, ◌*◌, ◌/◌, ◌%◌, ◌^◌, ◌<◌, ◌≡◌, refl, ap, sym, ◌∙◌, List,
  [], ◌∷◌, ◌++◌, Bool, true, Option, some, Str, length, length-append, take, drop, cut_at, All,
  arith, replicate,
}
use vagent.Ipc.{
  pad_digits, length_header, Client, ipc_write, ipc_send, atoi_digits, atoi, message, waiting,
  read_loop, ends_in_space, ipc_cmd,
}

digit :
    (d acc : ℕ) (rest : Str)
    → d < 10
    → atoi_digits ((b'0' + d) ∷ rest) acc ≡ atoi_digits rest (acc * 10 + d)
unfolding atoi_digits
digit d acc rest h = ground arith

-- The digits are read back, whatever number stands before them and whatever follows.
atoi_digits-pad :
    (k n acc : ℕ) (rest : Str)
    → n < 10 ^ k
    → atoi_digits (pad_digits k n ++ rest) acc ≡ atoi_digits rest (acc * 10 ^ k + n)
unfolding pad_digits
atoi_digits-pad zero n acc rest h = ap (atoi_digits rest) (omega arith)
atoi_digits-pad (suc k) n acc rest h = rw append_assoc (
    atoi_digits-pad k (n / 10) acc ((b'0' + n % 10) ∷ rest) (omega (arith, pow-suc 10 k))
    ∙ digit_step)
  where
    digit_step :
        atoi_digits ((b'0' + n % 10) ∷ rest) (acc * 10 ^ k + n / 10)
        ≡ atoi_digits rest (acc * 10 ^ suc k + n)
    digit_step =
        digit (n % 10) _ rest (omega arith)
        ∙ ap (atoi_digits rest) (omega (arith, ap (λ (t : ℕ). acc * t) (pow-suc 10 k)))

length-pad_digits : (k n : ℕ) → length (pad_digits k n) ≡ k
unfolding pad_digits
length-pad_digits zero n = refl
length-pad_digits (suc k) n = omega (
  arith,
  length-append (pad_digits k (n / 10)) ((b'0' + n % 10) ∷ []),
  length-pad_digits k (n / 10),
)

-- The pieces that the kernel hands over: none of them empty, and together the message.
abbrev pub joined : List Str → Str
joined [] = []
joined (p ∷ ps) = p ++ joined ps

read_loop-joined :
    (len : ℕ) (got : Str) (reads : List Str)
    → All (λ p. 0 < length p) reads
    → length (got ++ joined reads) ≡ len
    → read_loop len got reads ≡ message (cut_at 0 (got ++ joined reads))
unfolding read_loop
read_loop-joined len got [] ne e = ground (arith, append-nil got)
read_loop-joined len got (p ∷ ps) ne e =
    let ih = read_loop-joined len (got ++ p) ps ne.1 (rw append_assoc e) in
    ground (
      arith,
      rw append_assoc at ih,
      length-append got (p ++ joined ps),
      length-append p (joined ps),
      length-append got p,
    )

pub length-length_header : (n : ℕ) → length (length_header n) ≡ 10
unfolding length_header
length-length_header n = refl

pub length_header-space : (n : ℕ) → ends_in_space (length_header n) ≡ true
unfolding length_header ends_in_space
length_header-space n = refl

atoi-digit :
    (d : ℕ) (s : Str) → d < 10 → atoi ((b'0' + d) ∷ s) ≡ some (atoi_digits ((b'0' + d) ∷ s) 0)
unfolding atoi
atoi-digit d s h = ground arith

atoi_digits-space : (acc : ℕ) → atoi_digits (b' ' ∷ []) acc ≡ acc
unfolding atoi_digits
atoi_digits-space acc = refl

pub atoi-length_header : (n : ℕ) → n < 1000000000 → atoi (length_header n) ≡ some n
unfolding length_header
atoi-length_header n h =
    atoi-digit _ _ (omega arith)
    ∙ ap some (atoi_digits-pad 9 n 0 (b' ' ∷ []) h ∙ atoi_digits-space _ ∙ omega arith)

take_all : (s : Str) → take (length s) s ≡ s
take_all [] = refl
take_all (c ∷ s) = ap (λ (t : Str). c ∷ t) (take_all s)

ipc_write-wire :
    (sock self written close : ℕ) (s : Str) (c : Client) {r : Bool × Client}
    → written ≡ length s
    → ipc_write sock self (record { written = written; closed = close }) s c ≡ some r
    → r.1.wire ≡ c.wire ++ s
unfolding ipc_write
ipc_write-wire sock self written close s c full h =
    ground (arith, take_all s, ap (λ (n : ℕ). take n s) full)

-- The header apart from what follows it.
pub take-header : (n : ℕ) (s : Str) → take 10 (length_header n ++ s) ≡ length_header n
unfolding length_header
take-header n s = refl

pub drop-header : (n : ℕ) (s : Str) → drop 10 (length_header n ++ s) ≡ s
unfolding length_header
drop-header n s = refl

received :
    (content : Str) (reads : List Str)
    → All (λ p. 0 < length p) reads
    → joined reads ≡ drop 10 (length_header (length content) ++ content)
    → length content < 1000000000
    → ipc_cmd (take 10 (length_header (length content) ++ content)) reads
      ≡ message (cut_at 0 content)
unfolding ipc_cmd
received content reads pieces e small =
    let all : joined reads ≡ content = e ∙ drop-header (length content) content in
    let loop = read_loop-joined (length content) [] reads pieces (ap length all) in
    rw take-header (
      ground (
        arith,
        length-length_header (length content),
        length_header-space (length content),
        atoi-length_header (length content) small,
        loop,
        all,
      ))

module _ (threads_started sock self close : ℕ) (content : Str) (c : Client) where
  abbrev pub send_all : Option Client
  send_all =
      ipc_send threads_started sock self (record { written = 10; closed = close })
        (record { written = length content; closed = close }) content c

  ipc_send-wire :
      {sent : Client}
      → send_all ≡ some sent
      → (length content < 1000000000)
        × (sent.wire ≡ c.wire ++ (length_header (length content) ++ content))
  unfolding ipc_send
  ipc_send-wire {sent} h =
      elim (Option-cases (
        ipc_write sock self (record { written = 10; closed = close })
          (length_header (length content)) c)) [
            | inl e ↦ ground arith
            | inr (r, e) ↦
                elim (Option-cases (
                  ipc_write sock self (record { written = length content; closed = close }) content
                    r.1)) [
                      | inl e' ↦ ground arith
                      | inr (r', e') ↦
                          let w =
                            ipc_write-wire sock self 10 close _ c
                              (sym (length-length_header (length content))) e in
                          let w' =
                            ipc_write-wire sock self (length content) close content r.1 refl e' in
                          ground (
                            arith,
                            w,
                            w',
                            append_assoc c.wire (length_header (length content)) content,
                          )
                    ]
          ]

  -- A message that ipc_send puts on an idle wire, with both writes complete, is the message that the
  -- callback of the server gets, in whatever pieces it is read: the header in one read of ten bytes,
  -- and the rest in any number of reads, none of them empty. (The callback gets a C string, so the
  -- message ends at its first NUL.)
  pub ipc_cmd-ipc_send :
      (sent : Client) (reads : List Str)
      → c.wire ≡ []
      → send_all ≡ some sent
      → All (λ p. 0 < length p) reads
      → joined reads ≡ drop 10 sent.wire
      → ipc_cmd (take 10 sent.wire) reads ≡ message (cut_at 0 content)
  ipc_cmd-ipc_send sent reads fresh ok pieces e =
      let (small, w) = ipc_send-wire ok in
      let on_wire : sent.wire ≡ length_header (length content) ++ content = w ∙ rw fresh in
      rw on_wire (received content reads pieces (rw on_wire at e) small)

-- Once a byte of the message has come, reads that find the connection at its end do not stop the
-- loop: `oldi` is never set again, so the assert that no progress was made cannot fail, and however
-- many such reads there are, another one follows.
pub read_loop-closed :
    (len : ℕ) (got : Str) (n : ℕ)
    → 0 < length got
    → length got < len
    → read_loop len got (replicate n []) ≡ waiting
unfolding read_loop
read_loop-closed len got zero some_bytes more = ground arith
read_loop-closed len got (suc n) some_bytes more =
    rw append-nil (ground (arith, read_loop-closed len got n some_bytes more))
