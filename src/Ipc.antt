-- ===== src/Ipc.antt =====
-- src/ipc.c: the messages between the plugins. A command travels as nine decimal digits of its
-- length, a space, and its bytes; the server reads it in as many pieces as the kernel gives.
pub mod Framing
pub mod Handles
pub mod Loop
use vagent.Prelude.{
  ℕ, zero, suc, ◌+◌, ◌-◌, ◌*◌, ◌/◌, ◌%◌, List, [], ◌∷◌, ◌++◌, Bool, true, false, not, ◌&&◌, ◌||◌,
  Option, none, some, Str, ltb, leb, ◌==◌, if◌then◌else◌, length, take, drop, cut_at,
}

-- The last `k` decimal digits of `n`: `%0kd` for n < 10^k.
unfoldable pub pad_digits : ℕ → ℕ → Str
pad_digits zero n = []
pad_digits (suc k) n = pad_digits k (n / 10) ++ (b'0' + n % 10) ∷ []

-- snprintf(buffer, 11, "%09d ", len), behind assert(len < 1000000000)
unfoldable pub length_header : ℕ → Str
unfolding pad_digits
length_header len = pad_digits 9 len ++ b' ' ∷ []

-- The client's side: which thread owns a handle, and what is on its way to the server.
pub record Client : Type 0 where
  pub tid_to_fd : ℕ → ℕ
  pub wire : Str

-- An assert that fails aborts the process: `none`.
unfoldable pub ipc_verify_sock_thread : ℕ → ℕ → Client → Option Client
ipc_verify_sock_thread sock self c =
    if ltb sock 1024
    then (let owner : ℕ = if c.tid_to_fd sock == 0 then self else c.tid_to_fd sock in
        if owner == self
        then some (record c { tid_to_fd = λ fd. if fd == sock then owner else c.tid_to_fd fd })
        else none)
    else some c

-- What the kernel does with one message: how many bytes write takes, and what close returns.
pub record Kernel : Type 0 where
  pub written : ℕ
  pub closed : ℕ

-- write and, where it falls short, `assert(close(sock))`.
unfoldable pub ipc_write : ℕ → ℕ → Kernel → Str → Client → Option (Bool × Client)
unfolding ipc_verify_sock_thread
ipc_write sock self k s c = elim (ipc_verify_sock_thread sock self c) [
  | none ↦ none
  | some c' ↦
      let c'' : Client = record c' { wire = c'.wire ++ take k.written s } in
      if length s == k.written
      then some (true, c'')
      else if k.closed == 0
      then none
      else some (false, c'')
]

-- The two writes of ipc_send; the answer is read by libvarnishapi.
unfoldable pub ipc_send : ℕ → ℕ → ℕ → Kernel → Kernel → Str → Client → Option Client
ipc_send threads_started sock self k₁ k₂ content c =
    if ltb (length content) 1000000000 && ltb 0 threads_started
    then elim (ipc_write sock self k₁ (length_header (length content)) c) [
      | none ↦ none
      | some (_, c') ↦ elim (ipc_write sock self k₂ content c') [
        | none ↦ none
        | some (_, c'') ↦ some c''
      ]
    ]
    else none

unfoldable pub is_digit : ℕ → Bool
is_digit c = leb b'0' c && leb c b'9'

unfoldable pub atoi_digits : Str → ℕ → ℕ
unfolding is_digit
atoi_digits [] acc = acc
atoi_digits (c ∷ s) acc = if is_digit c then atoi_digits s (acc * 10 + (c - b'0')) else acc

-- isspace
unfoldable pub is_space : ℕ → Bool
is_space c = (c == 32) || (leb 9 c && leb c 13)

-- atoi, where a negative number is `none`.
unfoldable pub atoi : Str → Option ℕ
unfolding atoi_digits is_space
atoi [] = some 0
atoi (c ∷ s) =
    let rest = atoi s in
    if is_space c
    then rest
    else if c == b'+'
    then some (atoi_digits s 0)
    else if c == b'-'
    then (if atoi_digits s 0 == 0 then some 0 else none)
    else some (atoi_digits (c ∷ s) 0)

-- What ipc_cmd comes to: the message for the callback, a failed assert, or still a round to go.
pub data Received : Type 0 where
  message : Str → Received
  failed : Received
  waiting : Received

-- `for (i = 0, oldi = 0; i < length; ) { i += read(...); assert(i != oldi); }`. Each element is
-- what one read puts behind the bytes that are there; `oldi` stays 0.
unfoldable pub read_data : ℕ → Str → List Str → Received
read_data len got reads = elim (ltb (length got) len) [
  | false ↦ if length got == len then message (cut_at 0 got) else failed
  | true ↦ waiting
]

unfoldable pub read_loop : ℕ → Str → List Str → Received
unfolding read_data
read_loop len got [] = read_data len got []
read_loop len got (piece ∷ reads) =
    let rest = read_loop len (got ++ piece) reads in
    if ltb (length got) len
    then (if length (got ++ piece) == 0 then failed else rest)
    else read_data len got []

-- The tenth byte of the header is a space.
unfoldable pub ends_in_space : Str → Bool
ends_in_space h = elim (drop 9 h) [ [] ↦ false | c ∷ s ↦ c == b' ' ]

-- ipc_cmd up to the call of ipc->cb: the read of the header, and those of the message.
unfoldable pub ipc_cmd : Str → List Str → Received
ipc_cmd header reads =
    if (length header == 10) && ends_in_space header
    then elim (atoi header) [ none ↦ failed | some len ↦ read_loop len [] reads ]
    else failed
