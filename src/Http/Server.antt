-- ===== src/Http/Server.antt =====
-- src/modules/http.c: the thread of the plugin, which makes libmicrohttpd listen. inet_pton and
-- MHD_start_daemon are parameters.
use vagent.Prelude.{
  ℕ, ◌%◌, ◌^◌, ◌-◌, ◌&&◌, leb, [], ◌∷◌, ◌<◌, ◌≡◌, ◌≢◌, refl, Bool, true, false, none, some, Str,
  ltb, if◌then◌else◌, arith,
}
use vagent.Exec.{M, World, Ends, ◌>>◌, pure, assert, log, aborted}
use vagent.Ipc.{atoi, atoi_digits, is_space}

pub data Family : Type 0 where
  af_inet af_inet6 : Family

-- What inet_pton returns: 1 with the address, 0, or -1 for a family that it does not know.
pub data Pton : Type 0 where
  address : Str → Pton
  invalid no_family : Pton

pub record Network : Type 0 where
  pub inet_pton : Family → Str → Pton
  -- whether a daemon is made for this family, address and port
  pub start_daemon : Family → Str → ℕ → Bool

pub data HttpRun : Type 0 where
  -- the daemon answers on the port; the thread sleeps
  serving : Family → Str → ℕ → HttpRun
  exited : ℕ → HttpRun

-- htons of an int: its lower 16 bits.
unfoldable pub sin_port : ℕ → ℕ
sin_port port = port % 2 ^ 16

-- atoi casts what strtol reads, LONG_MAX at most, to an int: its lower 32 bits.
unfoldable pub as_int : ℕ → ℕ
as_int n = if ltb n (2 ^ 63) then n % 2 ^ 32 else 2 ^ 32 - 1

-- The same for a negative number, LONG_MIN at least.
unfoldable pub as_negative_int : ℕ → ℕ
as_negative_int n = if leb n (2 ^ 63) then (2 ^ 32 - n % 2 ^ 32) % 2 ^ 32 else 0

-- The text behind the blanks and the sign.
unfoldable pub after_sign : Str → Str
after_sign [] = []
after_sign (c ∷ s) = let rest = after_sign s in if is_space c then rest else s

-- The bits of `port = atoi(core->config->local_port)`.
unfoldable pub port_of : Str → ℕ
port_of s = elim (atoi s) [
  | some n ↦ as_int n
  | none ↦ as_negative_int (atoi_digits (after_sign s) 0)
]

-- `port > 0` of the int with these bits
unfoldable pub is_above_zero : ℕ → Bool
is_above_zero bits = ltb 0 bits && ltb bits (2 ^ 31)

module _ (net : Network) {S : Type 0} where
  unfoldable pub make_daemon : Family → Str → ℕ → M S HttpRun
  make_daemon family addr port = do
    if net.start_daemon family addr port
        then pure (serving family addr port)
        else (do log 1; pure (exited 1))

  unfoldable pub bad_address : M S HttpRun
  bad_address = do log 1; pure (exited 1)

  unfoldable pub with_inet6 : ℕ → Pton → M S HttpRun
  with_inet6 port (address a) = do log 2; log 1; make_daemon af_inet6 a port
  with_inet6 port invalid = bad_address
  with_inet6 port no_family = λ _. aborted

  unfoldable pub with_inet : Str → ℕ → Pton → M S HttpRun
  with_inet addr port (address a) = do log 2; make_daemon af_inet a port
  with_inet addr port invalid = with_inet6 port (net.inet_pton af_inet6 addr)
  with_inet addr port no_family = λ _. aborted

  unfoldable pub on_port : Str → ℕ → M S HttpRun
  on_port addr port = do
    assert (is_above_zero port)
    with_inet addr (sin_port port) (net.inet_pton af_inet addr)

  -- With local_port and bind_address of the configuration.
  unfoldable pub http_run : Str → Str → M S HttpRun
  http_run local_port addr = on_port addr (port_of local_port)

as_int-id : (port : ℕ) → port < 2 ^ 31 → as_int port ≡ port
unfolding as_int
as_int-id port h = ground arith

port_of-small :
    (local_port : Str) (port : ℕ)
    → atoi local_port ≡ some port
    → port < 2 ^ 31
    → port_of local_port ≡ port
unfolding port_of
port_of-small local_port port e small = rw (e, port_of) (as_int-id port small)

is_positive : (port : ℕ) → 0 < port → port < 2 ^ 31 → is_above_zero port ≡ true
unfolding is_above_zero
is_positive port h small = ground arith

module _ (net : Network) (addr : Str) (port : ℕ) where
  -- Where it serves: on the address that was given, and on the port, cut to 16 bits.
  pub record Serves (family : Family) (a : Str) (p : ℕ) : Type 0 where
    pub cut : p ≡ port % 2 ^ 16
    pub read : net.inet_pton family addr ≡ address a
    pub first : family ≡ af_inet6 → net.inet_pton af_inet addr ≡ invalid
    pub made : net.start_daemon family a p ≡ true

  abbrev pub Outcome : HttpRun → Type 0
  Outcome (serving family a p) = Serves family a p
  Outcome (exited n) = n ≡ 1

  module _ {S : Type 0} where
    -- The run ends, with this outcome.
    abbrev Comes : M S HttpRun → World S → Type 0
    Comes m w = Ends (λ r w'. Outcome r) (m w)

    make_daemon-Comes :
        (family : Family) (a : Str) (p : ℕ) (w : World S)
        → (net.start_daemon family a p ≡ true → Serves family a p)
        → Comes (make_daemon net family a p) w
    unfolding make_daemon log
    make_daemon-Comes family a p w h = by_made (net.start_daemon family a p) h
      where
        by_made :
            (b : Bool)
            → (b ≡ true → Serves family a p)
            → Comes (if b then pure (serving family a p) else (do log 1; pure (exited 1))) w
        by_made true made = made refl
        by_made false made = refl

    inet6-Comes :
        (r : Pton) (w : World S)
        → net.inet_pton af_inet addr ≡ invalid
        → net.inet_pton af_inet6 addr ≡ r
        → r ≢ no_family
        → Comes (with_inet6 net (sin_port port) r) w
    unfolding with_inet6 bad_address log sin_port
    inet6-Comes (address a) w four e known =
        make_daemon-Comes af_inet6 a _ _
          (λ made. record { cut = refl; read = e; first = λ p. four; made = made })
    inet6-Comes invalid w four e known = refl
    inet6-Comes no_family w four e known = absurd (known refl)

    inet-Comes :
        (r : Pton) (w : World S)
        → net.inet_pton af_inet addr ≡ r
        → r ≢ no_family
        → net.inet_pton af_inet6 addr ≢ no_family
        → Comes (with_inet net addr (sin_port port) r) w
    unfolding with_inet log sin_port
    inet-Comes (address a) w e known known6 =
        make_daemon-Comes af_inet a _ _
          (λ made. record { cut = refl; read = e; first = λ p. other p; made = made })
      where
        other : af_inet ≡ af_inet6 → net.inet_pton af_inet addr ≡ invalid
        other p = cc
    inet-Comes invalid w e known known6 = inet6-Comes _ w e refl known6
    inet-Comes no_family w e known known6 = absurd (known refl)

-- With a port that is read as a number from 1 to 2 ^ 31 - 1, and an inet_pton that knows both families, http_run
-- comes to an end: it serves on the address that is given, as IPv6 only where it is no IPv4 address,
-- and on the port cut to 16 bits, which is another port where the number is 65536 or more; or it
-- exits with 1.
pub http_run-Outcome :
    (net : Network) {S : Type 0} (local_port addr : Str) (port : ℕ) (w : World S)
    → atoi local_port ≡ some port
    → 0 < port
    → port < 2 ^ 31
    → ((family : Family) → net.inet_pton family addr ≢ no_family)
    → Ends (λ r w'. Outcome net addr port r) (http_run net local_port addr w)
unfolding http_run on_port
http_run-Outcome net local_port addr port w e positive small known =
    rw (port_of-small local_port port e small) (
      rw (is_positive port positive small) (
        inet-Comes net addr port (net.inet_pton af_inet addr) w refl (known af_inet)
          (known af_inet6)))
