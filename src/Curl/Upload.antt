-- ===== src/Curl/Upload.antt =====
-- How senddata of src/modules/curl.c feeds a body to libcurl.
use vagent.Prelude.{
  take-none, take-all, sym, ap, ℕ, zero, suc, ◌+◌, ◌≡◌, refl, List, [], ◌∷◌, ◌++◌, Option, none,
  some, Str, length, drop, take, ◌-◌, arith,
}
use mathlib.Core.List.{append-nil}
use vagent.Curl.{CurlPriv, senddata}

-- libcurl calls senddata with buffers of the given sizes until it copies nothing.
unfoldable pub feed : List ℕ → CurlPriv → Option Str
feed [] priv = some []
feed (room ∷ rooms) priv = elim (senddata room priv) [
  | none ↦ none
  | some (bytes, priv') ↦ elim (feed rooms priv') [ none ↦ none | some rest ↦ some (bytes ++ rest) ]
]

abbrev pub total : List ℕ → ℕ
total [] = 0
total (n ∷ ns) = n + total ns

abbrev start : Str → CurlPriv
start body = record { pos = some body; ndata = length body }

feed-empty :
    (rooms : List ℕ) (p : Option Str) → feed rooms (record { pos = p; ndata = 0 }) ≡ some []
unfolding feed senddata
feed-empty [] p = refl
feed-empty (r ∷ rooms) p = ground (arith, feed-empty rooms p)

take-suc : (k m c : ℕ) (s : Str) → k ≡ suc m → take k (c ∷ s) ≡ c ∷ take m s
take-suc k m c s e = rw e refl

take-add : (r n : ℕ) (s : Str) → take r s ++ take n (drop r s) ≡ take (r + n) s
take-add zero n s = ap (λ k. take k s) (omega arith)
take-add (suc r) zero [] = sym (take-none (suc r + 0))
take-add (suc r) (suc n) [] = sym (take-none (suc r + suc n))
take-add (suc r) n (c ∷ s) =
    rw (take-add r n s) (sym (take-suc (suc r + n) (r + n) c s (omega arith)))

length-drop : (r : ℕ) (s : Str) → length (drop r s) ≡ length s - r
length-drop zero s = omega arith
length-drop (suc r) [] = omega arith
length-drop (suc r) (c ∷ s) = omega (arith, length-drop r s)

-- From an issue_curl with a body, buffers that together hold the body receive all of it, in
-- order and once, and no assert fails; fewer receive its start.
pub senddata-feed :
    (rooms : List ℕ) (body : Str)
    → feed rooms (record { pos = some body; ndata = length body }) ≡ some (take (total rooms) body)
unfolding feed senddata
senddata-feed [] body = refl
senddata-feed (r ∷ rooms) [] =
    ground (arith, feed-empty rooms (some []), take-none {A = ℕ} (total (r ∷ rooms)))
senddata-feed (r ∷ rooms) (c ∷ s) = ground (
  arith,
  senddata-feed rooms (drop r (c ∷ s)),
  length-drop r (c ∷ s),
  take-add r (total rooms) (c ∷ s),
  take-all (length s) s (omega arith),
  append-nil s,
  take-all (r + total rooms) (c ∷ s),
  feed-empty rooms none,
)
