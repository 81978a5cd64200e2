-- ===== src/Helpers/Endpoint.antt =====
-- url_arg of src/helpers.c on each form of URL.
use vagent.Prelude.{
  drop-append_one, suc, length-pos, ℕ, ◌+◌, ◌≡◌, ◌≢◌, [], ◌∷◌, ◌++◌, true, false, none, some, Str,
  starts_with-append, length, length-append, drop, drop-append, arith,
}
use vagent.Helpers.{last_is, at, past_end, url_arg}

-- The four forms of a URL that starts with the endpoint, which is not empty. An endpoint with a
-- final slash: the argument is all that follows. Any other: a slash must follow, and the argument
-- stands behind it; where another character follows, the assert fails; and where the URL is just
-- the endpoint, the pointer stands behind the NUL that ends the URL, outside of the string.
pub url_arg_lem :
    (endpoint rest : Str)
    → endpoint ≢ []
    → ((last_is b'/' endpoint ≡ true) → url_arg (endpoint ++ rest) endpoint ≡ some (at rest))
      × ((s : Str)
          → last_is b'/' endpoint ≡ false
          → rest ≡ b'/' ∷ s
          → url_arg (endpoint ++ rest) endpoint ≡ some (at s))
      × ((c : ℕ) (s : Str)
          → last_is b'/' endpoint ≡ false
          → c ≢ b'/'
          → rest ≡ c ∷ s
          → url_arg (endpoint ++ rest) endpoint ≡ none)
      × (last_is b'/' endpoint ≡ false
          → rest ≡ []
          → url_arg (endpoint ++ rest) endpoint ≡ some past_end)
unfolding url_arg
url_arg_lem endpoint rest full =
    let pos = length-pos endpoint full in
    let start = starts_with-append endpoint rest in
    let tail = drop-append endpoint rest in
    let size = length-append endpoint rest in
    (
      λ slash. ground arith,
      λ s open' e.
          let size' : length (endpoint ++ rest) ≡ length endpoint + suc (length s) = ground arith in
          let behind : drop (length endpoint + 1) (endpoint ++ rest) ≡ s =
            rw e (drop-append_one endpoint b'/' s) in
          ground arith,
      λ c s open' other e. ground arith,
      λ open' e.
          let size' : length (endpoint ++ rest) ≡ length endpoint = ground arith in ground arith,
    )
