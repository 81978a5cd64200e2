-- ===== src/Config/Account.antt =====
-- The account that main.c reads from the password file.
use vagent.Prelude.{
  strchr-word, cut_at-word, length-pos, length-append, suc, take-all, take-append_one, ◌≤◌, ◌-◌,
  ◌<◌, ℕ, ◌+◌, ◌≡◌, ◌≢◌, [], ◌∷◌, ◌++◌, some, Str, length, take, drop, cut_at, strchr, All, arith,
}
use vagent.Helpers.{c_str}
use mathlib.Core.List.{append_assoc}
use vagent.Config.{
  AgentConfig, set_account, read_account, fault, bytes_read, line, line, read_buffer,
  terminate_line, get_first_line,
}

abbrev pub IsText : Str → Type 0
IsText = All (λ b. (b ≢ 0) × (b ≢ b'\n'))

cut_at-c_str : (s rest : Str) → IsText s → cut_at b'\n' (c_str (s ++ b'\n' ∷ rest)) ≡ s
unfolding cut_at
cut_at-c_str [] rest h = ground arith
cut_at-c_str (b ∷ s) rest h = ground (arith, cut_at-c_str s rest h.1)

strchr-c_str :
    (s rest : Str) → IsText s → strchr b'\n' (c_str (s ++ b'\n' ∷ rest)) ≡ some (b'\n' ∷ c_str rest)
unfolding cut_at strchr
strchr-c_str [] rest h = ground arith
strchr-c_str (b ∷ s) rest h = ground (arith, strchr-c_str s rest h.1)

module _ (junk s rest : Str) (s-IsText : IsText s) (fits : length s < 1024) where
  buffer-line :
      (more : Str)
      → take 1024 ((s ++ b'\n' ∷ rest) ++ more)
        ≡ s ++ b'\n' ∷ take (1024 - suc (length s)) (rest ++ more)
  buffer-line more =
      rw (append_assoc s (b'\n' ∷ rest) more) (take-append_one 1024 s b'\n' (rest ++ more) fits)

  bytes_read-range :
      (length (s ++ b'\n' ∷ rest) ≤ 1022
        → bytes_read (s ++ b'\n' ∷ rest) ≡ length (s ++ b'\n' ∷ rest))
      × (1023 ≤ length (s ++ b'\n' ∷ rest) → 1023 ≤ bytes_read (s ++ b'\n' ∷ rest))
  bytes_read-range = ((λ h. ground (arith)), λ h. ground arith)

  terminate_line-text :
      (len : ℕ) (more : Str)
      → length s ≤ len
      → (len ≤ 1022 → terminate_line len (s ++ b'\n' ∷ more) ≡ line s)
        × (1023 ≤ len → terminate_line len (s ++ b'\n' ∷ more) ≡ fault)
  unfolding terminate_line
  terminate_line-text len more h = (
    λ short. ground (
      arith,
      strchr-c_str s more s-IsText,
      cut_at-c_str s more s-IsText,
      take-all (len + 1) s (omega arith),
    ),
    λ long. ground (arith, strchr-c_str s more s-IsText),
  )

  length-file : suc (length s) ≤ length (s ++ b'\n' ∷ rest)
  length-file = omega (arith, length-append s (b'\n' ∷ rest))

  -- For a file whose first line has no NUL and less than 1024 bytes, and ends in a newline,
  -- get_first_line returns that line if the file has at most 1022 bytes. From 1023 bytes on it
  -- writes behind its buffer.
  pub get_first_line_lem :
      (length (s ++ b'\n' ∷ rest) ≤ 1022 → get_first_line junk (some (s ++ b'\n' ∷ rest)) ≡ line s)
      × (1023 ≤ length (s ++ b'\n' ∷ rest) → get_first_line junk (some (s ++ b'\n' ∷ rest)) ≡ fault)
  unfolding get_first_line read_buffer
  get_first_line_lem =
      let more = drop (length (s ++ b'\n' ∷ rest)) junk in
      let range = bytes_read-range in
      let ends =
        terminate_line-text (bytes_read (s ++ b'\n' ∷ rest))
          (take (1024 - suc (length s)) (rest ++ more)) in
      (
        λ short. ground (
          arith,
          length-file,
          buffer-line more,
          range.0 short,
          (ends (omega (arith, range.0 short, length-file))).0,
        ),
        λ long. ground (
          arith,
          length-file,
          buffer-line more,
          range.1 long,
          (ends (omega (arith, range.1 long))).1,
        ),
      )

-- From a password file of at most 1022 bytes whose first line is "user:password", with no colon in
-- the user's name and a password that is not empty, the configuration takes the user, the password
-- and the base64 of the line as the token, and nothing else changes.
pub read_account_lem :
    (base64_encode : Str → Str) (junk user password rest : Str) (c : AgentConfig)
    → IsText (user ++ b':' ∷ password)
    → All (λ b. b ≢ b':') user
    → password ≢ []
    → length ((user ++ b':' ∷ password) ++ b'\n' ∷ rest) ≤ 1022
    → read_account base64_encode
        (get_first_line junk (some ((user ++ b':' ∷ password) ++ b'\n' ∷ rest)))
        c
      ≡ some (record c {
        user = some user;
        password = some password;
        auth_token = some (base64_encode (user ++ b':' ∷ password));
      })
unfolding read_account set_account
read_account_lem base64_encode junk user password rest c h colon nonempty short =
    let s = user ++ b':' ∷ password in
    rw
      ((get_first_line_lem junk s rest h (omega (arith, short, length-append s (b'\n' ∷ rest)))).0
        short)
      (ground (
        arith,
        strchr-word b':' user password colon,
        cut_at-word b':' user password colon,
        length-pos password nonempty,
      ))
