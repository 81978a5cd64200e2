-- ===== src/Ipc/Loop/Invariant/Changes.antt =====
-- What one change of a line, or one run of the callback, does to the parts of the invariant of
-- src/ipc.c.
use mathlib.Core.Path.{subst}
use mathlib.Core.List.{append-nil, append-eq-nil_iff}
use vagent.Prelude.{
  ℕ, zero, suc, ◌+◌, ◌<◌, ◌≤◌, ◌≡◌, ◌≢◌, refl, sym, ap, List, [], ◌∷◌, ◌++◌, true, none, some, Str,
  All, arith, ◌==◌, inl, inr, Bool-cases, cut_at,
}
use vagent.Exec.{IpcRet}
use vagent.Ipc.Loop.{
  Line, Server, polling, scanning, reading, aborted, update, poll, has_bytes, ClientStep, send,
  send_rest, take_answer, stop_waiting, write_header, write_data, take_result, time_out,
}
use vagent.Ipc.Loop.Invariant.{held, Above, Due, ServerOk, serve, on_line}

-- A property of every line, where one changes.
pub update-all :
    (P : ℕ → Line → Type 0) (lines : ℕ → Line) (i : ℕ) (l : Line)
    → P i l
    → ((j : ℕ) → j ≢ i → P j (lines j))
    → (j : ℕ) → P j (update lines i l j)
update-all P lines i l new old j = elim (Bool-cases (j == i)) [
  | inl e ↦ rw (e) (subst (λ (k : ℕ). P k l) (ground arith) new)
  | inr e ↦ rw (e) (old j (ground arith))
]

-- The server is not reading from this line.
pub held-other :
    (i len : ℕ) (msg : Str) (rest : List ℕ) (j : ℕ) → j ≢ i → held (reading i len msg rest) j ≡ none
held-other i len msg rest j h = ground arith

pub held_self :
    (i len : ℕ) (msg : Str) (rest : List ℕ) → held (reading i len msg rest) i ≡ some (len, msg)
held_self i len msg rest = ground arith

-- A change that leaves bytes on the line.
pub Due-kept :
    (lines : ℕ → Line) (i : ℕ) (l : Line) (is : List ℕ)
    → ((lines i).up ≢ [] → l.up ≢ [])
    → Due lines is
    → Due (update lines i l) is
Due-kept lines i l [] keeps due = tt
Due-kept lines i l (j ∷ is) keeps due = (
  update-all (λ k m. (lines k).up ≢ [] → m.up ≢ []) lines i l keeps (λ k h up. up) j due.0,
  due.1,
  Due-kept lines i l is keeps due.2,
)

-- A change of a line before all of them.
pub Due-before :
    (lines : ℕ → Line) (i : ℕ) (l : Line) (is : List ℕ)
    → Above i is
    → Due lines is
    → Due (update lines i l) is
Due-before lines i l [] above due = tt
Due-before lines i l (j ∷ is) above due = (
  update-all (λ k m. (k ≡ j) → m.up ≢ []) lines i l (λ e. absurd (omega (arith, above.0, e)))
      (λ k h e. subst (λ (k : ℕ). (lines k).up ≢ []) (sym e) due.0) j refl,
  due.1,
  Due-before lines i l is above.1 due.2,
)

pub poll-Above : (lines : ℕ → Line) (b i k : ℕ) → b < i → Above b (poll lines i k)
unfolding poll
poll-Above lines b i zero h = tt
poll-Above lines b i (suc k) h = elim (Bool-cases (has_bytes (lines i))) [
  | inl e ↦ rw (e) (h, poll-Above lines b (suc i) k (omega arith))
  | inr e ↦ rw (e) (poll-Above lines b (suc i) k (omega arith))
]

pub has_bytes_sound : (l : Line) → has_bytes l ≡ true → l.up ≢ []
has_bytes_sound l e none_up = ground arith

pub poll-Due : (lines : ℕ → Line) (i k : ℕ) → Due lines (poll lines i k)
unfolding poll
poll-Due lines i zero = tt
poll-Due lines i (suc k) = elim (Bool-cases (has_bytes (lines i))) [
  | inl e ↦ rw (e) (
    has_bytes_sound (lines i) e,
    poll-Above lines i (suc i) k (omega arith),
    poll-Due lines (suc i) k,
  )
  | inr e ↦ rw (e) (poll-Due lines (suc i) k)
]

pub appended : (s t : Str) → s ≢ [] → s ++ t ≢ []
appended s t h e = h (append-eq-nil_iff.0 e).0

-- A client only adds to the bytes on its line.
pub ClientStep-up : {l l' : Line} → ClientStep l l' → l.up ≢ [] → l'.up ≢ []
unfolding write_header write_data take_result time_out
ClientStep-up {l} (send c e s) h = appended l.up _ h
ClientStep-up {l} (send_rest c e) h = appended l.up c h
ClientStep-up (take_answer ret down e d) h = h
ClientStep-up (stop_waiting e d) h = h

pub ClientStep-ran : {l l' : Line} → ClientStep l l' → l.ran ≡ l'.ran
unfolding write_header write_data take_result time_out
ClientStep-ran (send c e s) = refl
ClientStep-ran (send_rest c e) = refl
ClientStep-ran (take_answer ret down e d) = refl
ClientStep-ran (stop_waiting e d) = refl

pub ServerOk-client :
    (lines : ℕ → Line) (i : ℕ) {l : Line} (p : Server)
    → ClientStep (lines i) l
    → ServerOk lines p
    → ServerOk (update lines i l) p
ServerOk-client lines i polling st ok = tt
ServerOk-client lines i {l} (scanning is) st ok = Due-kept lines i l is (ClientStep-up st) ok
ServerOk-client lines i {l} (reading k len msg rest) st ok =
    (ok.0, Due-kept lines i l rest (ClientStep-up st) ok.1)
ServerOk-client lines i aborted st ok = ok

pub on_line-append :
    (j i : ℕ) (c : Str) (ret : IpcRet) (calls : List (ℕ × Str × IpcRet))
    → on_line j (calls ++ (i, c, ret) ∷ []) ≡ on_line j calls ++ on_line j ((i, c, ret) ∷ [])
on_line-append j i c ret [] = refl
on_line-append j i c ret ((k, d, r) ∷ calls) = elim (Bool-cases (j == k)) [
  | inl e ↦ rw (e) (ap (λ rs. (d, r) ∷ rs) (on_line-append j i c ret calls))
  | inr e ↦ rw (e) (on_line-append j i c ret calls)
]

-- A run for a line is behind those that were; a run for another line changes nothing.
pub mine_too :
    (i : ℕ) (calls ran : List (Str × IpcRet)) (c : Str) (ret : IpcRet)
    → calls ≡ ran
    → calls ++ on_line i ((i, c, ret) ∷ []) ≡ ran ++ (c, ret) ∷ []
mine_too i calls ran c ret e = ground (arith, e)

pub not_theirs :
    (j i : ℕ) (calls ran : List (Str × IpcRet)) (c : Str) (ret : IpcRet)
    → j ≢ i
    → calls ≡ ran
    → calls ++ on_line j ((i, c, ret) ∷ []) ≡ ran
not_theirs j i calls ran c ret h e = ground (arith, e, append-nil calls)

-- The answer to one command more.
abbrev pub one_more :
    {S : Type 0} → (S → Str → S × IpcRet) → Str → S × List IpcRet → S × List IpcRet
one_more cb c (s, rets) = ((cb s (cut_at 0 c)).0, rets ++ (cb s (cut_at 0 c)).1 ∷ [])

pub serve-append :
    {S : Type 0} (cb : S → Str → S × IpcRet) (s : S) (cs : List Str) (c : Str)
    → serve cb s (cs ++ c ∷ []) ≡ one_more cb c (serve cb s cs)
unfolding serve
serve-append cb s [] c = refl
serve-append {S} cb s (d ∷ cs) c =
    ap (λ (r : S × List IpcRet). (r.0, (cb s (cut_at 0 d)).1 ∷ r.1))
      (serve-append cb (cb s (cut_at 0 d)).0 cs c)

pub poll-Known :
    (lines : ℕ → Line) (n i k : ℕ) → i + k ≤ n → All (λ (j : ℕ). j < n) (poll lines i k)
unfolding poll
poll-Known lines n i zero h = tt
poll-Known lines n i (suc k) h = elim (Bool-cases (has_bytes (lines i))) [
  | inl e ↦ rw (e) (omega (arith, h), poll-Known lines n (suc i) k (omega (arith, h)))
  | inr e ↦ rw (e) (poll-Known lines n (suc i) k (omega (arith, h)))
]
