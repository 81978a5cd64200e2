-- ===== src/Vlog/Limit.antt =====
-- Which records the answer of vlog_reply in src/modules/vlog.c holds.
use mathlib.Core.List.{append_assoc, append-nil}
use vagent.Prelude.{
  take-none, ℕ, suc, ◌+◌, ◌-◌, ◌≤◌, ◌<◌, ◌≡◌, refl, ap, List, [], ◌∷◌, ◌++◌, true, false, some, Str,
  text, ltb, ◌==◌, if◌then◌else◌, take, arith,
}
use vagent.Vlog.{
  LogRecord, Transaction, VlogReqPriv, entry_text, add_entry, log_records, vlog_cb_func, Dispatch,
  dispatch_calls, dispatch_loop, no_entries, log_json,
}

module _ (quote : Str → Str) where
  -- The entries of the records that match, in the order of the log.
  unfoldable pub entries_of : Transaction → List LogRecord → List Str
  entries_of t [] = []
  entries_of t (r ∷ rs) =
      if r.matches then entry_text quote t r ∷ entries_of t rs else entries_of t rs

  unfoldable pub call_entries : List Transaction → List Str
  call_entries [] = []
  call_entries (t ∷ ts) = entries_of t t.records ++ call_entries ts

  unfoldable pub dispatch_entries : List (List Transaction) → List Str
  dispatch_entries [] = []
  dispatch_entries (ts ∷ calls) = call_entries ts ++ dispatch_entries calls

  -- Up to the first dispatch that does not return 1.
  unfoldable pub all_entries : List (Dispatch quote) → List Str
  all_entries [] = []
  all_entries ((calls, false) ∷ ds) = dispatch_entries calls
  all_entries ((calls, true) ∷ ds) = dispatch_entries calls ++ all_entries ds

  -- Entry by entry, up to the limit.
  add_up_to : ℕ → List Str → VlogReqPriv → VlogReqPriv
  add_up_to limit [] vrp = vrp
  add_up_to limit (e ∷ es) vrp = elim (ltb vrp.entries limit) [
    | false ↦ vrp
    | true ↦ add_up_to limit es (add_entry quote e vrp)
  ]

  add_up_to-full :
      (limit : ℕ) (es : List Str) (vrp : VlogReqPriv)
      → ltb vrp.entries limit ≡ false
      → add_up_to limit es vrp ≡ vrp
  unfolding add_up_to
  add_up_to-full limit [] vrp h = refl
  add_up_to-full limit (e ∷ es) vrp h = ground (arith, h)

  add_up_to-append :
      (limit : ℕ) (xs ys : List Str) (vrp : VlogReqPriv)
      → add_up_to limit (xs ++ ys) vrp ≡ add_up_to limit ys (add_up_to limit xs vrp)
  unfolding add_up_to
  add_up_to-append limit [] ys vrp = refl
  add_up_to-append limit (x ∷ xs) ys vrp =
      ground
        (arith, add_up_to-append limit xs ys (add_entry quote x vrp), add_up_to-full limit ys vrp)

  log_records-add :
      (limit : ℕ) (t : Transaction) (rs : List LogRecord) (vrp : VlogReqPriv)
      → log_records quote limit t rs vrp ≡ add_up_to limit (entries_of t rs) vrp
  unfolding log_records add_up_to entries_of
  log_records-add limit t [] vrp = refl
  log_records-add limit t (r ∷ rs) vrp = ground (
    arith,
    log_records-add limit t rs vrp,
    log_records-add limit t rs (add_entry quote (entry_text quote t r) vrp),
    add_up_to-full limit (entries_of t rs) vrp,
  )

  vlog_cb_func-add :
      (limit : ℕ) (ts : List Transaction) (vrp : VlogReqPriv)
      → vlog_cb_func quote limit ts vrp ≡ add_up_to limit (call_entries ts) vrp
  unfolding vlog_cb_func call_entries
  vlog_cb_func-add limit [] vrp = unfold add_up_to in refl
  vlog_cb_func-add limit (t ∷ ts) vrp = ground (
    arith,
    add_up_to-full limit (entries_of t t.records ++ call_entries ts) vrp,
    log_records-add limit t t.records vrp,
    vlog_cb_func-add limit ts (log_records quote limit t t.records vrp),
    add_up_to-append limit (entries_of t t.records) (call_entries ts) vrp,
  )

  dispatch_calls-add :
      (limit : ℕ) (calls : List (List Transaction)) (vrp : VlogReqPriv)
      → dispatch_calls quote limit calls vrp ≡ add_up_to limit (dispatch_entries calls) vrp
  unfolding dispatch_calls dispatch_entries
  dispatch_calls-add limit [] vrp = unfold add_up_to in refl
  dispatch_calls-add limit (ts ∷ calls) vrp = ground (
    arith,
    vlog_cb_func-add limit ts vrp,
    dispatch_calls-add limit calls (vlog_cb_func quote limit ts vrp),
    add_up_to-append limit (call_entries ts) (dispatch_entries calls) vrp,
  )

  -- One of the dispatches does not return 1.
  abbrev pub Stops : List (Dispatch quote) → Type 0
  Stops [] = ⊥
  Stops ((calls, false) ∷ ds) = Unit
  Stops ((calls, true) ∷ ds) = Stops ds

  dispatch_loop-add :
      (limit : ℕ) (ds : List (Dispatch quote)) (vrp : VlogReqPriv)
      → Stops ds
      → dispatch_loop quote limit ds vrp ≡ some (add_up_to limit (all_entries ds) vrp)
  unfolding dispatch_loop all_entries
  dispatch_loop-add limit [] vrp h = absurd h
  dispatch_loop-add limit ((calls, false) ∷ ds) vrp h = ap some (dispatch_calls-add limit calls vrp)
  dispatch_loop-add limit ((calls, true) ∷ ds) vrp h = ground (
    arith,
    dispatch_calls-add limit calls vrp,
    add_up_to-append limit (dispatch_entries calls) (all_entries ds) vrp,
    add_up_to-full limit (all_entries ds) (dispatch_calls quote limit calls vrp),
    dispatch_loop-add limit ds (dispatch_calls quote limit calls vrp) h,
  )

  -- The entries, each on a line, with a comma between each two.
  unfoldable pub listed : List Str → Str
  listed [] = []
  listed (e ∷ []) = text "\n" ++ e
  listed (e ∷ f ∷ es) = text "\n" ++ (e ++ (text "," ++ listed (f ∷ es)))

  behind : ℕ → List Str → Str
  behind k [] = []
  behind k (e ∷ es) = (if k == 0 then [] else text ",") ++ ((text "\n" ++ e) ++ behind (k + 1) es)

  behind-listed :
      (k : ℕ) (e : Str) (es : List Str) → 0 < k → behind k (e ∷ es) ≡ text "," ++ listed (e ∷ es)
  unfolding behind listed
  behind-listed k e [] h = ground (arith, append-nil (text "\n" ++ e))
  behind-listed k e (f ∷ es) h = ground (
    arith,
    behind-listed (k + 1) f es (omega arith),
    append_assoc (text "\n") e (text "," ++ listed (f ∷ es)),
  )

  behind-first : (es : List Str) → behind 0 es ≡ listed es
  unfolding behind listed
  behind-first [] = refl
  behind-first (e ∷ []) = append-nil (text "\n" ++ e)
  behind-first (e ∷ f ∷ es) = ground (
    arith,
    behind-listed 1 f es (omega arith),
    append_assoc (text "\n") e (text "," ++ listed (f ∷ es)),
  )

  take_next :
      (limit k : ℕ) (e : Str) (es : List Str)
      → k < limit
      → take (limit - k) (e ∷ es) ≡ e ∷ take (limit - (k + 1)) es
  take_next limit k e es h =
      let one : limit - k ≡ suc (limit - (k + 1)) = omega arith in rw one refl

  take_full : (limit k : ℕ) (es : List Str) → limit ≤ k → take (limit - k) es ≡ []
  take_full limit k es h = let none_left : limit - k ≡ 0 = omega arith in rw none_left refl

  add_up_to-answer :
      (limit : ℕ) (es : List Str) (vrp : VlogReqPriv)
      → (add_up_to limit es vrp).answer
        ≡ vrp.answer ++ behind vrp.entries (take (limit - vrp.entries) es)
  unfolding add_up_to behind add_entry
  add_up_to-answer limit [] vrp =
      ground (arith, take-none {A = Str} (limit - vrp.entries), append-nil vrp.answer)
  add_up_to-answer limit (e ∷ es) vrp =
      let comma : Str = if vrp.entries == 0 then [] else text "," in
      let k = vrp.entries in
      ground (
        arith,
        take_next limit k e es,
        take_full limit k (e ∷ es),
        append-nil vrp.answer,
        add_up_to-answer limit es (add_entry quote e vrp),
        append_assoc vrp.answer (comma ++ (text "\n" ++ e))
            (behind (k + 1) (take (limit - (k + 1)) es)),
        append_assoc comma (text "\n" ++ e) (behind (k + 1) (take (limit - (k + 1)) es)),
      )

  -- If one of the dispatches to come does not return 1, vlog_reply ends its loop, and the document
  -- holds the first records that match, up to the limit, of those dispatches, in the order of the
  -- log, with a comma between each two.
  pub log_json_lem :
      (limit : ℕ) (ds : List (Dispatch quote))
      → Stops ds
      → log_json quote limit ds
        ≡ some ((text "{ \"log\": [" ++ listed (take limit (all_entries ds))) ++ text "\n] }\n")
  unfolding log_json
  log_json_lem limit ds h =
      let whole : limit - 0 ≡ limit = omega arith in
      rw (dispatch_loop-add limit ds (no_entries quote) h, log_json)
        (rw (add_up_to-answer limit (all_entries ds) (no_entries quote))
          (rw behind-first (rw whole refl)))
