-- ===== src/Run/Listed.antt =====
-- runtime/run_monitor.py: what `list_runs` returns.
use knoarbor.Prelude.{
  ℕ, suc, ◌+◌, ◌≤◌, ◌<◌, ◌≡◌, Bool, true, not, ◌&&◌, ◌||◌, Option, none, some, List, [], ◌∷◌, arith,
  leb, Bool-cases, inl, inr, length, Every,
}
use knoarbor.Run.State.{RunRecord, RunFiles, is_active}
use knoarbor.Run.Listing.{Entry, reconciled, list_from, list_runs, add_seen, add_entry, untouched}

-- What the caller asked for.
abbrev pub IsListed : ℕ → Bool → ℕ → List RunRecord → Type 0
IsListed limit active_only n rs =
    (n + length rs ≤ limit)
    × Every (λ (r : RunRecord). (not active_only || is_active r.status) ≡ true) rs

add_seen-IsListed :
    (limit : ℕ) (active_only : Bool) (n : ℕ) (seen : RunRecord × RunFiles)
    (skipped listed : List RunRecord × List RunFiles) (rest : List RunFiles)
    → n < limit
    → IsListed limit active_only n skipped.0
    → (suc n < limit → IsListed limit active_only (suc n) listed.0)
    → IsListed limit active_only n (add_seen limit active_only n seen skipped listed rest).0
unfolding add_seen
add_seen-IsListed limit active_only n seen skipped listed rest h before after =
    elim (Bool-cases (active_only && not (is_active seen.0.status))) [
      | inl hidden ↦ rw hidden before
      | inr shown ↦ rw shown (elim (Bool-cases (leb limit (suc n))) [
        | inl full ↦ rw full (omega (arith, h), (ground (arith, shown), tt))
        | inr room ↦
            let more = after (ground (arith, room)) in
            rw room (omega (arith, more.0), (ground (arith, shown), more.1))
      ])
    ]

entry-IsListed :
    (limit : ℕ) (active_only : Bool) (n : ℕ) (e : Entry) (found : Option RunRecord)
    (skipped listed : List RunRecord × List RunFiles) (rest : List RunFiles)
    → n < limit
    → IsListed limit active_only n skipped.0
    → (suc n < limit → IsListed limit active_only (suc n) listed.0)
    → IsListed limit active_only n (add_entry limit active_only n e found skipped listed rest).0
entry-IsListed limit active_only n e none skipped listed rest h before after = before
entry-IsListed limit active_only n e (some r) skipped listed rest h before after =
    add_seen-IsListed limit active_only n (reconciled e r) skipped listed rest h before after

list_from-IsListed :
    (limit : ℕ) (active_only : Bool) (n : ℕ) (es : List Entry)
    → n < limit
    → IsListed limit active_only n (list_from limit active_only n es).0
unfolding list_from
list_from-IsListed limit active_only n [] h = (omega (arith, h), tt)
list_from-IsListed limit active_only n (e ∷ es) h =
    entry-IsListed limit active_only n e e.files.record_file (list_from limit active_only n es)
      (list_from limit active_only (suc n) es) (untouched es) h
      (list_from-IsListed limit active_only n es h)
      (list_from-IsListed limit active_only (suc n) es)

-- A list of runs with a positive limit has at most that many records, and only active ones when
-- only those were asked for: their status is tested after a stale record was ended.
pub list_runs-IsListed :
    (limit : ℕ) (active_only : Bool) (es : List Entry)
    → 0 < limit
    → IsListed limit active_only 0 (list_runs limit active_only es).0
unfolding list_runs
list_runs-IsListed limit active_only es h = list_from-IsListed limit active_only 0 es h
