-- ===== src/Provider/Capacity.antt =====
-- runtime/provider_permits.py: how many requests a provider gets at once.
use knoarbor.Prelude.{
  ℕ, ◌+◌, ◌-◌, [], ◌≤◌, String, ◌≡◌, true, List, ◌∷◌, ◌++◌, Option, none, some, arith,
}
use mathlib.Core.Path.{subst, subst₂}
use knoarbor.Table.{lookup}
use knoarbor.Provider.Permits.{
  ProviderState, Slots, Pool, reserve, release, PoolStep, PoolRun, asks, enters, leaves, reserves,
  releases, takes_slot, frees_slot, takes_released, frees_released, outlive, rests, steps,
}
use knoarbor.Prelude.{Every}
use knoarbor.Provider.Reserved.{KeyOk, PoolOk, found, state_for-is, run-PoolOk}

-- Of a reservation that has ended: its slots in use, and their number.
abbrev pub SlotsOk : ℕ → String × Slots → Type 0
SlotsOk cap (key, w) = (w.in_use ≤ w.capacity) × (w.capacity ≤ cap)

Every-outlive :
    (cap : ℕ) (key : String) (s : ProviderState) (w : Option Slots) (rows : List (String × Slots))
    → KeyOk cap (some s) w
    → Every (SlotsOk cap) rows
    → Every (SlotsOk cap) (outlive key w rows)
Every-outlive cap key s none rows v old = old
Every-outlive cap key s (some w) rows v old = ((v.3, v.4), old)

-- One row replaced.
Every-replace :
    (cap : ℕ) (before after : List (String × Slots)) (key : String) (w : Slots) (n : ℕ)
    → (w.in_use ≤ w.capacity → n ≤ w.capacity)
    → Every (SlotsOk cap) (before ++ (key, w) ∷ after)
    → Every (SlotsOk cap) (before ++ (key, record w { in_use = n }) ∷ after)
Every-replace cap [] after key w n h (mine, others) = ((h mine.0, mine.1), others)
Every-replace cap (row ∷ before) after key w n h (first, others) =
    (first, Every-replace cap before after key w n h others)

step-SlotsOk :
    (cap : ℕ) (p q : Pool)
    → PoolStep cap p q
    → PoolOk cap p
    → Every (SlotsOk cap) p.released
    → Every (SlotsOk cap) q.released
unfolding reserve release
step-SlotsOk cap p q (asks _ key limit _ _ s h e) v old = rw (state_for-is key limit p q s e) old
step-SlotsOk cap p _ (enters _ key _ s e free) v old = old
step-SlotsOk cap p _ (leaves _ key _ s e some_in) v old = old
step-SlotsOk cap p _ (reserves _ key _ s e free) v old = old
step-SlotsOk cap p _ (releases _ key _ s e held) v old =
    Every-outlive cap key s (lookup key p.reservations) p.released (found cap key p s e v) old
step-SlotsOk cap p _ (takes_slot _ key _ w e room) v old = old
step-SlotsOk cap p _ (frees_slot _ key _ w e some_in) v old = old
step-SlotsOk cap p _ (takes_released _ key _ w before after e room) v old =
    Every-replace cap before after key w (w.in_use + 1) (λ h. omega (arith, room))
      (subst (Every (SlotsOk cap)) e old)
step-SlotsOk cap p _ (frees_released _ key _ w before after e some_in) v old =
    Every-replace cap before after key w (w.in_use - 1) (λ h. omega (arith, h))
      (subst (Every (SlotsOk cap)) e old)

run-SlotsOk :
    (cap : ℕ) (p q : Pool)
    → PoolRun cap p q
    → PoolOk cap p
    → Every (SlotsOk cap) p.released
    → Every (SlotsOk cap) q.released
run-SlotsOk cap p _ (rests _ _) v old = old
run-SlotsOk cap p r (steps _ _ q _ run step) v old =
    step-SlotsOk cap q r step (run-PoolOk cap p q run v) (run-SlotsOk cap p q run v old)

-- The requests that a provider has open: those counted outside of a reservation and those in it.
unfoldable pub open_requests : Option ProviderState → Option Slots → ℕ
open_requests none none = 0
open_requests none (some w) = w.in_use
open_requests (some s) none = s.active_requests
open_requests (some s) (some w) = s.active_requests + w.in_use

KeyOk-open :
    (cap : ℕ) (s : Option ProviderState) (w : Option Slots)
    → KeyOk cap s w
    → open_requests s w ≤ cap
unfolding open_requests
KeyOk-open cap none none v = omega arith
KeyOk-open cap none (some w) v = absurd v
KeyOk-open cap (some s) none v = ground (arith, v)
KeyOk-open cap (some s) (some w) v = ground (arith, v)

alone :
    (cap : ℕ) (s : ProviderState) (w : Slots)
    → KeyOk cap (some s) (some w)
    → (s.attempt_reserved ≡ true) × (s.active_requests ≡ 0)
alone cap s w v = (v.2, v.1)

abbrev pub empty_pool : Pool
empty_pool = record { states = []; reservations = []; released = []; rate_limit_failures = [] }

empty-PoolOk : (cap : ℕ) → PoolOk cap empty_pool
unfolding lookup
empty-PoolOk cap j = tt

-- No released reservation has more requests open than the cap.
abbrev pub IsWithin : ℕ → String × Slots → Type 0
IsWithin cap (key, w) = w.in_use ≤ cap

Every-IsWithin :
    (cap : ℕ) (rows : List (String × Slots)) → Every (SlotsOk cap) rows → Every (IsWithin cap) rows
Every-IsWithin cap [] h = tt
Every-IsWithin cap (row ∷ rows) (mine, others) =
    (omega (arith, mine.0, mine.1), Every-IsWithin cap rows others)

-- Whatever the threads of a process do, a provider never has more requests open than the largest limit
-- that was asked for, counting those outside of a reservation and those in the one that is held; and no more
-- than that in each reservation that has ended, whose requests come on top.
pub run-capacity :
    (cap : ℕ) (p : Pool) (key : String)
    → PoolRun cap empty_pool p
    → (open_requests (lookup key p.states) (lookup key p.reservations) ≤ cap)
      × Every (IsWithin cap) p.released
run-capacity cap p key run =
    let keys = run-PoolOk cap empty_pool p run (empty-PoolOk cap) in
    (
      KeyOk-open cap (lookup key p.states) (lookup key p.reservations) (keys key),
      Every-IsWithin cap p.released (run-SlotsOk cap empty_pool p run (empty-PoolOk cap) tt),
    )

-- While an attempt holds a reservation of a provider, it is marked reserved, and no request is open that
-- was let in outside of a reservation.
pub run-exclusive :
    (cap : ℕ) (p : Pool) (key : String) (s : ProviderState) (w : Slots)
    → PoolRun cap empty_pool p
    → lookup key p.states ≡ some s
    → lookup key p.reservations ≡ some w
    → (s.attempt_reserved ≡ true) × (s.active_requests ≡ 0)
run-exclusive cap p key s w run state held =
    alone cap s w
      (subst₂ (KeyOk cap) state held (run-PoolOk cap empty_pool p run (empty-PoolOk cap) key))
