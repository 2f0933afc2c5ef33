-- ===== src/Provider/Permits.antt =====
-- runtime/provider_permits.py: `ProviderPermitPool`. Each method waits in a loop for a condition that
-- it tests under the pool's lock; the condition and the writes behind it are functions here, and the
-- steps of the threads a relation.
use knoarbor.Prelude.{
  ℕ, ◌+◌, ◌-◌, ◌<◌, ◌≤◌, String, ◌≡◌, Bool, true, false, not, ◌&&◌, ◌||◌, ◌==◌, ltb, leb, Option,
  none, some, List, ◌∷◌, ◌++◌, Result, ok, err, value_error, if◌then◌else◌,
}
use knoarbor.Table.{Table, lookup, upsert, delete}

-- `_ProviderState`.
pub record ProviderState : Type 0 where
  pub limit : ℕ
  pub active_requests : ℕ
  pub attempt_reserved : Bool

-- The request semaphore of an `_AttemptReservation`.
pub record Slots : Type 0 where
  pub capacity : ℕ
  pub in_use : ℕ

-- The pool, and the reservations that attempts hold, by the key of their provider. The contexts that
-- threads copied keep the semaphore of a reservation alive after its end: `released` has those.
pub record Pool : Type 0 where
  pub states : Table ProviderState
  pub reservations : Table Slots
  pub released : List (String × Slots)
  pub rate_limit_failures : Table ℕ

abbrev pub put_state : String → ProviderState → Pool → Pool
put_state key s p = record p { states = upsert key s p.states }

abbrev pub is_idle : ProviderState → Bool
is_idle s = not s.attempt_reserved && s.active_requests == 0

-- What `_state` makes of the row that it finds: an idle provider takes the new limit, a busy one
-- only a stricter one.
abbrev pub adjusted : ℕ → ProviderState → ProviderState
adjusted limit s =
    if is_idle s
    then record s { limit = limit }
    else if ltb limit s.limit
    then record s { limit = limit }
    else s

abbrev pub new_state : ℕ → ProviderState
new_state limit = record { limit = limit; active_requests = 0; attempt_reserved = false }

abbrev pub found_state : ℕ → Option ProviderState → ProviderState
found_state limit none = new_state limit
found_state limit (some s) = adjusted limit s

-- `_state`.
unfoldable pub state_for : String → ℕ → Pool → Result (ProviderState × Pool)
state_for key limit p =
    if ltb limit 1
    then err (value_error "Provider concurrency limit must be positive.")
    else (let s = found_state limit (lookup key p.states) in ok (s, put_state key s p))

-- `acquire` outside a reservation waits while this holds, then counts its request.
abbrev pub is_busy : ProviderState → Bool
is_busy s = s.attempt_reserved || leb s.limit s.active_requests

abbrev pub entered : ProviderState → ProviderState
entered s = record s { active_requests = s.active_requests + 1 }

abbrev pub left : ProviderState → ProviderState
left s = record s { active_requests = s.active_requests - 1 }

-- `reserve_attempt` waits while this holds.
abbrev pub is_held : ProviderState → Bool
is_held s = s.attempt_reserved || ltb 0 s.active_requests

-- `reserve_attempt`: the provider is the attempt's, with a semaphore of the limit of that moment.
unfoldable pub reserve : String → ProviderState → Pool → Pool
reserve key s p = record p {
  states = upsert key (record s { attempt_reserved = true }) p.states;
  reservations = upsert key (record { capacity = s.limit; in_use = 0 }) p.reservations;
}

-- A semaphore that only copied contexts have from now on, with the slots in use.
abbrev pub outlive : String → Option Slots → List (String × Slots) → List (String × Slots)
outlive key none rows = rows
outlive key (some w) rows = (key, w) ∷ rows

-- The `finally` of `reserve_attempt`: the mark goes, whatever requests are open in the reservation.
unfoldable pub release : String → ProviderState → Pool → Pool
release key s p = record p {
  states = upsert key (record s { attempt_reserved = false }) p.states;
  reservations = delete key p.reservations;
  released = outlive key (lookup key p.reservations) p.released;
}

-- A request inside a reservation takes a slot of its semaphore, and gives it back; so does a request in
-- a copied context of a reservation that has ended.
abbrev pub put_slots : String → Slots → Pool → Pool
put_slots key w p = record p { reservations = upsert key w p.reservations }

-- One step of some thread. `PoolStep cap` are the steps of a process whose callers ask for limits
-- of at most `cap`.
pub data PoolStep : ℕ → Pool → Pool → Type 0 where
  asks :
      (cap : ℕ) (key : String) (limit : ℕ) (p q : Pool) (s : ProviderState)
      → limit ≤ cap
      → state_for key limit p ≡ ok (s, q)
      → PoolStep cap p q
  enters :
      (cap : ℕ) (key : String) (p : Pool) (s : ProviderState)
      → lookup key p.states ≡ some s
      → is_busy s ≡ false
      → PoolStep cap p (put_state key (entered s) p)
  leaves :
      (cap : ℕ) (key : String) (p : Pool) (s : ProviderState)
      → lookup key p.states ≡ some s
      → 0 < s.active_requests
      → PoolStep cap p (put_state key (left s) p)
  reserves :
      (cap : ℕ) (key : String) (p : Pool) (s : ProviderState)
      → lookup key p.states ≡ some s
      → is_held s ≡ false
      → PoolStep cap p (reserve key s p)
  releases :
      (cap : ℕ) (key : String) (p : Pool) (s : ProviderState)
      → lookup key p.states ≡ some s
      → s.attempt_reserved ≡ true
      → PoolStep cap p (release key s p)
  takes_slot :
      (cap : ℕ) (key : String) (p : Pool) (w : Slots)
      → lookup key p.reservations ≡ some w
      → w.in_use < w.capacity
      → PoolStep cap p (put_slots key (record w { in_use = w.in_use + 1 }) p)
  frees_slot :
      (cap : ℕ) (key : String) (p : Pool) (w : Slots)
      → lookup key p.reservations ≡ some w
      → 0 < w.in_use
      → PoolStep cap p (put_slots key (record w { in_use = w.in_use - 1 }) p)
  takes_released :
      (cap : ℕ) (key : String) (p : Pool) (w : Slots) (before after : List (String × Slots))
      → p.released ≡ before ++ (key, w) ∷ after
      → w.in_use < w.capacity
      → PoolStep cap p
          (record p { released = before ++ (key, record w { in_use = w.in_use + 1 }) ∷ after })
  frees_released :
      (cap : ℕ) (key : String) (p : Pool) (w : Slots) (before after : List (String × Slots))
      → p.released ≡ before ++ (key, w) ∷ after
      → 0 < w.in_use
      → PoolStep cap p
          (record p { released = before ++ (key, record w { in_use = w.in_use - 1 }) ∷ after })

pub data PoolRun : ℕ → Pool → Pool → Type 0 where
  rests : (cap : ℕ) (p : Pool) → PoolRun cap p p
  steps : (cap : ℕ) (p q r : Pool) → PoolRun cap p q → PoolStep cap q r → PoolRun cap p r
