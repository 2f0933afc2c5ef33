-- ===== src/Provider/Reserved.antt =====
-- runtime/provider_permits.py: the provider of a reservation, whatever the threads do.
use knoarbor.Prelude.{
  ℕ, ◌+◌, ◌-◌, ◌<◌, ◌≤◌, String, ◌≡◌, refl, sym, ap, true, false, Option, none, some, ok,
  if◌then◌else◌, arith, str_eq, eq_iff, Bool-cases, inl, inr,
}
use mathlib.Core.Path.{subst}
use knoarbor.Table.{Table, lookup, lookup-upsert, lookup-delete}
use knoarbor.Provider.Permits.{
  ProviderState, Slots, Pool, put_state, put_slots, found_state, state_for, is_busy, entered, left,
  is_held, reserve, release, PoolStep, PoolRun, asks, enters, leaves, reserves, releases,
  takes_slot, frees_slot, takes_released, frees_released, rests, steps,
}

-- Of one provider: its limit and its requests are below the cap; it is reserved exactly while an
-- attempt holds its slots, and then has no request outside of them.
abbrev pub KeyOk : ℕ → Option ProviderState → Option Slots → Type 0
KeyOk cap none none = Unit {0}
KeyOk cap none (some w) = ⊥
KeyOk cap (some s) none = (s.limit ≤ cap) × (s.active_requests ≤ cap) × (s.attempt_reserved ≡ false)
KeyOk cap (some s) (some w) =
    (s.limit ≤ cap)
    × (s.active_requests ≡ 0)
    × (s.attempt_reserved ≡ true)
    × (w.in_use ≤ w.capacity)
    × (w.capacity ≤ cap)

abbrev pub PoolOk : ℕ → Pool → Type 0
PoolOk cap p = (j : String) → KeyOk cap (lookup j p.states) (lookup j p.reservations)

-- A step that leaves the other providers alone keeps the pool well if it keeps its own.
at_key :
    (cap : ℕ) (key : String) (p q : Pool) (s : Option ProviderState) (w : Option Slots)
    → PoolOk cap p
    → ((j : String) → lookup j q.states ≡ (if str_eq key j then s else lookup j p.states))
    → ((j : String)
        → lookup j q.reservations ≡ (if str_eq key j then w else lookup j p.reservations))
    → KeyOk cap s w
    → PoolOk cap q
at_key cap key p q s w v states reservations mine j = elim (Bool-cases (str_eq key j)) [
  | inl here ↦ rw (states j, reservations j, here) mine
  | inr there ↦ rw (states j, reservations j, there) (v j)
]

own_row :
    {A : Type 0} (key j : String) (t : Table A)
    → lookup j t ≡ (if str_eq key j then lookup key t else lookup j t)
own_row key j t = elim (Bool-cases (str_eq key j)) [
  | inl here ↦
      let same : key ≡ j = (eq_iff key j).0 here in rw here (ap (λ k. lookup k t) (sym same))
  | inr there ↦ rw there refl
]

-- Only the state of the provider changes.
state_at_key :
    (cap : ℕ) (key : String) (p : Pool) (s : ProviderState)
    → PoolOk cap p
    → KeyOk cap (some s) (lookup key p.reservations)
    → PoolOk cap (put_state key s p)
state_at_key cap key p s v mine =
    at_key cap key p (put_state key s p) (some s) (lookup key p.reservations) v
      (λ j. lookup-upsert key j s p.states) (λ j. own_row key j p.reservations) mine

asks-KeyOk :
    (cap limit : ℕ) (s : Option ProviderState) (w : Option Slots)
    → limit ≤ cap
    → KeyOk cap s w
    → KeyOk cap (some (found_state limit s)) w
asks-KeyOk cap limit none none h v = ground (arith, h)
asks-KeyOk cap limit none (some w) h v = absurd v
asks-KeyOk cap limit (some s) none h v = ground (arith, h, v)
asks-KeyOk cap limit (some s) (some w) h v = ground (arith, h, v)

enters-KeyOk :
    (cap : ℕ) (s : ProviderState) (w : Option Slots)
    → is_busy s ≡ false
    → KeyOk cap (some s) w
    → KeyOk cap (some (entered s)) w
enters-KeyOk cap s none h v = ground (arith, h, v)
enters-KeyOk cap s (some w) h v = ground (arith, h, v)

leaves-KeyOk :
    (cap : ℕ) (s : ProviderState) (w : Option Slots)
    → 0 < s.active_requests
    → KeyOk cap (some s) w
    → KeyOk cap (some (left s)) w
leaves-KeyOk cap s none h v = ground (arith, h, v)
leaves-KeyOk cap s (some w) h v = ground (arith, h, v)

reserves-KeyOk :
    (cap : ℕ) (s : ProviderState) (w : Option Slots)
    → is_held s ≡ false
    → KeyOk cap (some s) w
    → KeyOk cap
        (some (record s { attempt_reserved = true }))
        (some (record { capacity = s.limit; in_use = 0 }))
reserves-KeyOk cap s none h v = ground (arith, h, v)
reserves-KeyOk cap s (some w) h v = ground (arith, h, v)

releases-KeyOk :
    (cap : ℕ) (s : ProviderState) (w : Option Slots)
    → KeyOk cap (some s) w
    → KeyOk cap (some (record s { attempt_reserved = false })) none
releases-KeyOk cap s none v = ground (arith, v)
releases-KeyOk cap s (some w) v = ground (arith, v)

slots-KeyOk :
    (cap : ℕ) (s : Option ProviderState) (w : Slots) (n : ℕ)
    → n ≤ w.capacity
    → KeyOk cap s (some w)
    → KeyOk cap s (some (record w { in_use = n }))
slots-KeyOk cap none w n h v = absurd v
slots-KeyOk cap (some s) w n h v = ground (arith, h, v)

slots_at_key :
    (cap : ℕ) (key : String) (p : Pool) (w : Slots) (n : ℕ)
    → PoolOk cap p
    → lookup key p.reservations ≡ some w
    → n ≤ w.capacity
    → PoolOk cap (put_slots key (record w { in_use = n }) p)
slots_at_key cap key p w n v e h =
    at_key cap key p (put_slots key (record w { in_use = n }) p) (lookup key p.states)
      (some (record w { in_use = n })) v (λ j. own_row key j p.states)
      (λ j. lookup-upsert key j (record w { in_use = n }) p.reservations)
      (slots-KeyOk cap (lookup key p.states) w n h
        (subst (KeyOk cap (lookup key p.states)) e (v key)))

pub state_for-is :
    (key : String) (limit : ℕ) (p q : Pool) (s : ProviderState)
    → state_for key limit p ≡ ok (s, q)
    → q ≡ put_state key (found_state limit (lookup key p.states)) p
unfolding state_for
state_for-is key limit p q s h = ground arith

pub found :
    (cap : ℕ) (key : String) (p : Pool) (s : ProviderState)
    → lookup key p.states ≡ some s
    → PoolOk cap p
    → KeyOk cap (some s) (lookup key p.reservations)
found cap key p s e v = subst (λ o. KeyOk cap o (lookup key p.reservations)) e (v key)

within :
    (cap : ℕ) (s : Option ProviderState) (w : Slots)
    → KeyOk cap s (some w)
    → w.in_use - 1 ≤ w.capacity
within cap none w v = absurd v
within cap (some s) w v = ground (arith, v)

step-PoolOk : (cap : ℕ) (p q : Pool) → PoolStep cap p q → PoolOk cap p → PoolOk cap q
unfolding reserve release
step-PoolOk cap p q (asks _ key limit _ _ s h e) v = rw (state_for-is key limit p q s e) (
    state_at_key cap key p (found_state limit (lookup key p.states)) v
      (asks-KeyOk cap limit (lookup key p.states) (lookup key p.reservations) h (v key)))
step-PoolOk cap p _ (enters _ key _ s e free) v =
    state_at_key cap key p (entered s) v
      (enters-KeyOk cap s (lookup key p.reservations) free (found cap key p s e v))
step-PoolOk cap p _ (leaves _ key _ s e some_in) v =
    state_at_key cap key p (left s) v
      (leaves-KeyOk cap s (lookup key p.reservations) some_in (found cap key p s e v))
step-PoolOk cap p _ (reserves _ key _ s e free) v =
    at_key cap key p (reserve key s p) (some (record s { attempt_reserved = true }))
      (some (record { capacity = s.limit; in_use = 0 })) v
      (λ j. lookup-upsert key j (record s { attempt_reserved = true }) p.states)
      (λ j. lookup-upsert key j (record { capacity = s.limit; in_use = 0 }) p.reservations)
      (reserves-KeyOk cap s (lookup key p.reservations) free (found cap key p s e v))
step-PoolOk cap p _ (releases _ key _ s e held) v =
    at_key cap key p (release key s p) (some (record s { attempt_reserved = false })) none v
      (λ j. lookup-upsert key j (record s { attempt_reserved = false }) p.states)
      (λ j. lookup-delete key j p.reservations)
      (releases-KeyOk cap s (lookup key p.reservations) (found cap key p s e v))
step-PoolOk cap p _ (takes_slot _ key _ w e room) v =
    slots_at_key cap key p w (w.in_use + 1) v e (omega (arith, room))
step-PoolOk cap p _ (takes_released _ key _ w before after e room) v = v
step-PoolOk cap p _ (frees_released _ key _ w before after e some_in) v = v
step-PoolOk cap p _ (frees_slot _ key _ w e some_in) v =
    slots_at_key cap key p w (w.in_use - 1) v e
      (within cap (lookup key p.states) w (subst (KeyOk cap (lookup key p.states)) e (v key)))

pub run-PoolOk : (cap : ℕ) (p q : Pool) → PoolRun cap p q → PoolOk cap p → PoolOk cap q
run-PoolOk cap p _ (rests _ _) v = v
run-PoolOk cap p r (steps _ _ q _ run step) v = step-PoolOk cap q r step (run-PoolOk cap p q run v)
