-- ===== src/Provider/Tests.antt =====
-- runtime/provider_permits.py: an attempt that reserves a provider and sends a request.
use knoarbor.Prelude.{Every, ℕ, ◌+◌, ◌≤◌, ◌≡◌, refl, true, false, some, [], ◌∷◌, arith}
use knoarbor.Table.{lookup, upsert, delete}
use knoarbor.Provider.Permits.{
  ProviderState, Slots, Pool, new_state, state_for, reserve, release, put_state, put_slots,
  PoolStep, PoolRun, asks, reserves, releases, takes_slot, rests, steps,
}
use knoarbor.Provider.Capacity.{empty_pool, open_requests, IsWithin, run-capacity, run-exclusive}
use knoarbor.Provider.Cooldown.{
  Cooldowns, impose_cooldown, delay_for, provider_admission, refused, waits,
}
use knoarbor.Provider.Backoff.{failures_of, impose_cooldown-closes}

abbrev known_provider : Pool
known_provider = put_state "openai" (new_state 2) empty_pool

abbrev reserved : Pool
reserved = reserve "openai" (new_state 2) known_provider

abbrev free_slots : Slots
free_slots = record { capacity = 2; in_use = 0 }

abbrev sending : Pool
sending = put_slots "openai" (record { capacity = 2; in_use = 1 }) reserved

asks_first : PoolStep 3 empty_pool known_provider
unfolding state_for lookup
asks_first = asks 3 "openai" 2 empty_pool known_provider (new_state 2) (omega arith) refl

reserves_next : PoolStep 3 known_provider reserved
unfolding lookup upsert
reserves_next = reserves 3 "openai" known_provider (new_state 2) refl refl

takes_last : PoolStep 3 reserved sending
unfolding lookup upsert reserve
takes_last = takes_slot 3 "openai" reserved free_slots refl (omega arith)

sends : PoolRun 3 empty_pool sending
sends =
    steps 3 empty_pool reserved sending
      (steps 3 empty_pool known_provider reserved
        (steps 3 empty_pool empty_pool known_provider (rests 3 empty_pool) asks_first)
        reserves_next)
      takes_last

run-capacity_example :
    (open_requests (lookup "openai" sending.states) (lookup "openai" sending.reservations) ≤ 3)
    × Every (IsWithin 3) sending.released
run-capacity_example = run-capacity 3 sending "openai" sends

abbrev held_state : ProviderState
held_state = record { limit = 2; active_requests = 0; attempt_reserved = true }

finds_state : lookup "openai" sending.states ≡ some held_state
unfolding lookup upsert reserve
finds_state = refl

finds_slots : lookup "openai" sending.reservations ≡ some (record { capacity = 2; in_use = 1 })
unfolding lookup upsert reserve
finds_slots = refl

run-exclusive_example : (held_state.attempt_reserved ≡ true) × (held_state.active_requests ≡ 0)
run-exclusive_example =
    run-exclusive 3 sending "openai" held_state (record { capacity = 2; in_use = 1 }) sends
      finds_state finds_slots

abbrev no_cooldowns : Cooldowns
no_cooldowns = ("anthropic", 50) ∷ []

impose_cooldown-closes_example :
    (until : ℕ) × (100 + delay_for (some 20) (failures_of "openai" sending + 1) ≤ until)
    × (provider_admission "openai" true 110
          (impose_cooldown "openai" (some 20) 100 (sending, no_cooldowns)).1.1
        ≡ refused until)
    × (provider_admission "openai" false 110
          (impose_cooldown "openai" (some 20) 100 (sending, no_cooldowns)).1.1
        ≡ waits)
impose_cooldown-closes_example =
    impose_cooldown-closes "openai" (some 20) 100 110 sending no_cooldowns (omega arith)

abbrev taken : ProviderState
taken = record { limit = 2; active_requests = 0; attempt_reserved = true }

-- The attempt ends while a thread still sends its request; the next one reserves the provider.
abbrev ended : Pool
ended = release "openai" taken sending

abbrev reserved_again : Pool
reserved_again = reserve "openai" (new_state 2) ended

outlives : PoolRun 3 empty_pool reserved_again
unfolding lookup upsert delete reserve release
outlives =
    steps 3 empty_pool ended reserved_again
      (steps 3 empty_pool sending ended sends (releases 3 "openai" sending taken refl refl))
      (reserves 3 "openai" ended (new_state 2) refl refl)

still_open : reserved_again.released ≡ ("openai", record { capacity = 2; in_use = 1 }) ∷ []
unfolding lookup upsert reserve release
still_open = refl
