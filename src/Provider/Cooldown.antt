-- ===== src/Provider/Cooldown.antt =====
-- runtime/provider_permits.py and runtime/provider_control.py: the pause that a rate limit puts on a
-- provider. Times and delays are natural numbers of one unit, and a deadline that is missing or no
-- number is 0. `None` for the delay is `none`.
use knoarbor.Prelude.{
  ℕ, ◌+◌, ◌-◌, ◌*◌, ◌^◌, String, Bool, ltb, leb, Option, none, some, if◌then◌else◌,
}
use knoarbor.Table.{Table, lookup, upsert, delete}
use knoarbor.Provider.Permits.{Pool}

-- The deadlines of provider_admission.json, by provider.
abbrev pub Cooldowns : Type 0
Cooldowns = Table ℕ

abbrev pub maximum : ℕ → ℕ → ℕ
maximum a b = if ltb a b then b else a

abbrev pub minimum : ℕ → ℕ → ℕ
minimum a b = if ltb b a then b else a

abbrev pub or_zero : Option ℕ → ℕ
or_zero none = 0
or_zero (some n) = n

-- `provider_cooldown_until`.
unfoldable pub provider_cooldown_until : String → Cooldowns → ℕ
provider_cooldown_until key cooldowns = or_zero (lookup key cooldowns)

-- `impose_provider_cooldown`: the deadline that it returns, and the file.
unfoldable pub impose_provider_cooldown : String → ℕ → ℕ → Cooldowns → ℕ × Cooldowns
impose_provider_cooldown key seconds now cooldowns =
    let deadline = now + seconds in
    (deadline, upsert key (maximum (provider_cooldown_until key cooldowns) deadline) cooldowns)

-- `wait_for_provider_admission` returns once this holds.
unfoldable pub is_admitted : String → ℕ → Cooldowns → Bool
is_admitted key now cooldowns = leb (provider_cooldown_until key cooldowns) now

-- `_provider_admission`: a caller that defers is refused while the provider cools down; any other
-- waits.
pub data AdmissionAnswer : Type 0 where
  refused : ℕ → AdmissionAnswer
  waits admitted : AdmissionAnswer

unfoldable pub provider_admission : String → Bool → ℕ → Cooldowns → AdmissionAnswer
unfolding is_admitted
provider_admission key defer now cooldowns =
    if is_admitted key now cooldowns
    then admitted
    else if defer
    then refused (provider_cooldown_until key cooldowns)
    else waits

-- The delay after that many refusals in a row: 15 seconds, doubled up to four times, 300 at most.
unfoldable pub backoff : ℕ → ℕ
backoff failures = minimum 300 (15 * 2 ^ minimum (failures - 1) 4)

abbrev pub delay_for : Option ℕ → ℕ → ℕ
delay_for none failures = backoff failures
delay_for (some seconds) failures = seconds

-- `ProviderPermitPool.impose_cooldown`.
unfoldable pub impose_cooldown : String → Option ℕ → ℕ → Pool × Cooldowns → ℕ × (Pool × Cooldowns)
unfolding impose_provider_cooldown backoff
impose_cooldown key seconds now (p, cooldowns) =
    let failures = or_zero (lookup key p.rate_limit_failures) + 1 in
    let (deadline, written) =
      impose_provider_cooldown key (delay_for seconds failures) now cooldowns in
    (
      deadline,
      (record p { rate_limit_failures = upsert key failures p.rate_limit_failures }, written),
    )

-- `record_success`.
unfoldable pub record_success : String → Pool → Pool
record_success key p = record p { rate_limit_failures = delete key p.rate_limit_failures }

-- `rate_limit_delay_seconds`: the header `retry-after`, when it is a number.
unfoldable pub rate_limit_delay_seconds : Option ℕ → Option ℕ
rate_limit_delay_seconds none = none
rate_limit_delay_seconds (some n) = some (minimum 300 (maximum 1 n))
