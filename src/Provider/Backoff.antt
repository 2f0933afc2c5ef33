-- ===== src/Provider/Backoff.antt =====
-- runtime/provider_permits.py and runtime/provider_control.py: how long a refused provider is left
-- alone.
use knoarbor.Prelude.{
  ℕ, suc, zero, ◌+◌, ◌-◌, ◌<◌, ◌≤◌, String, ◌≡◌, refl, ◌∙◌, true, false, leb, Option, if◌then◌else◌,
  arith, str_eq, eq_refl, Bool-cases, inl, inr,
}
use knoarbor.Table.{lookup, upsert, lookup-upsert}
use knoarbor.Provider.Permits.{Pool}
use knoarbor.Provider.Cooldown.{
  Cooldowns, maximum, minimum, or_zero, provider_cooldown_until, backoff, impose_cooldown,
  delay_for, provider_admission, refused, waits,
}

-- The refusals in a row.
abbrev pub failures_of : String → Pool → ℕ
failures_of key p = or_zero (lookup key p.rate_limit_failures)

-- The delay, written out.
abbrev pub delay : ℕ → ℕ
delay zero = 15
delay (suc zero) = 15
delay (suc (suc zero)) = 30
delay (suc (suc (suc zero))) = 60
delay (suc (suc (suc (suc zero)))) = 120
delay (suc (suc (suc (suc (suc n))))) = 240

late : (n : ℕ) → 5 ≤ n → minimum (n - 1) 4 ≡ 4
late n h = ground (arith, h)

backoff-delay : (n : ℕ) → backoff n ≡ delay n
unfolding backoff
backoff-delay zero = refl
backoff-delay (suc zero) = refl
backoff-delay (suc (suc zero)) = refl
backoff-delay (suc (suc (suc zero))) = refl
backoff-delay (suc (suc (suc (suc zero)))) = refl
backoff-delay (suc (suc (suc (suc (suc n))))) =
    rw (late (suc (suc (suc (suc (suc n))))) (omega arith)) refl

delay-bounds : (n : ℕ) → (15 ≤ delay n) × (delay n ≤ 240)
delay-bounds n = ground arith

delay-grows : (n : ℕ) → delay n ≤ delay (suc n)
delay-grows n = ground arith

-- A provider that refuses with no hint of its own is left alone for 15 seconds at first and for 240
-- at most, and never shorter after one refusal more; the ceiling of 300 seconds is never reached.
pub backoff-bounds :
    (failures : ℕ)
    → (15 ≤ backoff failures)
      × (backoff failures ≤ 240)
      × (backoff failures ≤ backoff (suc failures))
backoff-bounds failures =
    rw (backoff-delay failures, backoff-delay (suc failures))
      ((delay-bounds failures).0, (delay-bounds failures).1, delay-grows failures)

until-imposed :
    (key other : String) (deadline : ℕ) (c : Cooldowns)
    → provider_cooldown_until other (upsert key deadline c)
      ≡ (if str_eq key other then deadline else provider_cooldown_until other c)
unfolding provider_cooldown_until
until-imposed key other deadline c = elim (Bool-cases (str_eq key other)) [
  | inl same ↦ rw (lookup-upsert key other deadline c, same) refl
  | inr apart ↦ rw (lookup-upsert key other deadline c, apart) refl
]

-- A refusal counts once, and never brings the end of a provider's pause forward: it becomes the
-- later of the old end and the one that it asks for, and the other providers' stay.
pub impose_cooldown-until :
    (key other : String) (seconds : Option ℕ) (now : ℕ) (p : Pool) (c : Cooldowns)
    → (failures_of key (impose_cooldown key seconds now (p, c)).1.0 ≡ failures_of key p + 1)
      × (provider_cooldown_until other (impose_cooldown key seconds now (p, c)).1.1 ≡ (
          if str_eq key other
          then maximum
              (provider_cooldown_until key c)
              (now + delay_for seconds (failures_of key p + 1))
          else provider_cooldown_until other c))
unfolding impose_cooldown
impose_cooldown-until key other seconds now p c = (
  rw (lookup-upsert key key (failures_of key p + 1) p.rate_limit_failures, eq_refl key) refl,
  until-imposed key other _ c,
)

-- Before the end that a refusal asks for, the provider admits nobody: a caller that defers is
-- refused, with an end no earlier than that, and any other waits.
pub impose_cooldown-closes :
    (key : String) (seconds : Option ℕ) (now clock : ℕ) (p : Pool) (c : Cooldowns)
    → clock < now + delay_for seconds (failures_of key p + 1)
    → (until : ℕ) × (now + delay_for seconds (failures_of key p + 1) ≤ until)
      × (provider_admission key true clock (impose_cooldown key seconds now (p, c)).1.1
          ≡ refused until)
      × (provider_admission key false clock (impose_cooldown key seconds now (p, c)).1.1 ≡ waits)
unfolding provider_admission
impose_cooldown-closes key seconds now clock p c h =
    let after = (impose_cooldown key seconds now (p, c)).1.1 in
    let until_is : provider_cooldown_until key after
        ≡ maximum (provider_cooldown_until key c)
            (now + delay_for seconds (failures_of key p + 1)) =
      (impose_cooldown-until key key seconds now p c).1 ∙ rw (eq_refl key) refl in
    let closed : leb (provider_cooldown_until key after) clock ≡ false =
      ground (arith, until_is, h) in
    (provider_cooldown_until key after, ground (arith, until_is), rw closed refl, rw closed refl)
