-- ===== src/Run/Payload.antt =====
-- runtime/run_monitor.py: `_event_safe_payload`, which keeps the text of sources out of the log.
use knoarbor.Prelude.{
  ◌≡◌, refl, ap, Bool, false, ◌||◌, str_eq, if◌then◌else◌, arith, Bool-cases, inl, inr,
}
use knoarbor.Json.{
  Json, Items, Fields, null, boolean, number, text, array, object, nil, cons, end, field,
}

unfoldable mutual
  pub event_safe_payload : Json → Json
  event_safe_payload (object fs) = object (safe_fields fs)
  event_safe_payload (array vs) = array (safe_items vs)
  event_safe_payload null = null
  event_safe_payload (boolean b) = boolean b
  event_safe_payload (number n) = number n
  event_safe_payload (text s) = text s

  pub safe_items : Items → Items
  safe_items nil = nil
  safe_items (cons v vs) = cons (event_safe_payload v) (safe_items vs)

  pub safe_fields : Fields → Fields
  safe_fields end = end
  safe_fields (field k v fs) =
      let rest = safe_fields fs in
      let safe = event_safe_payload v in if str_eq k "content" then rest else field k safe rest

-- Some object in the value, at any depth, has the key "content".
unfoldable mutual
  pub mentions : Json → Bool
  mentions (object fs) = mentions_fields fs
  mentions (array vs) = mentions_items vs
  mentions null = false
  mentions (boolean b) = false
  mentions (number n) = false
  mentions (text s) = false

  pub mentions_items : Items → Bool
  mentions_items nil = false
  mentions_items (cons v vs) = mentions v || mentions_items vs

  pub mentions_fields : Fields → Bool
  mentions_fields end = false
  mentions_fields (field k v fs) = str_eq k "content" || (mentions v || mentions_fields fs)

mutual
  unfolding mentions event_safe_payload

  safe-mentions : (v : Json) → mentions (event_safe_payload v) ≡ false
  safe-mentions (object fs) = safe_fields-mentions fs
  safe-mentions (array vs) = safe_items-mentions vs
  safe-mentions null = refl
  safe-mentions (boolean b) = refl
  safe-mentions (number n) = refl
  safe-mentions (text s) = refl

  safe_items-mentions : (vs : Items) → mentions_items (safe_items vs) ≡ false
  safe_items-mentions nil = refl
  safe_items-mentions (cons v vs) = ground (arith, safe-mentions v, safe_items-mentions vs)

  safe_fields-mentions : (fs : Fields) → mentions_fields (safe_fields fs) ≡ false
  safe_fields-mentions end = refl
  safe_fields-mentions (field k v fs) = elim (Bool-cases (str_eq k "content")) [
    | inl drops ↦ rw drops (safe_fields-mentions fs)
    | inr keeps ↦ rw (keeps, keeps, safe-mentions v) (safe_fields-mentions fs)
  ]

mutual
  unfolding mentions event_safe_payload

  clean-safe : (v : Json) → mentions v ≡ false → event_safe_payload v ≡ v
  clean-safe (object fs) h = ap object (clean-safe_fields fs h)
  clean-safe (array vs) h = ap array (clean-safe_items vs h)
  clean-safe null h = refl
  clean-safe (boolean b) h = refl
  clean-safe (number n) h = refl
  clean-safe (text s) h = refl

  clean-safe_items : (vs : Items) → mentions_items vs ≡ false → safe_items vs ≡ vs
  clean-safe_items nil h = refl
  clean-safe_items (cons v vs) h = ground (arith, clean-safe v, clean-safe_items vs)

  clean-safe_fields : (fs : Fields) → mentions_fields fs ≡ false → safe_fields fs ≡ fs
  clean-safe_fields end h = refl
  clean-safe_fields (field k v fs) h = ground (arith, clean-safe v, clean-safe_fields fs)

-- The payload of an event has no "content" key at any depth.
pub event_safe_payload-mentions : (v : Json) → mentions (event_safe_payload v) ≡ false
event_safe_payload-mentions = safe-mentions

-- A payload with no "content" key at any depth goes to the log as it is.
pub event_safe_payload-clean : (v : Json) → mentions v ≡ false → event_safe_payload v ≡ v
event_safe_payload-clean = clean-safe
