-- ===== src/Json.antt =====
-- JSON values as runtime/transactional_ingest.py, runtime/recovery.py and runtime/result_policy.py
-- read them: `dict.get`, `isinstance` tests and the identity test `is True`. A text column that
-- holds canonical JSON is modelled by the value that `json.loads` reads from it.
use knoarbor.Prelude.{not, ltb, ℕ, String, Bool, true, false, ◌||◌, str_eq, if◌then◌else◌}

mutual
  pub data Json : Type 0 where
    null : Json
    boolean : Bool → Json
    number : ℕ → Json
    text : String → Json
    array : Items → Json
    object : Fields → Json

  pub data Items : Type 0 where
    nil : Items
    cons : Json → Items → Items

  pub data Fields : Type 0 where
    end : Fields
    field : String → Json → Fields → Fields

-- `value if isinstance(value, dict) else {}`.
unfoldable pub fields : Json → Fields
fields (object fs) = fs
fields _ = end

-- `d.get(key)`: a missing key gives `None`, which is also JSON's null.
unfoldable pub get : String → Fields → Json
get k end = null
get k (field j v fs) = if str_eq j k then v else get k fs

-- `value is True`.
unfoldable pub is_true : Json → Bool
is_true (boolean b) = b
is_true _ = false

unfoldable pub is_object : Json → Bool
is_object (object fs) = true
is_object _ = false

-- `isinstance(value, list) and any(test(item) for item in value)`.
unfoldable pub any_item : (Json → Bool) → Items → Bool
any_item test nil = false
any_item test (cons v vs) = test v || any_item test vs

unfoldable pub any_in : (Json → Bool) → Json → Bool
unfolding any_item
any_in test (array vs) = any_item test vs
any_in test _ = false

-- `d[key] = value`.
unfoldable pub set_field : String → Json → Fields → Fields
set_field k v end = field k v end
set_field k v (field j w fs) = if str_eq j k then field j v fs else field j w (set_field k v fs)

-- `bool(value)`.
abbrev pub is_truthy : Json → Bool
is_truthy null = false
is_truthy (boolean b) = b
is_truthy (number n) = ltb 0 n
is_truthy (text s) = not (str_eq s "")
is_truthy (array nil) = false
is_truthy (array (cons v vs)) = true
is_truthy (object end) = false
is_truthy (object (field k v fs)) = true
