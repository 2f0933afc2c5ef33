-- ===== src/Sources/Printing.antt =====
-- `json.dumps(value, ensure_ascii=False)`, with and without `indent=2`, and the texts that `str` and
-- f-strings make of numbers and JSON values.
use Prim.Native.Char.{Char, code}
use Prim.Native.String.{String, [], ◌∷◌, ◌++◌}
use knoarbor.Prelude.{ℕ, zero, suc, ◌+◌, ◌/◌, ◌%◌, Option, none, some, ltb, ◌==◌, if◌then◌else◌}
use knoarbor.Json.{
  Json, Items, Fields, null, boolean, number, text, array, object, nil, cons, end, field, is_truthy,
}
use knoarbor.Text.{prefix, suffix}

digit : ℕ → String
unfolding prefix suffix
digit d = prefix 1 (suffix d "0123456789abcdef")

-- The fuel `n + 1` is more than the number of digits.
decimal_from : ℕ → ℕ → String
unfolding digit
decimal_from zero n = ""
decimal_from (suc fuel) n =
    let front = decimal_from fuel (n / 10) in if ltb n 10 then digit n else front ++ digit (n % 10)

unfoldable pub decimal : ℕ → String
unfolding decimal_from
decimal n = decimal_from (n + 1) n

-- A character inside a JSON text.
escape : Char → String
unfolding digit
escape c =
    let n = code c in
    if n == b'"'
    then "\\\""
    else if n == b'\\'
    then "\\\\"
    else if n == 8
    then "\\b"
    else if n == 9
    then "\\t"
    else if n == 10
    then "\\n"
    else if n == 12
    then "\\f"
    else if n == 13
    then "\\r"
    else if ltb n 32
    then "\\u00" ++ (digit (n / 16) ++ digit (n % 16))
    else c ∷ []

escape_all : String → String
unfolding escape
escape_all [] = ""
escape_all (c ∷ s) = escape c ++ escape_all s

quoted : String → String
unfolding escape_all
quoted s = "\"" ++ (escape_all s ++ "\"")

spaces : ℕ → String
spaces zero = ""
spaces (suc n) = "  " ++ spaces n

-- With `indent=2` a level of nesting, without it `none`.
abbrev pub Layout : Type 0
Layout = Option ℕ

abbrev deeper : Layout → Layout
deeper none = none
deeper (some level) = some (level + 1)

line : Layout → String
unfolding spaces
line none = ""
line (some level) = "\n" ++ spaces level

-- What stands between two items.
between : Layout → String
unfolding line
between none = ", "
between (some level) = "," ++ line (some level)

unfoldable mutual
  unfolding quoted line between decimal

  pub dumps : Layout → Json → String
  dumps l null = "null"
  dumps l (boolean b) = if b then "true" else "false"
  dumps l (number n) = decimal n
  dumps l (text s) = quoted s
  dumps l (array nil) = "[]"
  dumps l (array (cons v vs)) =
      "["
      ++ (line (deeper l) ++ (dumps (deeper l) v ++ (dump_items (deeper l) vs ++ (line l ++ "]"))))
  dumps l (object end) = "{}"
  dumps l (object (field k v fs)) =
      "{"
      ++ (line (deeper l)
          ++ (quoted k
              ++ (": " ++ (dumps (deeper l) v ++ (dump_fields (deeper l) fs ++ (line l ++ "}"))))))

  pub dump_items : Layout → Items → String
  dump_items l nil = ""
  dump_items l (cons v vs) = between l ++ (dumps l v ++ dump_items l vs)

  pub dump_fields : Layout → Fields → String
  dump_fields l end = ""
  dump_fields l (field k v fs) =
      between l ++ (quoted k ++ (": " ++ (dumps l v ++ dump_fields l fs)))

-- `str(value)`, where `repr` is what it gives for a list or a dict.
unfoldable pub to_text : (Json → String) → Json → String
to_text repr null = "None"
to_text repr (boolean b) = if b then "True" else "False"
to_text repr (number n) = decimal n
to_text repr (text s) = s
to_text repr v = repr v

-- `first or second`.
unfoldable pub or_value : Json → Json → Json
or_value first second = if is_truthy first then first else second
