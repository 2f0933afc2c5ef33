-- ===== src/Run/Display.antt =====
-- runtime/run_monitor.py: `_compact_display_text`, which fits a text on one line of the display.
use Prim.Native.Char.{code}
use Prim.Native.String.{String, [], ◌∷◌, ◌++◌, count}
use knoarbor.Text.{is_space, is_empty, prefix, rstrip, count-prefix, count-rstrip, count-append}
use knoarbor.Prelude.{ℕ, ◌≤◌, leb, List, [], ◌∷◌, if◌then◌else◌, arith, Bool-cases, inl, inr}

-- `text.split()`; `word` is the word that the loop is in.
unfoldable pub words_from : String → String → List String
words_from word [] = if is_empty word then [] else word ∷ []
words_from word (c ∷ s) =
    let closed = words_from "" s in
    let longer = words_from (word ++ (c ∷ [])) s in
    if is_space (code c) then (if is_empty word then closed else word ∷ closed) else longer

-- `" ".join(words)`.
unfoldable pub join_words : List String → String
join_words [] = ""
join_words (w ∷ []) = w
join_words (w ∷ v ∷ vs) = w ++ (" " ++ join_words (v ∷ vs))

abbrev pub max_chars : ℕ
max_chars = 180

unfoldable pub compact_display_text : String → String
unfolding words_from join_words prefix rstrip
compact_display_text text =
    let normalized = join_words (words_from "" text) in
    if leb (count normalized) max_chars then normalized else rstrip (prefix 179 normalized) ++ "…"

-- A text for the display has at most 180 characters, whatever it was.
pub count-compact_display_text : (text : String) → count (compact_display_text text) ≤ 180
unfolding compact_display_text
count-compact_display_text text =
    let normalized = join_words (words_from "" text) in
    elim (Bool-cases (leb (count normalized) max_chars)) [
      | inl fits ↦ rw fits (ground (arith, fits))
      | inr long ↦ rw long (
          omega (
            arith,
            count-append (rstrip (prefix 179 normalized)) "…",
            count-rstrip (prefix 179 normalized),
            count-prefix 179 normalized,
          ))
    ]
