-- ===== src/Sources/Packing.antt =====
-- pipelines/source_segmentation.py: the loop that gathers items in groups, and gives up the current one when
-- the next item finds it full.
use knoarbor.Prelude.{
  ℕ, ◌+◌, ◌≤◌, ◌≡◌, refl, ap, ◌∙◌, Bool, true, false, ◌&&◌, not, List, [], ◌∷◌, ◌++◌, if◌then◌else◌,
  arith, Bool-cases, inl, inr, Every,
}
use mathlib.Core.List.{append_assoc}

abbrev pub is_nil {ℓ} : {A : Type ℓ} → List A → Bool
is_nil [] = true
is_nil (x ∷ xs) = false

-- The items of all groups, in order.
unfoldable pub concat {ℓ} : {A : Type ℓ} → List (List A) → List A
concat [] = []
concat (xs ∷ xss) = xs ++ concat xss

module _ {ℓ} {A : Type ℓ} (size : A → ℕ) where
  -- The sum of the sizes of a group.
  unfoldable pub total : List A → ℕ
  total [] = 0
  total (x ∷ xs) = size x + total xs

  pub total-append : (xs ys : List A) → total (xs ++ ys) ≡ total xs + total ys
  unfolding total
  total-append [] ys = omega arith
  total-append (x ∷ xs) ys = omega (arith, total-append xs ys)

module _ {ℓ} {A : Type ℓ} (size : A → ℕ) (is_full : ℕ → A → Bool) where
  -- The rest of the loop: `current` is the group so far and `current_len` the sum of its sizes.
  unfoldable pub pack_from : List A → ℕ → List A → List (List A)
  pack_from current current_len [] = if is_nil current then [] else current ∷ []
  pack_from current current_len (x ∷ xs) =
      let flushed = pack_from (x ∷ []) (size x) xs in
      let longer = pack_from (current ++ x ∷ []) (current_len + size x) xs in
      if not (is_nil current) && is_full current_len x then current ∷ flushed else longer

  unfoldable pub pack : List A → List (List A)
  unfolding pack_from
  pack = pack_from [] 0

  concat-pack_from :
      (current : List A) (len : ℕ) (xs : List A) → concat (pack_from current len xs) ≡ current ++ xs
  unfolding pack_from concat
  concat-pack_from [] len [] = refl
  concat-pack_from (y ∷ ys) len [] = refl
  concat-pack_from current len (x ∷ xs) =
      elim (Bool-cases (not (is_nil current) && is_full len x)) [
        | inl full ↦ rw full (ap (◌++◌ current) (concat-pack_from (x ∷ []) (size x) xs))
        | inr room ↦ rw room (
            concat-pack_from (current ++ x ∷ []) (len + size x) xs
            ∙ append_assoc current (x ∷ []) xs)
      ]

  -- Grouping neither loses an item nor moves one.
  pub concat-pack : (xs : List A) → concat (pack xs) ≡ xs
  unfolding pack
  concat-pack xs = concat-pack_from [] 0 xs

  -- No group is empty.
  pack_from-filled :
      (current : List A) (len : ℕ) (xs : List A)
      → Every (λ g. is_nil g ≡ false) (pack_from current len xs)
  unfolding pack_from
  pack_from-filled [] len [] = tt
  pack_from-filled (y ∷ ys) len [] = (refl, tt)
  pack_from-filled current len (x ∷ xs) =
      elim (Bool-cases (not (is_nil current) && is_full len x)) [
        | inl full ↦ rw full (ground (arith, full), pack_from-filled (x ∷ []) (size x) xs)
        | inr room ↦ rw room (pack_from-filled (current ++ x ∷ []) (len + size x) xs)
      ]

  pub pack-filled : (xs : List A) → Every (λ g. is_nil g ≡ false) (pack xs)
  unfolding pack
  pack-filled xs = pack_from-filled [] 0 xs

  -- Where a group that is not full has room for an item, no group outgrows the limit.
  module _ (limit : ℕ)
      (room : (len : ℕ) (x : A) → is_full len x ≡ false → len + size x ≤ limit) where
    pack_from-sized :
        (current : List A) (len : ℕ) (xs : List A)
        → len ≡ total size current
        → total size current ≤ limit
        → Every (λ x. size x ≤ limit) xs
        → Every (λ g. total size g ≤ limit) (pack_from current len xs)
    unfolding pack_from total
    pack_from-sized [] len [] e h all = tt
    pack_from-sized (y ∷ ys) len [] e h all = (h, tt)
    pack_from-sized [] len (x ∷ xs) e h all =
        pack_from-sized (x ∷ []) (len + size x) xs (omega arith) (omega (arith, all.0)) all.1
    pack_from-sized (y ∷ ys) len (x ∷ xs) e h all = elim (Bool-cases (is_full len x)) [
      | inl full ↦
          rw full
            (h, pack_from-sized (x ∷ []) (size x) xs (omega arith) (omega (arith, all.0)) all.1)
      | inr fits ↦ rw fits (
          pack_from-sized ((y ∷ ys) ++ x ∷ []) (len + size x) xs
            (rw (total-append size (y ∷ ys) (x ∷ [])) (unfold total in omega arith))
            (rw (total-append size (y ∷ ys) (x ∷ []))
              (unfold total in omega (arith, room len x fits)))
            all.1)
    ]

    pub pack-sized :
        (xs : List A) → Every (λ x. size x ≤ limit) xs → Every (λ g. total size g ≤ limit) (pack xs)
    unfolding pack total
    pack-sized xs all = pack_from-sized [] 0 xs refl (omega arith) all

  -- Each group but the last was full for the first item of the next one.
  abbrev pub Forced : List (List A) → Type 0
  Forced [] = Unit
  Forced (g ∷ []) = Unit
  Forced (g ∷ [] ∷ gs) = ⊥
  Forced (g ∷ (x ∷ xs) ∷ gs) = (is_full (total size g) x ≡ true) × Forced ((x ∷ xs) ∷ gs)

  pack_from-Forced :
      (y : A) (ys : List A) (len : ℕ) (xs : List A)
      → len ≡ total size (y ∷ ys)
      → (zs : List A) × (gs : List (List A)) × (pack_from (y ∷ ys) len xs ≡ (y ∷ zs) ∷ gs)
        × Forced ((y ∷ zs) ∷ gs)
  unfolding pack_from total
  pack_from-Forced y ys len [] e = (ys, [], refl, tt)
  pack_from-Forced y ys len (x ∷ xs) e = elim (Bool-cases (is_full len x)) [
    | inl full ↦
        let (zs, gs, is_packed, forced) = pack_from-Forced x [] (size x) xs (omega arith) in
        (ys, (x ∷ zs) ∷ gs, rw full (ap (◌∷◌ (y ∷ ys)) is_packed), (rw e at full, forced))
    | inr fits ↦ rw fits (
        pack_from-Forced y (ys ++ x ∷ []) (len + size x) xs
          (rw (total-append size ys (x ∷ [])) (unfold total in omega arith)))
  ]

  pub pack-Forced : (xs : List A) → Forced (pack xs)
  unfolding pack pack_from total
  pack-Forced [] = tt
  pack-Forced (x ∷ xs) =
      let (zs, gs, is_packed, forced) = pack_from-Forced x [] (0 + size x) xs (omega arith) in
      rw (pack_from, is_packed) forced
