-- ===== src/Chat/Selecting.antt =====
-- retrieval/evidence_selection.py: which candidates are selected, and how that is explained.
use Prim.Native.String.{String}
use knoarbor.Prelude.{
  ◌≡◌, refl, ap, ◌∙◌, Bool, true, false, not, List, [], ◌∷◌, if◌then◌else◌, ◌==◌, map, keep, any,
  length, arith, Bool-cases, inl, inr, Option, none, some, str_eq,
}
use mathlib.Core.Option
use knoarbor.Table.{Table, lookup, upsert, lookup-upsert}
use knoarbor.Sources.Packing.{is_nil}
use knoarbor.Chat.Evidence.{
  Endpoint, EvidenceSignal, EvidenceHandle, EvidenceSelectionCandidate, EvidenceSelectionDecision,
  is_exact, valid_spans, insert_sorted, channels, span_count, traces_of, unique_from, handles_of,
  candidate_traces, select_structural_evidence, explanation, explain_from,
  explain_structural_evidence,
}

abbrev has_exact : EvidenceSignal → Bool
has_exact s = any is_exact s.matched_spans

-- Independently of channels and traces: some signal of some handle has a span with a start before its
-- end.
abbrev pub is_backed : EvidenceSelectionCandidate → Bool
is_backed candidate =
    any (λ (h : String × EvidenceHandle). any has_exact h.1) (handles_of candidate)

valid_spans-any :
    (spans : List (Endpoint × Endpoint)) → is_nil (valid_spans spans) ≡ not (any is_exact spans)
valid_spans-any [] = refl
valid_spans-any (s ∷ ss) = elim (Bool-cases (is_exact s)) [
  | inl exact ↦ rw exact refl
  | inr other ↦ rw other (valid_spans-any ss)
]

insert_sorted-filled : (c : String) (ds : List String) → is_nil (insert_sorted c ds) ≡ false
unfolding insert_sorted
insert_sorted-filled c [] = refl
insert_sorted-filled c (d ∷ ds) = ground arith

-- The channels of a handle and its number of spans agree on whether it has an exact span.
channels-any : (h : EvidenceHandle) → is_nil (channels h) ≡ not (any has_exact h)
unfolding channels
channels-any [] = refl
channels-any (s ∷ ss) = elim (Bool-cases (has_exact s)) [
  | inl exact ↦
      let found : is_nil (valid_spans s.matched_spans) ≡ false =
        rw exact at (valid_spans-any s.matched_spans) in
      rw (found, exact) (insert_sorted-filled s.channel (channels ss))
  | inr other ↦
      let none_here : is_nil (valid_spans s.matched_spans) ≡ true =
        rw other at (valid_spans-any s.matched_spans) in
      rw (none_here, other) (channels-any ss)
]

length-nil : {A : Type 0} (xs : List A) → (length xs == 0) ≡ is_nil xs
length-nil [] = refl
length-nil (x ∷ xs) = ground arith

span_count-any : (h : EvidenceHandle) → (span_count h == 0) ≡ not (any has_exact h)
unfolding span_count
span_count-any [] = refl
span_count-any (s ∷ ss) =
    let here : (length (valid_spans s.matched_spans) == 0) ≡ not (has_exact s) =
      length-nil (valid_spans s.matched_spans) ∙ valid_spans-any s.matched_spans in
    let later = span_count-any ss in ground (arith, here, later)

traces_of-any :
    (hs : List (String × EvidenceHandle))
    → is_nil (traces_of hs) ≡ not (any (λ (h : String × EvidenceHandle). any has_exact h.1) hs)
unfolding traces_of
traces_of-any [] = refl
traces_of-any ((q, h) ∷ hs) = elim (Bool-cases (any has_exact h)) [
  | inl exact ↦ rw (channels-any h, span_count-any h, exact) refl
  | inr other ↦ rw (channels-any h, span_count-any h, other) (traces_of-any hs)
]

unique_from-nil : (ts : List String) → is_nil (unique_from [] ts) ≡ is_nil ts
unfolding unique_from
unique_from-nil [] = refl
unique_from-nil (t ∷ ts) = refl

candidate_traces-is_backed :
    (c : EvidenceSelectionCandidate) → is_nil (candidate_traces c) ≡ not (is_backed c)
unfolding candidate_traces
candidate_traces-is_backed c =
    unique_from-nil (traces_of (handles_of c)) ∙ traces_of-any (handles_of c)

abbrev pub chosen : EvidenceSelectionCandidate → EvidenceSelectionDecision
chosen c = record { key = c.key; reasons = candidate_traces c }

-- What the explanation of a candidate should be.
abbrev pub reasons_of : EvidenceSelectionCandidate → List String
reasons_of c =
    if is_backed c
    then candidate_traces c
    else "structural_evidence.v1:decision=rejected:reason=no_exact_span" ∷ []

-- The last candidate with a key, or the one given.
abbrev pub last_with :
    String
    → Option EvidenceSelectionCandidate
    → List EvidenceSelectionCandidate
    → Option EvidenceSelectionCandidate
last_with key found [] = found
last_with key found (c ∷ cs) = last_with key (if str_eq c.key key then some c else found) cs

explanation-reasons_of : (c : EvidenceSelectionCandidate) → explanation c ≡ reasons_of c
unfolding explanation
explanation-reasons_of c = elim (Bool-cases (is_backed c)) [
  | inl backed ↦
      let traced : is_nil (candidate_traces c) ≡ false =
        rw backed at (candidate_traces-is_backed c) in
      rw (traced, backed) refl
  | inr other ↦
      let none_found : is_nil (candidate_traces c) ≡ true =
        rw other at (candidate_traces-is_backed c) in
      rw (none_found, other) refl
]

lookup-explain_from :
    (key : String) (found : Option EvidenceSelectionCandidate) (out : Table (List String))
    (cs : List EvidenceSelectionCandidate)
    → lookup key out ≡ Option.map reasons_of found
    → lookup key (explain_from out cs) ≡ Option.map reasons_of (last_with key found cs)
unfolding explain_from
lookup-explain_from key found out [] h = h
lookup-explain_from key found out (c ∷ cs) h =
    let written = lookup-upsert c.key key (explanation c) out in
    elim (Bool-cases (str_eq c.key key)) [
      | inl here ↦ rw here (
          lookup-explain_from key (some c) (upsert c.key (explanation c) out) cs
            (rw (written, here, explanation-reasons_of c) refl))
      | inr other ↦ rw other (
          lookup-explain_from key found (upsert c.key (explanation c) out) cs
            (rw (written, other) h))
    ]

select-chosen :
    (cs : List EvidenceSelectionCandidate)
    → select_structural_evidence cs ≡ map chosen (keep is_backed cs)
unfolding select_structural_evidence
select-chosen [] = refl
select-chosen (c ∷ cs) = elim (Bool-cases (is_backed c)) [
  | inl backed ↦
      let traced : is_nil (candidate_traces c) ≡ false =
        rw backed at (candidate_traces-is_backed c) in
      rw (traced, backed) (ap (◌∷◌ (chosen c)) (select-chosen cs))
  | inr other ↦
      let none_found : is_nil (candidate_traces c) ≡ true =
        rw other at (candidate_traces-is_backed c) in
      rw (none_found, other) (select-chosen cs)
]

-- The decisions are those of the candidates that an exact span backs, in their order, each with the
-- traces of its candidate. The explanation has, for a key, what the last candidate with that key gives: its
-- traces if an exact span backs it, a rejection otherwise; and nothing for a key that no candidate has.
pub select_structural_evidence-is_backed :
    (cs : List EvidenceSelectionCandidate)
    → (select_structural_evidence cs ≡ map chosen (keep is_backed cs))
      × ((key : String)
          → lookup key (explain_structural_evidence cs)
            ≡ Option.map reasons_of (last_with key none cs))
unfolding explain_structural_evidence lookup
select_structural_evidence-is_backed cs =
    (select-chosen cs, λ key. lookup-explain_from key none [] cs refl)
