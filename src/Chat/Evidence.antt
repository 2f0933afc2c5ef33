-- ===== src/Chat/Evidence.antt =====
-- retrieval/evidence_selection.py: which candidates an exact span backs, and why.
use Prim.Native.Nat.{Ordering}
use Prim.Native.String.{String, ◌++◌, compare}
use knoarbor.Prelude.{
  ℕ, ◌+◌, Bool, false, ◌||◌, List, [], ◌∷◌, if◌then◌else◌, ltb, ◌==◌, map, keep, any, str_eq,
  length,
}
use knoarbor.Text.{join}
use knoarbor.Table.{Table, upsert}
use knoarbor.Sources.Packing.{is_nil}
use knoarbor.Sources.Printing.{decimal}

-- An end of a span, as the code tells them apart: an integer that is not negative, a negative one, and
-- what is no integer.
pub data Endpoint : Type 0 where
  at : ℕ → Endpoint
  below_zero : Endpoint
  no_integer : Endpoint

pub record EvidenceSignal : Type 0 where
  pub channel : String
  pub matched_spans : List (Endpoint × Endpoint)

abbrev pub EvidenceHandle : Type 0
EvidenceHandle = List EvidenceSignal

pub record EvidenceSelectionCandidate : Type 0 where
  pub key : String
  pub handle : EvidenceHandle
  pub query_ids : List String
  pub handles_by_query : List (String × EvidenceHandle)

pub record EvidenceSelectionDecision : Type 0 where
  pub key : String
  pub reasons : List String

-- `isinstance(start, int) and isinstance(end, int) and 0 <= start < end`.
abbrev pub is_exact : Endpoint × Endpoint → Bool
is_exact (at start, at end) = ltb start end
is_exact _ = false

-- `_valid_spans`.
abbrev pub valid_spans : List (Endpoint × Endpoint) → List (Endpoint × Endpoint)
valid_spans = keep is_exact

-- Insertion in a sorted list without repetitions.
unfoldable pub insert_sorted : String → List String → List String
insert_sorted c [] = c ∷ []
insert_sorted c (d ∷ ds) = elim (compare c d) [
  | Ordering.lt ↦ c ∷ d ∷ ds
  | Ordering.eq ↦ d ∷ ds
  | Ordering.gt ↦ d ∷ insert_sorted c ds
]

-- `sorted({signal.channel for signal in handle.signals if _valid_spans(signal.matched_spans)})`.
unfoldable pub channels : EvidenceHandle → List String
unfolding insert_sorted
channels [] = []
channels (signal ∷ signals) =
    let rest = channels signals in
    if is_nil (valid_spans signal.matched_spans) then rest else insert_sorted signal.channel rest

-- `sum(len(_valid_spans(signal.matched_spans)) for signal in handle.signals)`.
unfoldable pub span_count : EvidenceHandle → ℕ
span_count [] = 0
span_count (signal ∷ signals) = length (valid_spans signal.matched_spans) + span_count signals

abbrev pub trace : String → EvidenceHandle → String
trace query_id handle =
    "structural_evidence.v1:decision=selected:query="
    ++ (query_id
        ++ (":channels="
            ++ (join "," (channels handle) ++ (":spans=" ++ decimal (span_count handle)))))

unfoldable pub traces_of : List (String × EvidenceHandle) → List String
unfolding channels span_count
traces_of [] = []
traces_of ((query_id, handle) ∷ handles) =
    let rest = traces_of handles in
    if is_nil (channels handle) || span_count handle == 0
    then rest
    else trace query_id handle ∷ rest

-- `list(dict.fromkeys(values))`; `seen` holds the values that the loop has met.
unfoldable pub unique_from : List String → List String → List String
unique_from seen [] = []
unique_from seen (v ∷ vs) =
    let skipped = unique_from seen vs in
    let taken = v ∷ unique_from (v ∷ seen) vs in if any (str_eq v) seen then skipped else taken

-- `handles_by_query or tuple((query_id, handle) for query_id in query_ids)`.
abbrev pub handles_of : EvidenceSelectionCandidate → List (String × EvidenceHandle)
handles_of candidate =
    if is_nil candidate.handles_by_query
    then map (λ query_id. (query_id, candidate.handle)) candidate.query_ids
    else candidate.handles_by_query

-- `_candidate_traces`.
unfoldable pub candidate_traces : EvidenceSelectionCandidate → List String
unfolding traces_of unique_from
candidate_traces candidate = unique_from [] (traces_of (handles_of candidate))

unfoldable pub select_structural_evidence :
    List EvidenceSelectionCandidate → List EvidenceSelectionDecision
unfolding candidate_traces
select_structural_evidence [] = []
select_structural_evidence (candidate ∷ candidates) =
    let rest = select_structural_evidence candidates in
    let traces = candidate_traces candidate in
    if is_nil traces then rest else record { key = candidate.key; reasons = traces } ∷ rest

-- What `explain_structural_evidence` writes for a candidate.
unfoldable pub explanation : EvidenceSelectionCandidate → List String
unfolding candidate_traces
explanation candidate =
    let traces = candidate_traces candidate in
    if is_nil traces
    then "structural_evidence.v1:decision=rejected:reason=no_exact_span" ∷ []
    else traces

-- The loop, on the dict that it has written so far.
unfoldable pub explain_from :
    Table (List String) → List EvidenceSelectionCandidate → Table (List String)
unfolding explanation upsert
explain_from output [] = output
explain_from output (candidate ∷ candidates) =
    explain_from (upsert candidate.key (explanation candidate) output) candidates

unfoldable pub explain_structural_evidence : List EvidenceSelectionCandidate → Table (List String)
unfolding explain_from
explain_structural_evidence = explain_from []
