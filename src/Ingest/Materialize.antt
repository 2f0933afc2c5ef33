-- ===== src/Ingest/Materialize.antt =====
-- runtime/transactional_ingest.py: the one row of `materialization_state`, which fences the
-- rebuild of indexes and pages by an epoch and the digest of the active facts.
use knoarbor.Prelude.{
  ℕ, ◌+◌, String, Bool, true, false, Option, none, some, List, ◌&&◌, str_eq, Result, ok, ◌>>◌,
  require, storage_conflict, if◌then◌else◌, ◌==◌,
}
use knoarbor.Ingest.State.{
  Store, Token, Phase, Materialization, clean, dirty, building, prepared, active_facts,
}

abbrev pub Digest : Type 0
Digest = List (String × String) → String

-- `_request_materialization`; `digest` is `_active_fact_generation` of the selected rows.
unfoldable pub request_materialization : Digest → ℕ → Store → Token × Store
request_materialization digest now s =
    let epoch = s.materialization.requested_epoch + 1 in
    let generation = digest (active_facts s) in
    (
      record { requested_epoch = epoch; fact_generation = generation },
      record s {
        materialization = record s.materialization {
          requested_epoch = epoch;
          requested_fact_generation = generation;
          phase = dirty;
          prepared_index_generation = none;
          prepared_wiki_fingerprint = none;
          error = none;
          updated_at = now;
        };
      },
    )

abbrev pub is_clean : Phase → Bool
is_clean clean = true
is_clean _ = false

abbrev pub is_prepared : Phase → Bool
is_prepared prepared = true
is_prepared _ = false

unfoldable pub begin_materialization : ℕ → Store → Option Token × Store
begin_materialization now s =
    let m = s.materialization in
    if is_clean m.phase && m.published_epoch == m.requested_epoch then (none, s) else (
      some (record {
        requested_epoch = m.requested_epoch;
        fact_generation = m.requested_fact_generation;
      }),
      record s {
        materialization = record m {
          phase = building;
          error = none;
          prepared_index_generation = none;
          prepared_wiki_fingerprint = none;
          updated_at = now;
        };
      },
    )

-- `requested_epoch=? and requested_fact_generation=?`.
abbrev pub is_current : Token → Materialization → Bool
is_current token m =
    m.requested_epoch == token.requested_epoch
    && str_eq m.requested_fact_generation token.fact_generation

unfoldable pub mark_prepared : String → String → ℕ → Store → Store
mark_prepared index wiki now s = record s {
  materialization = record s.materialization {
    phase = prepared;
    prepared_index_generation = some index;
    prepared_wiki_fingerprint = some wiki;
    error = none;
    updated_at = now;
  };
}

unfoldable pub prepare_materialization :
    Token → String → String → ℕ → Store → Result (Unit {0} × Store)
prepare_materialization token index wiki now s = do
  require (is_current token s.materialization)
      (storage_conflict "Materialization token changed before preparation.")
  ok (tt, mark_prepared index wiki now s)

-- `str(column or "") == text`.
abbrev pub column_is : Option String → String → Bool
column_is none v = str_eq "" v
column_is (some c) v = str_eq c v

unfoldable pub mark_published : Bool → Token → String → String → ℕ → Store → Store
mark_published current token index wiki now s = record s {
  materialization = record s.materialization {
    published_epoch = token.requested_epoch;
    published_fact_generation = some token.fact_generation;
    published_index_generation = some index;
    published_wiki_fingerprint = some wiki;
    phase = if current then clean else dirty;
    prepared_index_generation = none;
    prepared_wiki_fingerprint = none;
    error = none;
    updated_at = now;
  };
}

unfoldable pub finish_materialization : Token → String → String → ℕ → Store → Result (Bool × Store)
finish_materialization token index wiki now s = do
  let m = s.materialization
  require
      (is_prepared m.phase
        && column_is m.prepared_index_generation index
        && column_is m.prepared_wiki_fingerprint wiki)
      (storage_conflict "Prepared materialization generation changed before publication.")
  let current = is_current token m
  ok (current, mark_published current token index wiki now s)

unfoldable pub fail_materialization : Token → String → ℕ → Store → Store
fail_materialization token error now s =
    if is_current token s.materialization
    then record s {
      materialization = record s.materialization {
        phase = Phase.failed;
        error = some error;
        updated_at = now;
      };
    }
    else s
