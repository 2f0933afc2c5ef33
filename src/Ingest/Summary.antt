-- ===== src/Ingest/Summary.antt =====
-- runtime/ingest_executor.py: `_result_summary`, what the store and the record of a run keep of the
-- result of an ingest.
use knoarbor.Prelude.{ℕ, zero, suc, String, Bool, false, ◌||◌, List, [], ◌∷◌, str_eq, if◌then◌else◌}
use knoarbor.Json.{
  Json, Items, Fields, number, array, object, nil, cons, end, field, get, fields, set_field,
}
use knoarbor.Run.Monitor.{merge_fields}
use knoarbor.Run.Policy.{is_text}

-- `key in payload`.
unfoldable has_key : String → Fields → Bool
has_key k end = false
has_key k (field j v fs) = str_eq j k || has_key k fs

-- `{key: payload[key] for key in keys if key in payload}`.
unfoldable pub picked : List String → Fields → Fields
unfolding has_key
picked [] payload = end
picked (k ∷ ks) payload =
    let rest = picked ks payload in if has_key k payload then field k (get k payload) rest else rest

-- `{key: item.get(key) for key in keys}`.
unfoldable pub looked_up : List String → Fields → Fields
looked_up [] item = end
looked_up (k ∷ ks) item = field k (get k item) (looked_up ks item)

unfoldable pub item_count : Items → ℕ
item_count nil = zero
item_count (cons v vs) = suc (item_count vs)

abbrev failure_keys : List String
failure_keys =
    "source_id" ∷ "source_file" ∷ "error_stage" ∷ "error_code" ∷ "error_category"
    ∷ "error_retryable" ∷ "error_hint" ∷ "error_type" ∷ "error_message" ∷ []

-- The row of a compilation in front of those of the other items.
abbrev add_compilation : Fields → Json → Items → Items
add_compilation item (object compilation) rest =
    cons (object (merge_fields (field "source_id" (get "source_id" item) end) compilation)) rest
add_compilation item _ rest = rest

unfoldable pub compilations : Items → Items
compilations nil = nil
compilations (cons (object item) vs) =
    let index_metadata = fields (get "index_metadata" (fields (get "context" item))) in
    add_compilation item (get "compilation" index_metadata) (compilations vs)
compilations (cons _ vs) = compilations vs

unfoldable pub failures : Items → Items
unfolding looked_up
failures nil = nil
failures (cons (object item) vs) =
    let rest = failures vs in
    if is_text "failed" (get "status" item) || is_text "partial" (get "status" item)
    then cons (object (looked_up failure_keys item)) rest
    else rest
failures (cons _ vs) = failures vs

-- `if values: summary[key] = values`.
abbrev put_items : String → Items → Fields → Fields
put_items key nil summary = summary
put_items key vs summary = set_field key (array vs) summary

abbrev with_results : Json → Fields → Fields
with_results (array results) summary = put_items "failures" (failures results) (
    put_items "index_metadata_compilations" (compilations results)
      (set_field "result_count" (number (item_count results)) summary))
with_results _ summary = summary

-- `_result_summary`; `payload` is what `result.model_dump(mode="json")` gives.
unfoldable pub result_summary : Fields → Fields
unfolding picked
result_summary payload =
    with_results (get "results" payload)
      (picked ("stats" ∷ "report_path" ∷ "ledger_path" ∷ []) payload)
