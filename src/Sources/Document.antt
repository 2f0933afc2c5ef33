-- ===== src/Sources/Document.antt =====
-- core/schemas/sources.py: the source document that connectors hand over, with the fields that its
-- segmentation reads.
use knoarbor.Prelude.{ℕ, String, Bool, true, false, Option, List}
use knoarbor.Json.{Fields}

pub data SourceType : Type 0 where
  hermes_chat codex_chat openclaw_chat claude_code_chat knoarbor_chat generic_chat : SourceType
  markdown document web plain_text excerpt dataset : SourceType

pub data ContentFormat : Type 0 where
  markdown plain_text json html : ContentFormat

pub record SourceContent : Type 0 where
  pub format : ContentFormat
  pub text : String
  pub sections : List Fields
  pub attachments : List Fields

pub record SourceDocument : Type 0 where
  pub source_id : String
  pub source_type : SourceType
  pub raw_path : String
  pub original_path : Option String
  pub content : SourceContent
  pub metadata : Fields
  pub content_hash : String
  pub connector_version : String
  pub parser_version : Option String
  pub from_index : Option ℕ
  pub to_index : Option ℕ

-- Membership in the set of chat types, which `_blocks` and `CHAT_SOURCE_TYPES` both spell out.
abbrev pub is_chat : SourceType → Bool
is_chat hermes_chat = true
is_chat codex_chat = true
is_chat openclaw_chat = true
is_chat claude_code_chat = true
is_chat knoarbor_chat = true
is_chat generic_chat = true
is_chat _ = false
