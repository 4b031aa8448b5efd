-- ===== src/Tests/Data.antt =====
-- Concrete values for the tests: a session of a few conversations, runs, messages and models.
use ichat.Base.{ℕ, true, false, Option, none, some, List, [], ◌∷◌, Text, codes}
use ichat.Api.Types.{
  ConversationActiveRun, ConversationResponse, MessageResponse, MessageRole, RunStatus,
  RunToolSource, RunToolState, ToolStatus, ChatModelCapability,
}
use ichat.Conversation.Index.{ConversationIndexState, ListStatus}
use ichat.Run.State.{ActiveRun, RunStreamPhase}

-- A date is the number of its single unit; an empty text is no date.
abbrev pub unit_date : Text → Option ℕ
unit_date [] = none
unit_date (c ∷ s) = some c

abbrev pub row : Text → Option Text → Text → Option ConversationActiveRun → ConversationResponse
row id pinned_at updated_at run = record {
  id = id;
  title = some (codes "t");
  activated_at = none;
  pinned_at = pinned_at;
  favorited_at = none;
  created_at = codes "1";
  updated_at = updated_at;
  deleted_at = none;
  deletion_due_at = none;
  active_run = run;
}

abbrev pub run_one : ConversationActiveRun
run_one = record { id = codes "r"; status = RunStatus.streaming }

abbrev pub row_a : ConversationResponse
row_a = row (codes "a") none (codes "5") (some run_one)

abbrev pub row_b : ConversationResponse
row_b = row (codes "b") none (codes "3") none

abbrev pub row_p : ConversationResponse
row_p = row (codes "p") (some (codes "2")) (codes "2") none

abbrev pub index : ConversationIndexState
index = record {
  items = row_a ∷ row_b ∷ [];
  pinned_items = row_p ∷ [];
  selected_id = some (codes "b");
  draft_id = none;
  pending_title_ids = [];
  unread_ids = codes "a" ∷ [];
  status = ListStatus.idle;
  has_more = true;
}

abbrev pub source : ℕ → RunToolSource
source id = record {
  id = id;
  title = codes "s";
  url = codes "u";
  snippet = none;
  published_at = none;
}

abbrev pub found : RunToolState
found = record {
  status = ToolStatus.succeeded;
  tool_name = codes "search";
  query = none;
  message = none;
  result_count = some 2;
  sources = source 1 ∷ source 2 ∷ source 1 ∷ [];
  running_count = none;
  batch_source_count = none;
}

abbrev pub run : ActiveRun
run = record {
  run_id = codes "r";
  conversation_id = codes "a";
  provider_name = none;
  latest_seq = 4;
  draft_text = codes "Hi";
  draft_reasoning = [];
  draft_reasoning_summary = [];
  stream_phase = RunStreamPhase.tool;
  tool_state = some found;
  draft_sources = source 1 ∷ [];
  status = RunStatus.streaming;
  cancel_requested = false;
}

abbrev pub message : Text → MessageRole → Option Text → MessageResponse
message id role run_id = record {
  id = id;
  conversation_id = codes "a";
  run_id = run_id;
  role = role;
  content = codes "m";
  reasoning = none;
  reasoning_summary = none;
  metadata = none;
  attachments = none;
  reply_quote = none;
  timing = none;
  position = 0;
  created_at = codes "1";
}

abbrev pub model : Text → List Text → ChatModelCapability
model id levels = record {
  id = id;
  provider = codes "x";
  label = id;
  thinking_levels = levels;
  supports_reasoning_summary = none;
  default = false;
  supports_image_input = true;
}
