-- ===== src/Conversation/Pagination.antt =====
-- The pages of the conversation list (frontend/src/conversations/pagination.ts).
use ichat.Base.{ℕ, Bool, ◌==◌}

-- `CONVERSATION_PAGE_SIZE`.
abbrev pub conversation_page_size : ℕ
conversation_page_size = 30

-- `hasMoreConversationPages`.
unfoldable pub has_more_conversation_pages : ℕ → Bool
has_more_conversation_pages count = count == conversation_page_size
