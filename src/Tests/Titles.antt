-- ===== src/Tests/Titles.antt =====
-- Awaited titles on concrete entries.
use ichat.Base.{ℕ, List, [], ◌∷◌, Text, codes}
use ichat.App.Store.{AppState, initial_state}
use ichat.Tests.Data.{index}

abbrev state : AppState
state = record initial_state {
  conversation_index = record index { pending_title_ids = codes "a" ∷ codes "b" ∷ [] };
}

abbrev entries : List (Text × ℕ)
entries = (codes "a", 100) ∷ []
