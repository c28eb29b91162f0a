-- ===== src/Visibility/Tests.antt =====
-- Runs of the statistics.
use isartor.Common.{
  Text, codes, Bool, true, false, none, List, [], ◌∷◌, length, take, min, ◌≡◌, refl, arith,
}
use isartor.Visibility.{
  PromptVisibilityEntry, AgentVisibilityState, default_state, update, record_entry, snapshot,
  record_agent_retry, record_agent_cache_event, recent_prompt_entries_capacity,
}
use isartor.Visibility.History.{recorded, total, count, is_deflected, has_tool, snapshot-recorded}

abbrev entry : Text → Text → Bool → PromptVisibilityEntry
entry layer tool deflected = record {
  timestamp = codes "t";
  traffic_surface = codes "gateway";
  client = codes "direct";
  endpoint_family = codes "native";
  route = codes "/api/chat";
  prompt_hash = none;
  final_layer = layer;
  resolved_by = none;
  deflected = deflected;
  latency_ms = 7;
  status_code = 200;
  tool = tool;
}

abbrev history : List PromptVisibilityEntry
history =
    entry (codes "l1a") (codes "cursor") true
    ∷ entry (codes "l3") [] false
    ∷ entry (codes "l1a") (codes "aider") true
    ∷ []

snapshot-recorded_example :
    ((snapshot (recorded history) 2).total_prompts ≡ length history)
    × ((snapshot (recorded history) 2).total_deflected_prompts ≡ count is_deflected history)
    × (total (snapshot (recorded history) 2).by_layer ≡ length history)
    × (total (snapshot (recorded history) 2).by_surface ≡ length history)
    × (total (snapshot (recorded history) 2).by_client ≡ length history)
    × (total (snapshot (recorded history) 2).by_tool ≡ count has_tool history)
    × ((snapshot (recorded history) 2).recent ≡ take (min 2 recent_prompt_entries_capacity) history)
snapshot-recorded_example = snapshot-recorded history 2 (omega arith)

by_layer_sorted : (recorded history).by_layer ≡ (codes "l1a", 2) ∷ (codes "l3", 1) ∷ []
unfolding record_entry update
by_layer_sorted = refl

agents : List (Text × AgentVisibilityState) → List Text
agents [] = []
agents ((tool, agent) ∷ rest) = tool ∷ agents rest

agents_sorted :
    agents
      (record_agent_cache_event
        (recorded history)
        (codes "codex")
        (codes "l1")
        (codes "hit")).by_agent
    ≡ codes "aider" ∷ codes "codex" ∷ codes "cursor" ∷ []
unfolding agents record_entry update record_agent_cache_event
agents_sorted = refl

ignored : record_agent_retry default_state [] 3 ≡ default_state
unfolding record_agent_retry
ignored = refl
