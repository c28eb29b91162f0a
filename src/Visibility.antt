-- ===== src/Visibility.antt =====
-- src/visibility.rs with its types of src/models.rs: the statistics of prompts and agents, behind a lock.
-- The counters are `u64` and wrap around, as in the release build.
pub mod History
mod Tests
use isartor.Common.{
  ℕ, zero, suc, ◌+◌, ◌-◌, ◌%◌, ◌^◌, Text, codes, text_eq, is_empty, Bool, true, false, ltb, leb,
  ◌==◌, min, if◌then◌else◌, Option, List, [], ◌∷◌, length, take, map,
}

abbrev pub u64_mod : ℕ
u64_mod = 2 ^ 64

-- `String`s compare by their bytes, which in UTF-8 is the order of the code points.
abbrev pub text_lt : Text → Text → Bool
text_lt s [] = false
text_lt [] (d ∷ t) = true
text_lt (c ∷ s) (d ∷ t) = let rest = text_lt s t in if c == d then rest else ltb c d

-- `*map.entry(key).or_insert(d)` changed by `f`: the entries of a `BTreeMap` stand in their order.
unfoldable pub update : {V : Type 0} → V → (V → V) → Text → List (Text × V) → List (Text × V)
update d f key [] = (key, f d) ∷ []
update d f key ((key', v) ∷ entries) =
    let rest = update d f key entries in
    if text_eq key key'
    then (key', f v) ∷ entries
    else if text_lt key key'
    then (key, f d) ∷ (key', v) ∷ entries
    else (key', v) ∷ rest

abbrev pub plus_one : ℕ → ℕ
plus_one n = (n + 1) % u64_mod

abbrev pub bump : Text → List (Text × ℕ) → List (Text × ℕ)
bump key entries = update 0 plus_one key entries

pub record PromptVisibilityEntry : Type 0 where
  pub timestamp : Text
  pub traffic_surface : Text
  pub client : Text
  pub endpoint_family : Text
  pub route : Text
  pub prompt_hash : Option Text
  pub final_layer : Text
  pub resolved_by : Option Text
  pub deflected : Bool
  pub latency_ms : ℕ
  pub status_code : ℕ
  pub tool : Text

pub record AgentVisibilityState : Type 0 where
  pub requests : ℕ
  pub cache_hits : ℕ
  pub cache_misses : ℕ
  pub l1a_hits : ℕ
  pub l1a_misses : ℕ
  pub l1b_hits : ℕ
  pub l1b_misses : ℕ
  pub total_latency_ms : ℕ
  pub retry_count : ℕ
  pub error_count : ℕ

abbrev pub default_agent : AgentVisibilityState
default_agent = record {
  requests = 0;
  cache_hits = 0;
  cache_misses = 0;
  l1a_hits = 0;
  l1a_misses = 0;
  l1b_hits = 0;
  l1b_misses = 0;
  total_latency_ms = 0;
  retry_count = 0;
  error_count = 0;
}

pub record PromptVisibilityState : Type 0 where
  pub total_prompts : ℕ
  pub total_deflected_prompts : ℕ
  pub by_layer : List (Text × ℕ)
  pub by_surface : List (Text × ℕ)
  pub by_client : List (Text × ℕ)
  pub by_tool : List (Text × ℕ)
  pub by_agent : List (Text × AgentVisibilityState)
  pub recent : List PromptVisibilityEntry

abbrev pub default_state : PromptVisibilityState
default_state = record {
  total_prompts = 0;
  total_deflected_prompts = 0;
  by_layer = [];
  by_surface = [];
  by_client = [];
  by_tool = [];
  by_agent = [];
  recent = [];
}

abbrev pub recent_prompt_entries_capacity : ℕ
recent_prompt_entries_capacity = 200

unfoldable pub pop_back : {A : Type 0} → List A → List A
pop_back [] = []
pop_back (x ∷ []) = []
pop_back (x ∷ y ∷ ys) = x ∷ pop_back (y ∷ ys)

-- The loop that pops the oldest entry while there are more than the capacity, on fuel.
unfoldable pub pop_to : {A : Type 0} → ℕ → ℕ → List A → List A
pop_to zero capacity xs = xs
pop_to (suc fuel) capacity xs =
    let rest = pop_to fuel capacity (pop_back xs) in if ltb capacity (length xs) then rest else xs

-- The request of an entry, for its agent.
abbrev pub requested : PromptVisibilityEntry → AgentVisibilityState → AgentVisibilityState
requested entry agent = record agent {
  requests = plus_one agent.requests;
  total_latency_ms = (agent.total_latency_ms + entry.latency_ms) % u64_mod;
}

unfoldable pub record_entry : PromptVisibilityState → PromptVisibilityEntry → PromptVisibilityState
record_entry state entry =
    let recent = entry ∷ state.recent in
    record state {
      total_prompts = plus_one state.total_prompts;
      total_deflected_prompts =
          if entry.deflected
          then plus_one state.total_deflected_prompts
          else state.total_deflected_prompts;
      by_layer = bump entry.final_layer state.by_layer;
      by_surface = bump entry.traffic_surface state.by_surface;
      by_client = bump entry.client state.by_client;
      by_tool = if is_empty entry.tool then state.by_tool else bump entry.tool state.by_tool;
      by_agent =
          if is_empty entry.tool
          then state.by_agent
          else update default_agent (requested entry) entry.tool state.by_agent;
      recent = pop_to (length recent) recent_prompt_entries_capacity recent;
    }

pub record PromptStatsResponse : Type 0 where
  pub total_prompts : ℕ
  pub total_deflected_prompts : ℕ
  pub by_layer : List (Text × ℕ)
  pub by_surface : List (Text × ℕ)
  pub by_client : List (Text × ℕ)
  pub by_tool : List (Text × ℕ)
  pub recent : List PromptVisibilityEntry

unfoldable pub snapshot : PromptVisibilityState → ℕ → PromptStatsResponse
snapshot state limit = record {
  total_prompts = state.total_prompts;
  total_deflected_prompts = state.total_deflected_prompts;
  by_layer = state.by_layer;
  by_surface = state.by_surface;
  by_client = state.by_client;
  by_tool = state.by_tool;
  recent = take (min limit recent_prompt_entries_capacity) state.recent;
}

-- A layer and an outcome, matched in the order of the arms.
unfoldable pub count_cache_event : Text → Text → AgentVisibilityState → AgentVisibilityState
count_cache_event cache_layer outcome agent =
    let hit = text_eq outcome (codes "hit") in
    let miss = text_eq outcome (codes "miss") in
    if text_eq cache_layer (codes "l1")
    then (if hit
        then record agent { cache_hits = plus_one agent.cache_hits }
        else if miss
        then record agent { cache_misses = plus_one agent.cache_misses }
        else agent)
    else if text_eq cache_layer (codes "l1a")
    then (if hit
        then record agent { l1a_hits = plus_one agent.l1a_hits }
        else if miss
        then record agent { l1a_misses = plus_one agent.l1a_misses }
        else agent)
    else if text_eq cache_layer (codes "l1b")
    then (if hit
        then record agent { l1b_hits = plus_one agent.l1b_hits }
        else if miss
        then record agent { l1b_misses = plus_one agent.l1b_misses }
        else agent)
    else agent

abbrev pub update_agent :
    (AgentVisibilityState → AgentVisibilityState)
    → Text
    → PromptVisibilityState
    → PromptVisibilityState
update_agent f tool state =
    if is_empty tool
    then state
    else record state { by_agent = update default_agent f tool state.by_agent }

unfoldable pub record_agent_cache_event :
    PromptVisibilityState → Text → Text → Text → PromptVisibilityState
record_agent_cache_event state tool cache_layer outcome =
    update_agent (count_cache_event cache_layer outcome) tool state

-- `attempts - 1` saturates.
unfoldable pub record_agent_retry : PromptVisibilityState → Text → ℕ → PromptVisibilityState
record_agent_retry state tool attempts =
    update_agent
      (λ agent. record agent { retry_count = (agent.retry_count + (attempts - 1)) % u64_mod }) tool
      state

unfoldable pub record_agent_error : PromptVisibilityState → Text → PromptVisibilityState
record_agent_error state tool =
    update_agent (λ agent. record agent { error_count = plus_one agent.error_count }) tool state
