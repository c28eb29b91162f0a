-- ===== src/ToolIdentity.antt =====
-- The name of the AI tool behind a request (src/tool_identity.rs).
pub mod Match
mod Tests
use isartor.Common.{
  Text, codes, text_eq, starts_with, contains, to_ascii_lowercase, Bool, true, false, not, ◌||◌,
  Option, none, some, List, [], ◌∷◌, if◌then◌else◌,
}

abbrev pub known_tools : List (Text × Text)
known_tools =
    (codes "claude-code", codes "claude-code")
    ∷ (codes "claude-cli", codes "claude-code")
    ∷ (codes "claudecode", codes "claude-code")
    ∷ (codes "copilot", codes "copilot")
    ∷ (codes "github-copilot", codes "copilot")
    ∷ (codes "githubcopilot", codes "copilot")
    ∷ (codes "cursor", codes "cursor")
    ∷ (codes "codex", codes "codex")
    ∷ (codes "openai-codex", codes "codex")
    ∷ (codes "gemini-cli", codes "gemini-cli")
    ∷ (codes "gemini_cli", codes "gemini-cli")
    ∷ (codes "openclaw", codes "openclaw")
    ∷ (codes "windsurf", codes "windsurf")
    ∷ (codes "zed", codes "zed")
    ∷ (codes "cline", codes "cline")
    ∷ (codes "roo-code", codes "roo-code")
    ∷ (codes "roocode", codes "roo-code")
    ∷ (codes "aider", codes "aider")
    ∷ (codes "continue", codes "continue")
    ∷ (codes "curl", codes "curl")
    ∷ (codes "httpie", codes "httpie")
    ∷ []

-- The loop over the table.
unfoldable pub find_tool : Text → List (Text × Text) → Text
find_tool ua_lower [] = codes "unknown"
find_tool ua_lower ((prefix, tool) ∷ tools) =
    let rest = find_tool ua_lower tools in
    if starts_with prefix ua_lower || contains prefix ua_lower then tool else rest

unfoldable pub identify_tool : Text → Text
identify_tool user_agent = find_tool (to_ascii_lowercase user_agent) known_tools

abbrev pub surface_tool : Text → Text
surface_tool traffic_surface =
    if text_eq traffic_surface (codes "mcp") then codes "copilot" else codes "unknown"

unfoldable pub identify_tool_or_fallback : Option Text → Text → Text
identify_tool_or_fallback none traffic_surface = surface_tool traffic_surface
identify_tool_or_fallback (some ua) traffic_surface =
    let tool = identify_tool ua in
    if not (text_eq tool (codes "unknown")) then tool else surface_tool traffic_surface
