-- ===== src/ToolIdentity/Tests.antt =====
-- Runs of the identification of tools.
use isartor.Common.{codes, some, none, ◌≡◌, refl}
use isartor.ToolIdentity.{identify_tool, find_tool, identify_tool_or_fallback}

named : identify_tool (codes "Claude-CLI/2.3") ≡ codes "claude-code"
unfolding identify_tool find_tool
named = refl

-- A pattern inside a word counts.
inside_a_word : identify_tool (codes "optimized-bot/1") ≡ codes "zed"
unfolding identify_tool find_tool
inside_a_word = refl

by_surface : identify_tool_or_fallback (some (codes "Mozilla/5.0")) (codes "mcp") ≡ codes "copilot"
unfolding identify_tool_or_fallback identify_tool find_tool
by_surface = refl

no_agent : identify_tool_or_fallback none (codes "gateway") ≡ codes "unknown"
unfolding identify_tool_or_fallback
no_agent = refl
