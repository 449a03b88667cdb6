-- ===== src/Mcp.antt =====
-- backend/app/mcp_gateway.py: the approval gate in front of a child MCP server.
pub mod Models
pub mod Gateway
pub mod Submit
pub mod GatewayLaws
pub mod DeadLetters
mod Tests
