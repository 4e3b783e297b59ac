-- ===== src/AgentApi/Laws.antt =====
-- Which facts an entity has.
use agent_memory.Prelude.Order.{list_ord}
use agent_memory.Node.Replica
