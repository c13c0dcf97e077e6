-- ===== src/Pool/Counted.antt =====
-- A round of `syncMsg` over the pending messages returns, and what it counts.
use lotus_tools.Prelude.{string_eq, nat_eq}
use lotus_tools.Node.{Node}
