-- ===== src/PriorityQueue/Pushing.antt =====
-- Pushing keeps every node informed: `aws_priority_queue_push_ref`.
use aws_c_common.PriorityQueue.{PriorityQueue}
