-- ===== src/PriorityQueue/Tracking.antt =====
-- Removing keeps every node informed: `s_remove_node` and the sifts it calls.
use aws_c_common.Prelude.{ℕ, ◌<◌, Bool, false, Option, length}
use aws_c_common.PriorityQueue.{PriorityQueue, sift_up}
use aws_c_common.PriorityQueue.Keeping.{Kept, sift_up_loop-Kept}
use aws_c_common.PriorityQueue.Nodes.{Tracked}

module _ {A : Type 0} (pred_gt : A → A → Bool) (node_of : A → Option ℕ) (away : ℕ → ℕ) where
  pub sift_up-Kept :
      (q : PriorityQueue A) (index : ℕ)
      → index < length q.container.items
      → Tracked node_of away q
      → Kept pred_gt node_of away (length q.container.items) (sift_up pred_gt q index)
  unfolding sift_up
  sift_up-Kept q index h t = sift_up_loop-Kept pred_gt node_of away index q index false h t
