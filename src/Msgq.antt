-- ===== src/Msgq.antt =====
-- kernel/msgq.c: message queues of bounded size, on which senders and receivers wait.
-- A process that waits is in the queue of processes in state MSG_BLOCK. When a partner comes, that
-- partner switches to it directly, it moves its message and switches back: so the part of the
-- waiting call behind its `scheduler()` runs inside the call of the partner.
pub mod Cells
pub mod Count
pub mod Send
pub mod Reset
pub mod Wake
pub mod Order
pub mod Create
