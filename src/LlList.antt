-- ===== src/LlList.antt =====
-- src/ll_list.cc, include/ilias/ll_list.h: the doubly linked list of `ll_list_detail`, as its functions
-- change the memory. An element is a number other than 0, its address; 0 is `nullptr`.
pub mod Memory
pub mod Walk
pub mod Pred
pub mod Link
pub mod Ops
pub mod Chain
pub mod Insert
pub mod Remove
pub mod Refine
pub mod Places
pub mod Deque
pub mod Pops
pub mod Whole
pub mod Position
pub mod Around
pub mod Program
pub mod Iterator
mod Tests
