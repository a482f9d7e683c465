-- ===== src/Linear.antt =====
-- The stacks and linked lists of DataStructure/CPP.
pub mod Stack
pub mod SinglyList
pub mod DoublyList
