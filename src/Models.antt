-- ===== src/Models.antt =====
-- models/: the rows of the database, the request, and the operations on them.
pub mod Rows
pub mod Dto
pub mod Account
pub mod Delegate
pub mod Monitor
pub mod Record
pub mod BlockNumber
pub mod Service
pub mod Receive
pub mod Transfer
