-- ===== src/Service.antt =====
-- The methods of `BrokerService` (roles/msp_broker/files/broker/service.py), and the requests that
-- `dispatch` of server.py there hands to them.
pub mod Targets
pub mod Views
pub mod Propose
pub mod ProposeScript
pub mod Steps
pub mod ProposePlan
pub mod Runs
pub mod Execute
pub mod Decide
pub mod Requests
pub mod Replies
pub mod Receipts
pub mod Life
pub mod Hosts
pub mod Once
pub mod Answers
pub mod Isolation
pub mod Frozen
pub mod Altered
pub mod Sound
pub mod Race
