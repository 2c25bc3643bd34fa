-- ===== src/Membership/Refines.antt =====
-- The methods of `MembershipState` implement the protocol of Spec.antt: from a well-formed state each
-- returns, with no `KeyError`, and its effect on the state is a sequence of the protocol's steps.
pub mod Gossip
pub mod Handlers
pub mod Tick
