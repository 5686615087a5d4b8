-- ===== src/Consensus.antt =====
-- The package consensus: the Dew-BFT engine and what it is made of.
pub mod ValidatorSet
pub mod Message
pub mod VoteSet
pub mod Rotation
pub mod Engine
pub mod Evidence
pub mod Proposing
