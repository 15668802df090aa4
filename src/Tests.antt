-- ===== src/Tests.antt =====
-- Runs of the program at concrete inputs, with toy functions in place of the cryptography.
mod Toy
mod MerkleRuns
mod CryptoRuns
mod PrekeyRuns
mod RelayRuns
mod RatchetRuns
mod TurnRuns
mod SessionRuns
mod LogRuns
mod EndToEndRuns
