-- ===== src/Examples.antt =====
-- Concrete packages, clients and messages, and the theorems at these inputs.
mod Sample
mod Laws
mod Executable
mod Signing
mod Registering
mod Replacing
mod Updating
mod Proving
mod Decoding
mod Relaying
mod Restarting
mod SampleProver
mod SampleProverLaws
mod Configuring
mod Sending
mod Renewing
mod Restoring
mod Heading
mod Activating
