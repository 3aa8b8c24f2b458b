-- ===== src/Tests.antt =====
-- Runs of the model on the inputs of the program's own tests, and the theorems at concrete inputs.
mod PartySync
mod PartyChat
mod SwarmMesh
mod MeshSession
mod PartyCoordinator
mod AccessAndPresence
mod Wire
mod PeerSession
mod NodeEdges
mod MediaFiles
