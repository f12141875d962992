-- ===== src/Messages.antt =====
-- server/army3_protocol/messages.py: the commands, and a module for each message.
mod Rules
pub mod Command
pub mod BootstrapDaResponse
pub mod BootstrapE0EmptyResponse
pub mod BootstrapE1Response
pub mod BootstrapVersions
pub mod ClientAreaRequest
pub mod ClientC6Selection
pub mod ClientPostResetStatus
pub mod ClientPrelogin72
pub mod ClientSessionRequest
pub mod ClientTransportSync0
pub mod ClientU32B2
pub mod EmptyClientRequest
pub mod HandshakeResponse
pub mod ScreenBootstrapResponse
pub mod ScreenResourceItemResponse
pub mod ScreenResourceManifestResponse
pub mod ServerAreaList
pub mod ServerAreaRecord
pub mod ServerPreloginStatus
pub mod ServerSessionResponse
pub mod ServerTransportReset2
pub mod Payloads
mod Runs
