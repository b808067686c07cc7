-- ===== src/Attachments.antt =====
-- Encrypted attachments: client-cpp/gui/src/attachments and client-cpp/include/attachment_limits.hpp.
pub mod Chunks
pub mod Crypto
pub mod TransferClient
pub mod DownloadAssembler
pub mod TransferState
mod Tests
