-- ===== src/Protocol.antt =====
-- The HMTL wire protocol: python/hmtl/HMTLprotocol.py and python/hmtl/constants.py.
pub mod Constants
pub mod MsgHdr
pub mod Messages
pub mod Programs
pub mod Layout
pub mod Frame
pub mod Headers
mod Tests
pub mod Colors
