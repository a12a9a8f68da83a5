-- ===== src/Gateway/Cipher.antt =====
-- gateway_server/sdk/AESSBox.h, AESSBox.cpp and TeaAlgorithm.cpp: the tables that stand for a cipher.
pub mod Bits
pub mod Field
pub mod Reduced
pub mod Table
pub mod Box
pub mod Randoms
mod Tests
