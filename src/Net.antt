-- ===== src/Net.antt =====
-- The values that the QUIC tools hand to one another: end points, encrypted packets, and the
-- result of a write. They are plain data of the QUIC library's interface.
use quic_toy.Base.{ℕ, List}

-- An address is its bytes: none, 4 or 16.
abbrev pub IpAddress : Type 0
IpAddress = List ℕ

pub record IpEndPoint : Type 0 where
  pub address : IpAddress
  pub port : ℕ

-- A packet is its bytes.
abbrev pub EncryptedPacket : Type 0
EncryptedPacket = List ℕ

pub data WriteStatus : Type 0 where
  status_ok status_blocked status_error : WriteStatus

-- The second field is the number of bytes written, or the error code.
pub record WriteResult : Type 0 where
  pub status : WriteStatus
  pub value : ℕ
