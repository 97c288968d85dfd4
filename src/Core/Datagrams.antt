-- ===== src/Core/Datagrams.antt =====
-- What the functions of the core send and where: `UDPServer.send` with its address.
use v_epc_cups.Prelude.{ℕ}
use v_epc_cups.Bytes.{Bytes, Ip}

pub record Address : Type 0 where
  pub ip : Ip
  pub port : ℕ

pub record Datagram : Type 0 where
  pub payload : Bytes
  pub to : Address
