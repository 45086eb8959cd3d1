-- ===== src/Flight.antt =====
-- native/ex_arrow_native/src/flight.rs: the messages of Arrow Flight that its parts share.
-- A message is a struct of the `arrow_flight` crate, with the fields that the code sets or reads.
pub mod Tls
pub mod Descriptor
pub mod Server
pub mod Client
pub mod Host
use ex_arrow.Prelude.{ℤ, Option, List, pos}
use ex_arrow.Beam.{Text}

-- The type is an `i32` of the wire: a peer may send any.
pub record FlightDescriptor : Type 0 where
  pub kind : ℤ
  pub cmd : Text
  pub path : List Text

abbrev pub descriptor_cmd : ℤ
descriptor_cmd = pos 2

abbrev pub descriptor_path : ℤ
descriptor_path = pos 1

pub record FlightEndpoint : Type 0 where
  pub ticket : Option Text
  pub location : List Text

pub record FlightInfo : Type 0 where
  pub schema : Text
  pub flight_descriptor : Option FlightDescriptor
  pub endpoint : List FlightEndpoint
  pub total_records : ℤ
  pub total_bytes : ℤ
