-- ===== src/FlightSql.antt =====
-- native/ex_arrow_native/src/flight_sql.rs: the client of Flight SQL.
pub mod Errors
pub mod Client
pub mod Statement
