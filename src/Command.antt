-- ===== src/Command.antt =====
-- The slash commands of the console client: client-cpp/include/command.hpp and
-- client-cpp/src/command.cpp. A `std::string` is the list of its bytes, a position in it a number,
-- `std::string::npos` is `none`, and the parsers return their flag with the output argument.
pub mod Scan
pub mod PrivateMessage
pub mod Join
mod Tests
