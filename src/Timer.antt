-- ===== src/Timer.antt =====
-- common/Utilities/Timer.h and Timer.cpp: clocks, timers and broken-down time.
pub mod Calendar
pub mod Clock
pub mod LocalTime
pub mod Text
pub mod Numeric
pub mod Units
pub mod Words
pub mod Written
pub mod Timers
mod Tests
