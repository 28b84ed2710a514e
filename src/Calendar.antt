-- ===== src/Calendar.antt =====
-- The part of package time that internal/tasks uses: the local date and its text. A day is a number,
-- the days since 0000-01-01, which was a Saturday; times before that day do not occur.
mod Dates
mod Years
mod Months
mod RoundTrip
mod Order
mod Tests
unfoldable pub use Dates.*
pub use RoundTrip.*
pub use Order.*
