-- ===== src/Convert.antt =====
-- tweak-common/src/tweakvariant.c: the conversions between a variant and a text.
pub mod Decimal
pub mod Numerals
pub mod Runtime
pub mod Parse
pub mod Print
pub mod Scalars
pub mod Vectors
pub mod RoundTrip
pub mod Coerce
pub mod Escape
pub mod ToJson
pub mod Numbers
pub mod Types
pub mod Completes
pub mod Outcome
pub mod Example
mod Tests
