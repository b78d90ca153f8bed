-- ===== src/Text.antt =====
-- The conversions of `std` between numbers, IP addresses and text that the program relies on.
pub mod Decimal
pub mod Utf8
pub mod Ip
pub mod Ipv6
pub mod Ascii
