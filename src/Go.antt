-- ===== src/Go.antt =====
-- What the program uses of Go's standard library: package strings (Text), package unicode, whose tables
-- are a parameter (Unicode), the addresses of package net (Ip, IpParse, IpString, HostPort), package
-- base64 (Base64) and the verb `%q` (Quote). TextLaws, TrimLaws, IpLaws, Ip4Text and HostPortLaws reason
-- about these.
pub mod Text
pub mod SplitLaws
pub mod TextLaws
pub mod Unicode
pub mod Ip
pub mod IpParse
pub mod IpString
pub mod IpLaws
pub mod HostPort
pub mod Ip4Text
pub mod HostPortLaws
pub mod Base64
pub mod Quote
pub mod TrimLaws
