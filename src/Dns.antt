-- ===== src/Dns.antt =====
-- internal/dns: the DNS message types, the RFC 1035 codec and the caching resolver.
pub mod RrType
pub mod Rcode
pub mod Message
pub mod Buffer
pub mod Name
pub mod Record
pub mod Wire
pub mod Resolver
pub mod Wildcard
mod Examples
