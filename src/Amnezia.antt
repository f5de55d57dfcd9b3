-- ===== src/Amnezia.antt =====
-- internal/amnezia: the configuration of an AmneziaWG tunnel, and the client of its daemon.
pub mod Conf
pub mod Uapi
pub mod Client
