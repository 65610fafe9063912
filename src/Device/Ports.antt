-- ===== src/Device/Ports.antt =====
-- Port writes stay within the ports (kernel/src/device.rs).
use bulla.Prelude.Map.{Map, nat_key}
use bulla.Capability.{Capability}
