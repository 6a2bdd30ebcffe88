-- ===== src/Tests/Protocol.antt =====
-- src/lib.rs at concrete inputs.
use busrt.Protocol.Codes.{nop, no_qos, flags}
use busrt.Base.{◌≡◌, refl}

flags_of_ping : flags nop no_qos ≡ 0
unfolding flags
flags_of_ping = refl
