-- ===== src/Protocol/Frame.antt =====
-- src/lib.rs: `FrameData` and its accessors. A panic is `none`.
use busrt.Protocol.Codes.{FrameKind, nop_kind}
use busrt.Protocol.Name.{primary_name_of}
use mathlib.Core.Option
use busrt.Base.{ℕ, Bool, false, Option, none, [], Bytes, slice_from}

pub record FrameData : Type 0 where
  pub kind : FrameKind
  pub sender : Option Bytes
  pub topic : Option Bytes
  pub header : Option Bytes
  pub buf : Bytes
  pub payload_pos : ℕ
  pub is_realtime : Bool

abbrev pub new_nop : FrameData
new_nop = record {
  kind = nop_kind;
  sender = none;
  topic = none;
  header = none;
  buf = [];
  payload_pos = 0;
  is_realtime = false;
}

-- `&self.buf[self.payload_pos..]`
unfoldable pub payload : FrameData → Option Bytes
payload f = slice_from f.payload_pos f.buf

-- `self.sender.as_ref().unwrap()`, cut at the separator
unfoldable pub primary_sender : FrameData → Option Bytes
primary_sender f = Option.map primary_name_of f.sender
