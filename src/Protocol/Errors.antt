-- ===== src/Protocol/Errors.antt =====
-- packages/protocol/src/errors.ts and scalars.ts.
use zhongduan.Base.{ℕ}

pub data ProtocolErrorCode : Type 0 where
  bad_magic bad_version bad_kind bad_flags bad_length bad_payload : ProtocolErrorCode
  bad_epoch bad_generation event_gap pty_offset_gap out_of_range : ProtocolErrorCode

abbrev pub max_u64 : ℕ
max_u64 = 0xffff_ffff_ffff_ffff
