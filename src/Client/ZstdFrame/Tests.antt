-- ===== src/Client/ZstdFrame/Tests.antt =====
-- Runs of the checks on a frame, and their properties at concrete frames.
use zhongduan.Base.{ℕ, ◌↔◌, ◌≡◌, refl, true, false, some, List, [], ◌∷◌, ok, err, arith}
use zhongduan.Client.ZstdFrame.{
  Decompressor, trailing, validate_zstd_frame_envelope, decompress_bounded_zstd_frame, read_blocks,
}
use zhongduan.Client.ZstdFrame.Format.{Envelope}
use zhongduan.Client.ZstdFrame.Bounds.{Decompressed, decompress-Decompressed}
use zhongduan.Client.ZstdFrame.Exact.{validate_iff-Envelope}
use zhongduan.Client.ZstdFrame.Blocks.{read_blocks_fuel}

-- A single segment of two bytes, in one raw block.
abbrev frame : List ℕ
frame = 0x28 ∷ 0xb5 ∷ 0x2f ∷ 0xfd ∷ 0x20 ∷ 2 ∷ 17 ∷ 0 ∷ 0 ∷ 104 ∷ 105 ∷ []

abbrev raw : Decompressor
raw bytes = some ((104 ∷ [], false) ∷ (105 ∷ [], true) ∷ [])

frame_run : validate_zstd_frame_envelope frame 2 100 ≡ ok 2
unfolding validate_zstd_frame_envelope
frame_run = refl

trailing_run :
    validate_zstd_frame_envelope
      (0x28 ∷ 0xb5 ∷ 0x2f ∷ 0xfd ∷ 0x20 ∷ 2 ∷ 17 ∷ 0 ∷ 0 ∷ 104 ∷ 105 ∷ 0 ∷ [])
      2
      100
    ≡ err trailing
unfolding validate_zstd_frame_envelope
trailing_run = refl

decompress_run : decompress_bounded_zstd_frame raw frame 2 100 ≡ ok (104 ∷ 105 ∷ [])
unfolding decompress_bounded_zstd_frame
decompress_run = refl

validate_iff-Envelope_example :
    (validate_zstd_frame_envelope frame 2 100 ≡ ok 2) ↔ Envelope frame 2 100 2
validate_iff-Envelope_example = validate_iff-Envelope frame 2 100 2

decompress-Decompressed_example : Decompressed raw frame 2 100 (104 ∷ 105 ∷ [])
decompress-Decompressed_example =
    decompress-Decompressed raw frame 2 100 (104 ∷ 105 ∷ []) decompress_run

read_blocks_fuel_example : read_blocks 12 frame 6 2 ≡ read_blocks 40 frame 6 2
read_blocks_fuel_example =
    read_blocks_fuel 12 40 frame 6 2 (omega arith) (omega arith) (omega arith)
