-- ===== src/Protocol/Frame/Tests.antt =====
-- Frames at concrete inputs.
use zhongduan.Base.{ℕ, ◌≡◌, refl, List, [], ◌∷◌, ◌++◌, map, ok, err, arith}
use zhongduan.Protocol.Errors.{ProtocolErrorCode}
use zhongduan.Protocol.Frame.{
  DataFrame, DecodedEntry, layout, encode_data_frame, decode_data_frame, rewrite_delivery,
  encode_data_frame_batch, decode_data_frame_batch_entries, ResizePayload, encode_resize_payload,
  decode_resize_payload,
}
use zhongduan.Protocol.Frame.RoundTrip.{
  decode-encode, encode-decode, decode-rewrite_delivery, decode-encode_resize,
}
use zhongduan.Protocol.Frame.Batches.{decode_batch-encode_batch, decode_batch-Cuts, Cuts}

abbrev hello : DataFrame
hello = record {
  kind = 1;
  flags = 0;
  session_epoch = 7;
  delivery_generation = 2;
  event_seq = 300;
  pty_offset = 70000;
  stream_id = 9;
  payload = 104 ∷ 105 ∷ [];
}

abbrev hello_moved : DataFrame
hello_moved = record hello { delivery_generation = 5; stream_id = 1 }

hello_encodes : encode_data_frame hello ≡ ok (layout hello)
unfolding encode_data_frame
hello_encodes = refl

hello_decodes : decode_data_frame (layout hello) ≡ ok hello
unfolding decode_data_frame
hello_decodes = refl

bad_kind_encodes : encode_data_frame (record hello { kind = 6 }) ≡ err ProtocolErrorCode.bad_kind
unfolding encode_data_frame
bad_kind_encodes = refl

cut_decodes : decode_data_frame (map (λ b. b) (0x5a ∷ 0x54 ∷ [])) ≡ err ProtocolErrorCode.bad_length
unfolding decode_data_frame
cut_decodes = refl

two_encode :
    encode_data_frame_batch (layout hello ∷ layout hello_moved ∷ [])
    ≡ ok (layout hello ++ layout hello_moved)
unfolding encode_data_frame_batch decode_data_frame
two_encode = refl

abbrev two_entries : List DecodedEntry
two_entries =
    record { encoded = layout hello; frame = hello }
    ∷ record { encoded = layout hello_moved; frame = hello_moved }
    ∷ []

two_decode : decode_data_frame_batch_entries (layout hello ++ layout hello_moved) ≡ ok two_entries
unfolding decode_data_frame_batch_entries decode_data_frame
two_decode = refl

decode-encode_example : decode_data_frame (layout hello) ≡ ok hello
decode-encode_example = decode-encode hello (layout hello) hello_encodes

encode-decode_example : encode_data_frame hello ≡ ok (layout hello)
encode-decode_example = encode-decode (layout hello) hello (omega arith) hello_decodes

hello_rewritten : rewrite_delivery (layout hello) 5 1 ≡ ok (layout hello_moved)
unfolding rewrite_delivery
hello_rewritten = refl

decode-rewrite_delivery_example : decode_data_frame (layout hello_moved) ≡ ok hello_moved
decode-rewrite_delivery_example =
    decode-rewrite_delivery (layout hello) (layout hello_moved) hello 5 1 (omega arith)
      hello_decodes hello_rewritten

decode_batch-encode_batch_example :
    (entries : List DecodedEntry) × (decode_data_frame_batch_entries
        (layout hello ++ layout hello_moved)
      ≡ ok entries)
    × (map (λ e. e.encoded) entries ≡ layout hello ∷ layout hello_moved ∷ [])
decode_batch-encode_batch_example =
    decode_batch-encode_batch (layout hello ∷ layout hello_moved ∷ [])
      (layout hello ++ layout hello_moved) two_encode

decode_batch-Cuts_example : Cuts 0 (layout hello ++ layout hello_moved) two_entries
decode_batch-Cuts_example =
    decode_batch-Cuts (layout hello ++ layout hello_moved) two_entries two_decode

abbrev screen : ResizePayload
screen = record { cols = 300; rows = 24; width_px = 640; height_px = 480 }

abbrev screen_bytes : List ℕ
screen_bytes = 44 ∷ 1 ∷ 0 ∷ 0 ∷ 24 ∷ 0 ∷ 0 ∷ 0 ∷ 128 ∷ 2 ∷ 0 ∷ 0 ∷ 224 ∷ 1 ∷ 0 ∷ 0 ∷ []

screen_encodes : encode_resize_payload screen ≡ ok screen_bytes
unfolding encode_resize_payload
screen_encodes = refl

decode-encode_resize_example : decode_resize_payload screen_bytes ≡ ok screen
decode-encode_resize_example = decode-encode_resize screen screen_bytes screen_encodes
