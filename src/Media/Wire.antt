-- ===== src/Media/Wire.antt =====
-- The Worker's two codecs of the same header: `WssMediaFrame` of bindings/rva/protocol.py and
-- `UdpPacketHeader` of transport/udp_wire.py.
use realtime_voice_agent.Common.{
  ◌+◌, not, ◌||◌, if◌then◌else◌, ltb, nat_eq, ◌++◌, length, drop, Text, is_empty, Result, ok, err,
  Option, none, some,
}
use realtime_voice_agent.Media.Frame.{
  Header, FrameError, MediaFrame, pack_header, unpack_header, is_supported, uint32,
  max_payload_bytes, flag_audio, invalid_media_flags, invalid_media_id, invalid_media_epoch,
  invalid_sequence, invalid_timestamp, invalid_generation, invalid_media_payload,
  media_frame_too_large, truncated_media_header, unsupported_media_header, media_length_mismatch,
}

-- The tests of `serialize`, whose `flags` argument is the header's.
unfoldable pub check_wss : Header → Text → Option FrameError
check_wss h payload =
    if not (uint32 1 h.media_epoch)
    then some invalid_media_epoch
    else if not (uint32 0 h.sequence)
    then some invalid_sequence
    else if not (uint32 0 h.timestamp)
    then some invalid_timestamp
    else if not (uint32 0 h.generation)
    then some invalid_generation
    else if not (nat_eq (length h.media_id) 8)
    then some invalid_media_id
    else if not (nat_eq h.flags flag_audio)
    then some invalid_media_flags
    else if is_empty payload || ltb max_payload_bytes (length payload)
    then some invalid_media_payload
    else none

unfoldable pub serialize : MediaFrame → Result FrameError Text
serialize f = elim (check_wss f.header f.payload) [
  | some e ↦ err e
  | none ↦ ok (pack_header (record f.header { payload_length = length f.payload }) ++ f.payload)
]

-- What `parse` tests of the unpacked header and of the payload.
unfoldable pub check_parsed : Header → Text → Option FrameError
check_parsed h payload =
    if not (nat_eq h.flags flag_audio)
    then some invalid_media_flags
    else if not (nat_eq h.payload_length (length payload))
    then some media_length_mismatch
    else if nat_eq h.media_epoch 0
    then some invalid_media_epoch
    else if is_empty payload || ltb max_payload_bytes h.payload_length
    then some invalid_media_payload
    else none

unfoldable pub parse : Text → Result FrameError MediaFrame
parse frame =
    if ltb 1232 (length frame)
    then err media_frame_too_large
    else if ltb (length frame) 32
    then err truncated_media_header
    else if not (is_supported frame)
    then err unsupported_media_header
    else elim (check_parsed (unpack_header frame) (drop 32 frame)) [
      | some e ↦ err e
      | none ↦ ok (record { header = unpack_header frame; payload = drop 32 frame })
    ]

-- `UdpPacketHeader.decode`; its errors have no codes.
pub data UdpError : Type 0 where
  shorter_than_header_and_tag unsupported_packet zero_epoch payload_too_large : UdpError
  length_mismatch : UdpError

unfoldable pub check_udp : Header → Text → Option UdpError
check_udp h encrypted =
    if nat_eq h.media_epoch 0
    then some zero_epoch
    else if ltb max_payload_bytes h.payload_length
    then some payload_too_large
    else if not (nat_eq (length encrypted) (h.payload_length + 16))
    then some length_mismatch
    else none

-- The header and the encrypted payload with its tag.
unfoldable pub decode_udp : Text → Result UdpError (Header × Text)
decode_udp datagram =
    if ltb (length datagram) 48
    then err shorter_than_header_and_tag
    else if not (is_supported datagram)
    then err unsupported_packet
    else elim (check_udp (unpack_header datagram) (drop 32 datagram)) [
      | some e ↦ err e
      | none ↦ ok (unpack_header datagram, drop 32 datagram)
    ]
