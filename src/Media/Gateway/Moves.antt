-- ===== src/Media/Gateway/Moves.antt =====
-- What of a session its guarantees are about, and the moves that its operations are made of.
use realtime_voice_agent.Common.{
  ℕ, ◌+◌, ◌≤◌, ◌<◌, ◌≡◌, Option, none, some, List, [], ◌∷◌, ◌++◌, Text, nat_key, if◌then◌else◌,
  nat_eq, ok, take,
}
use realtime_voice_agent.Common.Dict.{Dict, get, put, remove}
use realtime_voice_agent.Media.Frame.{Header, pack_word, flag_audio}
use realtime_voice_agent.Media.Wire.{decode_udp}
use realtime_voice_agent.Media.Gateway.{
  Cipher, Session, UdpGrant, Address, Packet, jitter_window_packets,
}
use realtime_voice_agent.Media.Gateway.Handle.{packet_of}

pub record View : Type 0 where
  pub grant : UdpGrant
  pub source : Option Address
  pub number : ℕ
  pub cursor : Option ℕ
  pub buffer : Dict ℕ Packet
  pub heard : List (ℕ × Packet)
  pub datagrams : List (Address × Text)
  pub sealed : List (Text × Text)

abbrev pub view : Session → View
view s = record {
  grant = s.grant;
  source = s.source;
  number = s.downlink_sequence;
  cursor = s.next_audio_sequence;
  buffer = s.reorder;
  heard = s.heard;
  datagrams = s.datagrams;
  sealed = s.sealed;
}

abbrev pub or_zero : Option ℕ → ℕ
or_zero none = 0
or_zero (some e) = e

abbrev pub hear_also : ℕ → Packet → List (ℕ × Packet) → List (ℕ × Packet)
hear_also k p heard = if nat_eq p.flags flag_audio then (k, p) ∷ heard else heard

module _ (cipher : Cipher) where
  -- A datagram of the session, numbered `k`, whose payload decrypts to the packet's under the uplink
  -- key, the nonce of that number and the datagram's own header. A probe is buffered as empty.
  pub record IsGenuine (g : UdpGrant) (k : ℕ) (p : Packet) : Type 0 where
    pub datagram : Text
    pub header : Header
    pub encrypted : Text
    pub decodes : decode_udp datagram ≡ ok (header, encrypted)
    pub media_id : header.media_id ≡ g.media_id
    pub media_epoch : header.media_epoch ≡ g.media_epoch
    pub sequence : header.sequence ≡ k
    pub decrypts :
        cipher.decrypt g.uplink_key (g.uplink_salt ++ pack_word k) encrypted (take 32 datagram)
        ≡ some p.payload
    pub packet : p ≡ packet_of header p.payload

  pub data Move : View → View → Type 0 where
    pins : {v : View} (a : Address) → v.source ≡ none → Move v (record v { source = some a })
    numbers : {v : View} → v.number < 0xFFFFFFFF → Move v (record v { number = v.number + 1 })
    seals :
        {v : View} (payload : Text)
        → v.number < 0xFFFFFFFF
        → Move v (record v {
          number = v.number + 1;
          sealed = (v.grant.downlink_salt ++ pack_word v.number, payload) ∷ v.sealed;
        })
    transmits :
        {v : View} (a : Address) (datagram : Text)
        → v.source ≡ some a
        → Move v (record v { datagrams = (a, datagram) ∷ v.datagrams })
    starts :
        {v : View} (k : ℕ) → v.cursor ≡ none → v.buffer ≡ [] → Move v (record v { cursor = some k })
    hears :
        {v : View} (e : ℕ) (p : Packet)
        → v.cursor ≡ some e
        → get e v.buffer ≡ none
        → IsGenuine v.grant e p
        → Move v (record v { heard = hear_also e p v.heard; cursor = some (e + 1) })
    takes :
        {v : View} (e : ℕ) (p : Packet)
        → v.cursor ≡ some e
        → get e v.buffer ≡ some p
        → Move v (record v {
          heard = hear_also e p v.heard;
          cursor = some (e + 1);
          buffer = remove e v.buffer;
        })
    puts :
        {v : View} (e k : ℕ) (p : Packet)
        → v.cursor ≡ some e
        → e ≤ k
        → k < e + jitter_window_packets
        → IsGenuine v.grant k p
        → Move v (record v { buffer = put k p v.buffer })
    resyncs :
        {v : View} (e k : ℕ)
        → v.cursor ≡ some e
        → e ≤ k
        → Move v (record v { cursor = some k; buffer = [] })
    skips :
        {v : View} (e k : ℕ)
        → v.cursor ≡ some e
        → e ≤ k
        → ((j : ℕ) (p : Packet) → get j v.buffer ≡ some p → k ≤ j)
        → Move v (record v { cursor = some k })

  pub data Moves : View → View → Type 0 where
    here : {v : View} → Moves v v
    next : {u v w : View} → Move u v → Moves v w → Moves u w

  pub Moves-trans : {u v w : View} → Moves u v → Moves v w → Moves u w
  Moves-trans here n = n
  Moves-trans (next m ms) n = next m (Moves-trans ms n)

  pub only : {v w : View} → Move v w → Moves v w
  only m = next m here

  -- What every move keeps holds after any moves.
  pub moves_keep {ℓ} :
      (P : View → Type ℓ)
      → ((v w : View) → Move v w → P v → P w)
      → {v w : View} → Moves v w
      → P v
      → P w
  moves_keep P keep here h = h
  moves_keep P keep (next m ms) h = moves_keep P keep ms (keep _ _ m h)

-- Between the operations no packet that could be heard waits, and without a cursor none does.
pub record IsDrained (v : View) : Type 0 where
  pub cursor : (e : ℕ) → v.cursor ≡ some e → get e v.buffer ≡ none
  pub idle : v.cursor ≡ none → v.buffer ≡ []
