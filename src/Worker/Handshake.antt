-- ===== src/Worker/Handshake.antt =====
-- The opening of a session, from the client's message to its reading of the Worker's answer.
pub mod Emitted
mod Tests
pub mod Readable
pub mod Opening
pub mod Grant
use realtime_voice_agent.Common.{
  ℕ, suc, zero, ◌+◌, ◌≤◌, ◌≡◌, refl, sym, ap, Bool, true, false, not, ◌&&◌, ◌||◌, Option, none,
  some, List, [], ◌∷◌, length, map, all, is_empty, leb, nat_eq, arith, Text, text_key, text_eq,
  codes, contains, is_unique, ◌==◌, Result, ok, err, guard, Bool-cases, inl, inr, if◌then◌else◌,
}
use realtime_voice_agent.Common.Json.{
  Json, Fields, at, has, has_all, within, is_text, is_identifier, is_alphanumeric, in_class,
  is_audio_profile, audio_profile, equals_number,
}
use realtime_voice_agent.Client.Messages.{
  MediaProfile, wss_opus_v1, udp_opus_gcm_v1, media_profile_key, profile_value, ClientConfig,
  EndpointCapabilities, is_valid_config, is_bootstrap_identifier, profile_items, as_wire,
  session_open, build_session_open, require_identifier,
}
use realtime_voice_agent.Worker.Protocol
use realtime_voice_agent.Worker.Protocol.{
  supported_profiles, read_profiles, count_items, parse_profiles, parse_preferred,
  validate_capabilities, parse_session_open_object, require_exact_fields, SessionOpen,
}

profile_value_supported : (p : MediaProfile) → contains supported_profiles (profile_value p) ≡ true
unfolding text_eq
profile_value_supported wss_opus_v1 = refl
profile_value_supported udp_opus_gcm_v1 = refl

contains-map :
    (ps : List MediaProfile) (q : MediaProfile)
    → contains (map profile_value ps) (profile_value q) ≡ contains ps q
unfolding text_eq
contains-map [] q = refl
contains-map (wss_opus_v1 ∷ ps) wss_opus_v1 = refl
contains-map (udp_opus_gcm_v1 ∷ ps) udp_opus_gcm_v1 = refl
contains-map (wss_opus_v1 ∷ ps) udp_opus_gcm_v1 = contains-map ps udp_opus_gcm_v1
contains-map (udp_opus_gcm_v1 ∷ ps) wss_opus_v1 = contains-map ps wss_opus_v1

is_unique-map : (ps : List MediaProfile) → is_unique (map profile_value ps) ≡ is_unique ps
is_unique-map [] = refl
is_unique-map (p ∷ ps) = ground (arith, contains-map ps p, is_unique-map ps)

read_profiles-profile_items :
    (ps : List MediaProfile) → read_profiles (profile_items ps) ≡ some (map profile_value ps)
unfolding read_profiles
read_profiles-profile_items [] = refl
read_profiles-profile_items (p ∷ ps) =
    rw (profile_value_supported p, read_profiles-profile_items ps) refl

-- There are two profiles.
count_unique : (ps : List MediaProfile) → is_unique ps ≡ true → count_items (profile_items ps) ≤ 2
count_unique [] u = omega arith
count_unique (p ∷ []) u = omega arith
count_unique (p ∷ q ∷ []) u = omega arith
count_unique (wss_opus_v1 ∷ wss_opus_v1 ∷ r ∷ ps) u = absurd (ground arith)
count_unique (udp_opus_gcm_v1 ∷ udp_opus_gcm_v1 ∷ r ∷ ps) u = absurd (ground arith)
count_unique (wss_opus_v1 ∷ udp_opus_gcm_v1 ∷ wss_opus_v1 ∷ ps) u = absurd (ground arith)
count_unique (wss_opus_v1 ∷ udp_opus_gcm_v1 ∷ udp_opus_gcm_v1 ∷ ps) u = absurd (ground arith)
count_unique (udp_opus_gcm_v1 ∷ wss_opus_v1 ∷ wss_opus_v1 ∷ ps) u = absurd (ground arith)
count_unique (udp_opus_gcm_v1 ∷ wss_opus_v1 ∷ udp_opus_gcm_v1 ∷ ps) u = absurd (ground arith)

parse_profiles-profile_items :
    (ps : List MediaProfile)
    → is_empty ps ≡ false
    → is_unique ps ≡ true
    → parse_profiles (Json.arr (profile_items ps)) ≡ ok (map profile_value ps)
unfolding parse_profiles
parse_profiles-profile_items [] e u = absurd (ground arith)
parse_profiles-profile_items (p ∷ ps) e u =
    let n = count_items (profile_items (p ∷ ps)) in
    let sized : (leb 1 n && leb n 2) ≡ true = ground (arith, count_unique (p ∷ ps) u) in
    rw (sized, read_profiles-profile_items (p ∷ ps), is_unique-map (p ∷ ps), u) refl

bootstrap_identifier : (t : Text) → is_bootstrap_identifier t ≡ true → is_identifier t ≡ true
unfolding is_bootstrap_identifier is_identifier
bootstrap_identifier [] h = absurd (ground arith)
bootstrap_identifier (c ∷ cs) h = ground arith

-- What the Worker reads of a client's opening message.
abbrev pub opening : ClientConfig → Text → SessionOpen
opening c request_id = record {
  request_id = request_id;
  device_id = c.device_id;
  supported_media_profiles = map profile_value c.supported_profiles;
  preferred_media_profile = profile_value c.preferred_profile;
  capabilities = as_wire c.capabilities;
}

pub audio_profile_lem : is_audio_profile audio_profile ≡ true
unfolding is_audio_profile audio_profile has_all has within at is_text equals_number text_eq
audio_profile_lem = refl

parse_session_open :
    (c : ClientConfig) (request_id : Text)
    → is_identifier c.device_id ≡ true
    → is_identifier request_id ≡ true
    → is_empty c.supported_profiles ≡ false
    → is_unique c.supported_profiles ≡ true
    → contains c.supported_profiles c.preferred_profile ≡ true
    → parse_session_open_object (session_open c request_id) ≡ ok (opening c request_id)
unfolding parse_session_open_object session_open require_exact_fields has_all has within at is_text
    text_eq Protocol.require_identifier parse_preferred validate_capabilities as_wire
parse_session_open c request_id device request nonempty unique preferred =
    rw
      (
        request,
        device,
        parse_profiles-profile_items c.supported_profiles nonempty unique,
        contains-map c.supported_profiles c.preferred_profile,
        preferred,
        audio_profile_lem,
      )
      refl

pub parse_opening :
    (c : ClientConfig) (request_id : Text)
    → is_valid_config c ≡ true
    → is_identifier request_id ≡ true
    → parse_session_open_object (session_open c request_id) ≡ ok (opening c request_id)
unfolding is_valid_config
parse_opening c request_id valid request =
    parse_session_open c request_id (bootstrap_identifier c.device_id (ground arith)) request
      (ground arith) (ground arith) (ground arith)

-- A client with a valid configuration builds an opening message for every request identifier, and the Worker
-- reads exactly the client's device, profiles, preference and capabilities from it.
pub session_open_is_understood :
    (c : ClientConfig) (request_id : Text)
    → is_valid_config c ≡ true
    → is_identifier request_id ≡ true
    → (m : Fields) × (build_session_open c request_id ≡ ok m)
      × (parse_session_open_object m ≡ ok (opening c request_id))
unfolding build_session_open require_identifier
session_open_is_understood c request_id valid request =
    (session_open c request_id, rw request refl, parse_opening c request_id valid request)
