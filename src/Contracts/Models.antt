-- ===== src/Contracts/Models.antt =====
-- voice_contracts/models.py: the messages between Director, Workers and devices. Wall-clock times,
-- floats in the source, are whole ticks of a fixed unit; identifiers are their bytes.
use realtime_voice_agent.Common.{
  ℕ, ◌-◌, Bool, true, false, not, ◌&&◌, List, [], ◌∷◌, all, is_empty, ◌==◌, Eq, Text, contains,
  is_unique, Result, guard, ◌↔◌, ◌≡◌, arith, nat_key, text_key,
}

pub data ControlProtocol : Type 0 where
  rva_1 : ControlProtocol

pub data TransportProfile : Type 0 where
  wss_opus_1 udp_opus_gcm_1 : TransportProfile

abbrev pub profile_eq : TransportProfile → TransportProfile → Bool
profile_eq wss_opus_1 wss_opus_1 = true
profile_eq udp_opus_gcm_1 udp_opus_gcm_1 = true
profile_eq _ _ = false

pub profile_eq_iff : (a b : TransportProfile) → (profile_eq a b ≡ true) ↔ (a ≡ b)
profile_eq_iff a b = ground arith

instance abbrev pub profile_key : Eq TransportProfile
profile_key = record { test = profile_eq; test_iff = profile_eq_iff }

abbrev pub control_eq : ControlProtocol → ControlProtocol → Bool
control_eq rva_1 rva_1 = true

pub data ContractError : Type 0 where
  unroutable_profiles profiles_not_unique too_many_leases leases_not_unique : ContractError
  released_not_unique bindings_not_unique profiles_not_union endpoint_not_canonical : ContractError

abbrev pub control_transport_profiles : ControlProtocol → List TransportProfile
control_transport_profiles rva_1 = wss_opus_1 ∷ udp_opus_gcm_1 ∷ []

unfoldable pub validate_control_profiles :
    ControlProtocol → List TransportProfile → Result ContractError (Unit {0})
validate_control_profiles control_protocol profiles =
    guard (all (contains (control_transport_profiles control_protocol)) profiles)
      unroutable_profiles

-- The validator that three models share: non-empty, and no profile twice.
unfoldable pub unique_profiles : List TransportProfile → Result ContractError (Unit {0})
unique_profiles value = guard (not (is_empty value) && is_unique value) profiles_not_unique

pub record BindingAdvertisement : Type 0 where
  pub control_protocol : ControlProtocol
  pub public_wss_url : Text
  pub profiles : List TransportProfile

pub record LeaseRenewal : Type 0 where
  pub tenant_id : Text
  pub device_id : Text
  pub session_epoch : Text
  pub fencing_token : ℕ

pub record WorkerHeartbeat : Type 0 where
  pub worker_id : Text
  pub public_wss_url : Text
  pub active_sessions : ℕ
  pub max_sessions : ℕ
  pub draining : Bool
  pub healthy : Bool
  pub profiles : List TransportProfile
  pub bindings : List BindingAdvertisement
  pub active_leases : List LeaseRenewal
  pub released_leases : List LeaseRenewal

unfoldable pub resolved_bindings : WorkerHeartbeat → List BindingAdvertisement
resolved_bindings h = elim h.bindings [
  | [] ↦
      record { control_protocol = rva_1; public_wss_url = h.public_wss_url; profiles = h.profiles }
      ∷ []
  | b ∷ bs ↦ b ∷ bs
]

pub record WorkerSnapshot : Type 0 where
  pub heartbeat : WorkerHeartbeat
  pub open heartbeat use *
  pub heartbeat_expires_at : ℕ

-- `max(0, max_sessions - active_sessions)`; subtraction on ℕ stops at 0.
unfoldable pub available_slots : WorkerSnapshot → ℕ
available_slots w = w.max_sessions - w.active_sessions

-- `model_copy(update={"draining": draining})`
unfoldable pub with_draining : WorkerSnapshot → Bool → WorkerSnapshot
with_draining w draining = record w { heartbeat = record w.heartbeat { draining = draining } }

pub record WorkerHeartbeatResponse : Type 0 where
  pub accepted : Bool
  pub draining : Bool
  pub heartbeat_expires_at : ℕ
  pub lease_expires_at : ℕ
  pub rejected_session_epochs : List Text

pub record RouteLease : Type 0 where
  pub tenant_id : Text
  pub device_id : Text
  pub worker_id : Text
  pub session_epoch : Text
  pub fencing_token : ℕ
  pub expires_at : ℕ

-- The equality of the model, field by field.
unfoldable pub lease_eq : RouteLease → RouteLease → Bool
lease_eq a b =
    (a.tenant_id == b.tenant_id)
    && (a.device_id == b.device_id)
    && (a.worker_id == b.worker_id)
    && (a.session_epoch == b.session_epoch)
    && (a.fencing_token == b.fencing_token)
    && (a.expires_at == b.expires_at)

pub record ConnectGrantClaims : Type 0 where
  pub tenant_id : Text
  pub device_id : Text
  pub worker_id : Text
  pub session_epoch : Text
  pub fencing_token : ℕ
  pub profiles : List TransportProfile
  pub control_protocol : ControlProtocol
  pub iat : ℕ
  pub exp : ℕ
  pub jti : Text

pub record BootstrapRequest : Type 0 where
  pub tenant_id : Text
  pub device_id : Text
  pub supported_profiles : List TransportProfile
  pub control_protocol : ControlProtocol

pub record BootstrapResponse : Type 0 where
  pub worker_id : Text
  pub worker_wss_url : Text
  pub connect_grant : Text
  pub session_epoch : Text
  pub fencing_token : ℕ
  pub allowed_profiles : List TransportProfile
  pub control_protocol : ControlProtocol
  pub expires_at : ℕ

pub record RouteReleaseRequest : Type 0 where
  pub tenant_id : Text
  pub device_id : Text
  pub worker_id : Text
  pub session_epoch : Text
  pub fencing_token : ℕ
