-- ===== src/Contracts/Validation.antt =====
-- voice_contracts/models.py: the model validators. What `urlsplit` makes of the endpoint is an argument.
use realtime_voice_agent.Common.{
  Bool, true, not, ◌&&◌, leb, List, [], ◌∷◌, ◌++◌, map, all, length, contains, is_unique, is_empty,
  Text, text_key, pair_key, nat_key, codes, Option, is_some, Result, guard, ◌>>◌, ◌==◌,
}
use realtime_voice_agent.Contracts.Models.{
  rva_1, control_eq, TransportProfile, profile_key, ContractError, BindingAdvertisement,
  LeaseRenewal, WorkerHeartbeat, ConnectGrantClaims, unique_profiles, validate_control_profiles,
  endpoint_not_canonical, too_many_leases, leases_not_unique, released_not_unique,
  bindings_not_unique, profiles_not_union,
}

-- The fields of `urlsplit(url)`.
pub record SplitUrl : Type 0 where
  pub scheme : Text
  pub hostname : Option Text
  pub path : Text
  pub query : Text
  pub fragment : Text
  pub username : Option Text
  pub password : Option Text

unfoldable pub is_canonical : SplitUrl → Bool
is_canonical u =
    contains (codes "ws" ∷ codes "wss" ∷ []) u.scheme
    && is_some u.hostname
    && (u.path == codes "/rva/v1/voice")
    && is_empty u.query
    && is_empty u.fragment
    && not (is_some u.username)
    && not (is_some u.password)

unfoldable pub canonical_endpoint :
    SplitUrl → BindingAdvertisement → Result ContractError (Unit {0})
canonical_endpoint parsed b =
    guard (is_canonical parsed) endpoint_not_canonical
    >> validate_control_profiles b.control_protocol b.profiles

-- The validators of a binding in their order.
unfoldable pub validate_binding :
    (Text → SplitUrl) → BindingAdvertisement → Result ContractError (Unit {0})
validate_binding urlsplit b =
    unique_profiles b.profiles >> canonical_endpoint (urlsplit b.public_wss_url) b

-- `set(xs) == set(ys)`
unfoldable pub same_profiles : List TransportProfile → List TransportProfile → Bool
same_profiles xs ys = all (contains ys) xs && all (contains xs) ys

unfoldable pub advertised_profiles : List BindingAdvertisement → List TransportProfile
advertised_profiles [] = []
advertised_profiles (b ∷ bs) = b.profiles ++ advertised_profiles bs

unfoldable pub unique_controls : List BindingAdvertisement → Bool
unique_controls [] = true
unique_controls (b ∷ bs) =
    all (λ c. not (control_eq c.control_protocol b.control_protocol)) bs && unique_controls bs

-- With no bindings given, the one that `resolved_bindings` builds is validated.
unfoldable pub validate_bindings :
    (Text → SplitUrl) → WorkerHeartbeat → Result ContractError (Unit {0})
validate_bindings urlsplit h = elim h.bindings [
  | [] ↦ validate_binding urlsplit (record {
    control_protocol = rva_1;
    public_wss_url = h.public_wss_url;
    profiles = h.profiles;
  })
  | b ∷ bs ↦
      guard (unique_controls (b ∷ bs)) bindings_not_unique
      >> guard (same_profiles (advertised_profiles (b ∷ bs)) h.profiles) profiles_not_union
]

abbrev pub principal : LeaseRenewal → Text × Text
principal l = (l.tenant_id, l.device_id)

abbrev pub claim : LeaseRenewal → Text × (Text × Text)
claim l = (l.tenant_id, (l.device_id, l.session_epoch))

unfoldable pub bounded_active_leases :
    (Text → SplitUrl) → WorkerHeartbeat → Result ContractError (Unit {0})
bounded_active_leases urlsplit h =
    guard (leb (length h.active_leases) h.max_sessions) too_many_leases
    >> guard (is_unique (map principal h.active_leases)) leases_not_unique
    >> guard (is_unique (map claim h.released_leases)) released_not_unique
    >> validate_bindings urlsplit h

-- The two validators of the claims of a grant.
unfoldable pub validate_claims : ConnectGrantClaims → Result ContractError (Unit {0})
validate_claims c =
    unique_profiles c.profiles >> validate_control_profiles c.control_protocol c.profiles
