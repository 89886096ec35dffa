-- ===== src/Contracts/Samples.antt =====
-- Small ports of the grant codec for tests: claims as numbers with their lengths, and an encoding that
-- keeps clear of the dot.
use realtime_voice_agent.Common.{
  Bool, replicate, nat_eq, zero, ◌+◌, suc, ℕ, ◌≡◌, refl, ap, true, not, if◌then◌else◌, ltb, List,
  [], ◌∷◌, ◌++◌, all, length, take, drop, Text, text_key, nat_key, ◌==◌, eq_refl, Option, none,
  some, arith,
}
use realtime_voice_agent.Contracts.Models.{
  ConnectGrantClaims, ControlProtocol, rva_1, TransportProfile, wss_opus_1, udp_opus_gcm_1,
}
use realtime_voice_agent.Contracts.Grants.{Ports, GrantCodec, dot, header_json}
use realtime_voice_agent.Contracts.Grants.Issued.{AreLawful}

abbrev put_text : Text → Text → Text
put_text t rest = length t ∷ (t ++ rest)

abbrev get_text : Text → Text × Text
get_text [] = ([], [])
get_text (n ∷ rest) = (take n rest, drop n rest)

take-length_append : (t rest : Text) → take (length t) (t ++ rest) ≡ t
take-length_append [] rest = refl
take-length_append (x ∷ t) rest = ap (◌∷◌ x) (take-length_append t rest)

drop-length_append : (t rest : Text) → drop (length t) (t ++ rest) ≡ rest
drop-length_append [] rest = refl
drop-length_append (x ∷ t) rest = drop-length_append t rest

get_text-put_text : (t rest : Text) → get_text (put_text t rest) ≡ (t, rest)
get_text-put_text t rest = ground (arith, take-length_append t rest, drop-length_append t rest)

abbrev profile_code : TransportProfile → ℕ
profile_code wss_opus_1 = 0
profile_code udp_opus_gcm_1 = 1

abbrev code_profile : ℕ → TransportProfile
code_profile n = if nat_eq n 0 then wss_opus_1 else udp_opus_gcm_1

abbrev load_profiles : Text → List TransportProfile
load_profiles [] = []
load_profiles (c ∷ cs) = code_profile c ∷ load_profiles cs

abbrev dump_profiles : List TransportProfile → Text
dump_profiles [] = []
dump_profiles (p ∷ ps) = profile_code p ∷ dump_profiles ps

load_profiles-dump_profiles : (ps : List TransportProfile) → load_profiles (dump_profiles ps) ≡ ps
load_profiles-dump_profiles [] = refl
load_profiles-dump_profiles (wss_opus_1 ∷ ps) = ap (◌∷◌ wss_opus_1) (load_profiles-dump_profiles ps)
load_profiles-dump_profiles (udp_opus_gcm_1 ∷ ps) =
    ap (◌∷◌ udp_opus_gcm_1) (load_profiles-dump_profiles ps)

abbrev dump : ConnectGrantClaims → Text
dump c = put_text c.tenant_id (
    put_text c.device_id (
      put_text c.worker_id (
        put_text c.session_epoch
          (put_text c.jti (c.fencing_token ∷ c.iat ∷ c.exp ∷ dump_profiles c.profiles)))))

abbrev load_rest : Text → Text → Text → Text → Text → Text → Option ConnectGrantClaims
load_rest t d w e j (f ∷ i ∷ x ∷ ps) = some (record {
  tenant_id = t;
  device_id = d;
  worker_id = w;
  session_epoch = e;
  fencing_token = f;
  profiles = load_profiles ps;
  control_protocol = rva_1;
  iat = i;
  exp = x;
  jti = j;
})
load_rest t d w e j _ = none

abbrev load : Text → Option ConnectGrantClaims
load s =
    let (t, s1) = get_text s in
    let (d, s2) = get_text s1 in
    let (w, s3) = get_text s2 in
    let (e, s4) = get_text s3 in let (j, s5) = get_text s4 in load_rest t d w e j s5

only_protocol : (p : ControlProtocol) → rva_1 ≡ p
only_protocol rva_1 = refl

load-dump : (c : ConnectGrantClaims) → load (dump c) ≡ some c
load-dump c =
    let rest5 = c.fencing_token ∷ c.iat ∷ c.exp ∷ dump_profiles c.profiles in
    let rest4 = put_text c.jti rest5 in
    let rest3 = put_text c.session_epoch rest4 in
    let rest2 = put_text c.worker_id rest3 in
    let rest1 = put_text c.device_id rest2 in
    ground (
      arith,
      take-length_append c.tenant_id rest1,
      drop-length_append c.tenant_id rest1,
      take-length_append c.device_id rest2,
      drop-length_append c.device_id rest2,
      take-length_append c.worker_id rest3,
      drop-length_append c.worker_id rest3,
      take-length_append c.session_epoch rest4,
      drop-length_append c.session_epoch rest4,
      take-length_append c.jti rest5,
      drop-length_append c.jti rest5,
      load_profiles-dump_profiles c.profiles,
      only_protocol c.control_protocol,
    )

-- A number as so many ones and a zero.
abbrev encode : Text → Text
encode [] = []
encode (c ∷ cs) = replicate c 49 ++ 48 ∷ encode cs

abbrev decode_from : ℕ → Text → Text
decode_from n [] = []
decode_from n (c ∷ cs) = if nat_eq c 49 then decode_from (suc n) cs else n ∷ decode_from 0 cs

decode_from-replicate :
    (n c : ℕ) (rest : Text)
    → decode_from n (replicate c 49 ++ 48 ∷ rest) ≡ (n + c) ∷ decode_from 0 rest
decode_from-replicate n zero rest = ground arith
decode_from-replicate n (suc c) rest = ground (arith, decode_from-replicate (suc n) c rest)

decode_from-encode : (x : Text) → decode_from 0 (encode x) ≡ x
decode_from-encode [] = refl
decode_from-encode (c ∷ cs) =
    ground (arith, decode_from-replicate 0 c (encode cs), decode_from-encode cs)

all-replicate :
    (p : ℕ → Bool) (c : ℕ) (rest : Text)
    → p 48 ≡ true
    → p 49 ≡ true
    → all p rest ≡ true
    → all p (replicate c 49 ++ 48 ∷ rest) ≡ true
all-replicate p zero rest a b h = ground (arith, a, h)
all-replicate p (suc c) rest a b h = ground (arith, b, all-replicate p c rest a b h)

all-encode : (p : ℕ → Bool) (x : Text) → p 48 ≡ true → p 49 ≡ true → all p (encode x) ≡ true
all-encode p [] a b = refl
all-encode p (c ∷ cs) a b = all-replicate p c (encode cs) a b (all-encode p cs a b)

abbrev pub sample_ports : Ports
sample_ports = record {
  encode = encode;
  decode = λ x. some (decode_from 0 x);
  sign = λ key message. key ++ message;
  dump_claims = dump;
  load_claims = load;
  load_header = λ json. some (json == header_json);
}

pub sample_ports-AreLawful : AreLawful sample_ports
sample_ports-AreLawful = record {
  decodes = λ x. ap some (decode_from-encode x);
  loads = load-dump;
  loads_header = ap some (eq_refl header_json);
  ascii = λ x. all-encode (λ c. ltb c 128) x refl refl;
  no_dot = λ x. all-encode (λ c. not (c == dot)) x refl refl;
}

abbrev pub sample_codec : GrantCodec
sample_codec = record { ports = sample_ports; key = 1 ∷ 2 ∷ 3 ∷ []; clock_skew = 2 }
