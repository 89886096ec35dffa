-- ===== src/Contracts/Grants/Issued.antt =====
-- On `issue` and `verify` of the grant codec taken together.
use realtime_voice_agent.Common.{
  ℕ, ◌+◌, ◌≤◌, ◌<◌, ◌≡◌, ◌∙◌, refl, ap, true, not, [], ◌∷◌, ◌++◌, all, ltb, Text, text_key, nat_key,
  ◌==◌, eq_refl, some, ok, arith,
}
use realtime_voice_agent.Contracts.Models.{ConnectGrantClaims}
use realtime_voice_agent.Contracts.Grants.{
  GrantCodec, Ports, dot, header_json, cons_first, split_dots, issue, signing_input, check_claims,
  open_payload, check_signature, check_ascii, verify_parts, three_parts, verify,
}

-- What the documentation of those libraries says: decoding and loading undo encoding and dumping, and
-- the URL-safe alphabet is ASCII without the dot.
pub record AreLawful (p : Ports) : Type 0 where
  pub decodes : (x : Text) → p.decode (p.encode x) ≡ some x
  pub loads : (c : ConnectGrantClaims) → p.load_claims (p.dump_claims c) ≡ some c
  pub loads_header : p.load_header header_json ≡ some true
  pub ascii : (x : Text) → all (λ c. ltb c 128) (p.encode x) ≡ true
  pub no_dot : (x : Text) → all (λ c. not (c == dot)) (p.encode x) ≡ true

split_dots-append :
    (part rest : Text)
    → all (λ c. not (c == dot)) part ≡ true
    → split_dots (part ++ dot ∷ rest) ≡ part ∷ split_dots rest
unfolding split_dots cons_first
split_dots-append [] rest h = refl
split_dots-append (c ∷ part) rest h = ground (arith, split_dots-append part rest)

split_dots-last :
    (part : Text) → all (λ c. not (c == dot)) part ≡ true → split_dots part ≡ part ∷ []
unfolding split_dots cons_first
split_dots-last [] h = refl
split_dots-last (c ∷ part) h = ground (arith, split_dots-last part)

module _ (codec : GrantCodec) (v : AreLawful codec.ports) (claims : ConnectGrantClaims) where
  abbrev header : Text
  header = codec.ports.encode header_json

  abbrev payload : Text
  payload = codec.ports.encode (codec.ports.dump_claims claims)

  abbrev digest : Text
  digest = codec.ports.sign codec.key (signing_input codec header payload)

  split_dots-issue :
      split_dots (issue codec claims) ≡ header ∷ payload ∷ codec.ports.encode digest ∷ []
  unfolding issue
  split_dots-issue =
      split_dots-append header (payload ++ dot ∷ codec.ports.encode digest) (v.no_dot header_json)
      ∙ ap (λ x. header ∷ x)
          (split_dots-append payload (codec.ports.encode digest)
              (v.no_dot (codec.ports.dump_claims claims))
            ∙ ap (λ x. payload ∷ x) (split_dots-last (codec.ports.encode digest) (v.no_dot digest)))

  -- A grant that was issued is verified: at a clock from its issue on (less the skew) and before its
  -- expiry, for the worker and the device that it names, the claims come back.
  pub verify-issue :
      (now : ℕ)
      → claims.iat ≤ now + codec.clock_skew
      → claims.iat < claims.exp
      → now < claims.exp
      → verify codec now (issue codec claims) (some claims.worker_id) (some claims.device_id)
        ≡ ok claims
  unfolding verify three_parts verify_parts check_ascii check_signature open_payload check_claims
  verify-issue now a b c = ground (
    arith,
    split_dots-issue,
    v.decodes header_json,
    v.loads_header,
    v.ascii (codec.ports.dump_claims claims),
    v.decodes (codec.ports.dump_claims claims),
    v.loads claims,
    eq_refl claims.worker_id,
    eq_refl claims.device_id,
    v.decodes digest,
    eq_refl digest,
  )
