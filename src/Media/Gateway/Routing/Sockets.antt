-- ===== src/Media/Gateway/Routing/Sockets.antt =====
-- The gateway over any sequence of calls and callbacks: its socket, and its table of sessions.
use realtime_voice_agent.Common.{
  ℕ, ◌≡◌, ◌≢◌, ◌∙◌, ap, subst, false, none, some, List, [], ◌∷◌, arith, Text, text_key, nat_key,
  eq_iff, Option-cases, Bool-cases, inl, inr, ok,
}
use realtime_voice_agent.Common.Dict.{get, put, get-put}
use realtime_voice_agent.Media.Gateway.{Address, UdpGrant, UdpMediaError, new_session}
use realtime_voice_agent.Media.Gateway.Routing.{
  Gateway, is_ready, start, start_failed, transport_started, fail_transport, transport_failed,
  close_gateway, remove_session, route_datagram, fresh_grant, create_session,
}

pub data Call : Type 0 where
  starts stops : Call
  start_fails : ℕ → UdpMediaError → Call
  connects : ℕ → Call
  loses : ℕ → UdpMediaError → Call
  fails : UdpMediaError → Call
  receives : ℕ → Text → Address → Call
  creates : List UdpGrant → ℕ → Call
  removes : Text → Call

unfoldable pub step : Call → Gateway → Gateway
step starts g = start g
step stops g = close_gateway g
step (start_fails generation e) g = start_failed generation e g
step (connects generation) g = transport_started generation g
step (loses generation e) g = fail_transport generation e false g
step (fails e) g = transport_failed e g
step (receives generation datagram addr) g = route_datagram generation datagram addr g
step (creates grants queue_size) g = (create_session grants queue_size g).0
step (removes media_id) g = remove_session media_id g

unfoldable pub run : List Call → Gateway → Gateway
run [] g = g
run (c ∷ cs) g = run cs (step c g)

-- The socket in use is the newest one's; the protocol object is dropped when the gateway fails or closes.
pub record IsSound (g : Gateway) : Type 0 where
  pub current :
      (n : ℕ) → g.transport ≡ some n → (g.protocol ≡ some n) × (g.transport_generation ≡ n)
  pub healthy : (n : ℕ) → g.protocol ≡ some n → (g.failure ≡ none) × (g.closing ≡ false)

fresh_grant_lem :
    (grants : List UdpGrant) (g : Gateway) (grant : UdpGrant)
    → fresh_grant grants g ≡ some grant
    → get grant.media_id g.sessions ≡ none
unfolding fresh_grant
fresh_grant_lem [] g grant h = absurd (ground arith)
fresh_grant_lem (x ∷ xs) g grant h = elim (Option-cases (get x.media_id g.sessions)) [
  | inl e ↦
      let same : x ≡ grant = ground arith in subst (λ y. get y.media_id g.sessions ≡ none) same e
  | inr (s, e) ↦ fresh_grant_lem xs g grant (ground arith)
]

-- A session that is created is a new one, under a media id that no session had, and leaves every other
-- session as it was.
pub created_session_is_new :
    (g : Gateway) (grants : List UdpGrant) (queue_size : ℕ) (grant : UdpGrant) (media_id : Text)
    → (create_session grants queue_size g).1 ≡ ok (some grant)
    → media_id ≢ grant.media_id
    → let t = (create_session grants queue_size g).0 in
      (get grant.media_id g.sessions ≡ none)
      × (get grant.media_id t.sessions ≡ some (new_session grant queue_size))
      × (get media_id t.sessions ≡ get media_id g.sessions)
unfolding create_session
created_session_is_new g grants queue_size grant media_id h other = elim (Bool-cases (is_ready g)) [
  | inr e ↦ absurd (ground arith)
  | inl e ↦ elim (Option-cases (fresh_grant grants g)) [
    | inl f ↦ absurd (ground arith)
    | inr (x, f) ↦
        let same : x ≡ grant = ground arith in
        let made : (create_session grants queue_size g).0.sessions
            ≡ put grant.media_id (new_session grant queue_size) g.sessions =
          subst
            (λ y.
              (create_session grants queue_size g).0.sessions
              ≡ put y.media_id (new_session y queue_size) g.sessions)
            same (ground arith) in
        (
          fresh_grant_lem grants g grant (f ∙ ap some same),
          rw made (
              ground (
                arith,
                get-put grant.media_id grant.media_id (new_session grant queue_size) g.sessions,
                eq_iff grant.media_id grant.media_id,
              )),
          rw made (
              ground (
                arith,
                get-put grant.media_id media_id (new_session grant queue_size) g.sessions,
                eq_iff grant.media_id media_id,
              )),
        )
  ]
]
