-- ===== src/Media/Gateway/Pinned.antt =====
-- The source of a session: the address of its first probe.
use realtime_voice_agent.Common.{ℕ, ◌≡◌, subst, Option, none, some, List, [], ◌∷◌, Text, arith}
use realtime_voice_agent.Media.Gateway.{Cipher, UdpGrant, Address, Session, new_session}
use realtime_voice_agent.Media.Gateway.Events.{Event, run}
use realtime_voice_agent.Media.Gateway.Moves.{
  View, view, Move, moves_keep, pins, numbers, seals, transmits, starts, hears, takes, puts,
  resyncs, skips, IsDrained,
}
use realtime_voice_agent.Media.Gateway.Traces.{run_keeps, run-Keeps, new_session-IsDrained}

-- Nothing was sent before there was a source, and all that was sent went to it.
abbrev pub IsAddressed : Option Address → List (Address × Text) → Type 0
IsAddressed o [] = Unit {0}
IsAddressed o ((a, datagram) ∷ rest) = (o ≡ some a) × IsAddressed o rest

nothing_sent :
    (o : Option Address) (xs : List (Address × Text)) → IsAddressed none xs → IsAddressed o xs
nothing_sent o [] h = tt
nothing_sent o ((a, datagram) ∷ rest) h = absurd (ground arith)

module _ (cipher : Cipher) where
  Move-IsAddressed :
      (v w : View)
      → Move cipher v w
      → IsAddressed v.source v.datagrams
      → IsAddressed w.source w.datagrams
  Move-IsAddressed v w (pins a c) h =
      nothing_sent (some a) v.datagrams (subst (λ o. IsAddressed o v.datagrams) c h)
  Move-IsAddressed v w (numbers c) h = h
  Move-IsAddressed v w (seals p c) h = h
  Move-IsAddressed v w (transmits a d c) h = (c, h)
  Move-IsAddressed v w (starts k c b) h = h
  Move-IsAddressed v w (hears e p c b g) h = h
  Move-IsAddressed v w (takes e p c b) h = h
  Move-IsAddressed v w (puts e k p c l u g) h = h
  Move-IsAddressed v w (resyncs e k c l) h = h
  Move-IsAddressed v w (skips e k c l b) h = h

  Move-source : (a : Address) (v w : View) → Move cipher v w → v.source ≡ some a → w.source ≡ some a
  Move-source a v w (pins b c) h = absurd (ground arith)
  Move-source a v w (numbers c) h = h
  Move-source a v w (seals p c) h = h
  Move-source a v w (transmits b d c) h = h
  Move-source a v w (starts k c b) h = h
  Move-source a v w (hears e p c b g) h = h
  Move-source a v w (takes e p c b) h = h
  Move-source a v w (puts e k p c l u g) h = h
  Move-source a v w (resyncs e k c l) h = h
  Move-source a v w (skips e k c l b) h = h

-- Once a new session has a source, it keeps that source whatever events follow, and every datagram that
-- it has sent or sends goes there.
pub source_is_pinned :
    (cipher : Cipher) (g : UdpGrant) (queue_size : ℕ) (es es' : List Event) (a : Address)
    → (run cipher es (new_session g queue_size)).source ≡ some a
    → let t = run cipher es' (run cipher es (new_session g queue_size)) in
      (t.source ≡ some a) × IsAddressed (some a) t.datagrams
source_is_pinned cipher g queue_size es es' a h =
    (kept, subst (λ o. IsAddressed o (run cipher es' s).datagrams) kept addressed)
  where
    s : Session
    s = run cipher es (new_session g queue_size)

    first : IsDrained (view s)
    first = (run-Keeps cipher es _ (new_session-IsDrained g queue_size)).drained

    kept : (run cipher es' s).source ≡ some a
    kept =
        moves_keep cipher (λ v. v.source ≡ some a) (Move-source cipher a)
          (run-Keeps cipher es' s first).moves h

    addressed : IsAddressed (run cipher es' s).source (run cipher es' s).datagrams
    addressed =
        moves_keep cipher (λ v. IsAddressed v.source v.datagrams) (Move-IsAddressed cipher)
          (run-Keeps cipher es' s first).moves
          (run_keeps cipher (λ v. IsAddressed v.source v.datagrams) (Move-IsAddressed cipher) g
            queue_size es (unfold new_session in tt))
