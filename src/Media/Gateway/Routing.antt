-- ===== src/Media/Gateway/Routing.antt =====
-- `UdpMediaGateway`: one socket for all sessions. A session's callbacks are its own state; here stands
-- which session a datagram goes to, and which socket the callbacks of asyncio are about. Protocol
-- objects are numbered by the count of transports at their making.
pub mod Sockets
use realtime_voice_agent.Common.{
  ℕ, ◌+◌, Bool, true, false, not, ◌&&◌, ◌||◌, Option, none, some, List, [], ◌∷◌, ◌++◌, map, take,
  drop, length, Text, text_key, nat_key, option_eq, ◌==◌, if◌then◌else◌, ltb, nat_eq, is_some,
  Result, ok, err,
}
use realtime_voice_agent.Common.Dict.{Dict, get, put, remove, values}
use realtime_voice_agent.Media.Gateway.{
  Session, Address, UdpGrant, UdpMediaError, gateway_unavailable, new_session,
}
use realtime_voice_agent.Media.Gateway.Events.{enqueue, close}

pub record Stats : Type 0 where
  pub datagram_arrived : ℕ
  pub undersized : ℕ
  pub media_identity_matched : ℕ
  pub media_identity_unknown : ℕ

-- `protocol` and `transport` are the generation of the object they hold. `closed_transports` is the
-- sockets on which `close` was called, `closed_sessions` the sessions that `close` took along.
pub record Gateway : Type 0 where
  pub protocol : Option ℕ
  pub transport : Option ℕ
  pub transport_generation : ℕ
  pub sessions : Dict Text Session
  pub stats : Stats
  pub failure : Option UdpMediaError
  pub closing : Bool
  pub closed_transports : List ℕ
  pub closed_sessions : List Session

unfoldable pub new_gateway : Gateway
new_gateway = record {
  protocol = none;
  transport = none;
  transport_generation = 0;
  sessions = [];
  stats = record {
    datagram_arrived = 0;
    undersized = 0;
    media_identity_matched = 0;
    media_identity_unknown = 0;
  };
  failure = none;
  closing = false;
  closed_transports = [];
  closed_sessions = [];
}

unfoldable pub is_ready : Gateway → Bool
is_ready g = is_some g.transport && not (is_some g.failure) && not g.closing

-- `start` up to its await; the next callback brings the transport.
unfoldable pub start : Gateway → Gateway
start g = if is_ready g then g else record g {
  closing = false;
  failure = none;
  transport_generation = g.transport_generation + 1;
  protocol = some (g.transport_generation + 1);
}

-- A callback is of the protocol object of some generation.
unfoldable pub is_current_transport : ℕ → Gateway → Bool
is_current_transport generation g =
    option_eq g.protocol (some generation) && nat_eq g.transport_generation generation

-- The endpoint could not be made.
unfoldable pub start_failed : ℕ → UdpMediaError → Gateway → Gateway
start_failed generation e g =
    if is_current_transport generation g
    then record g { protocol = none; transport = none; failure = some e }
    else g

unfoldable pub transport_started : ℕ → Gateway → Gateway
transport_started generation g =
    if g.closing || not (is_current_transport generation g)
    then record g { closed_transports = generation ∷ g.closed_transports }
    else record g { transport = some generation }

abbrev close_transport : Option ℕ → List ℕ → List ℕ
close_transport none closed = closed
close_transport (some generation) closed = generation ∷ closed

-- `session._report_failure(exc)` for every session.
unfoldable pub tell : UdpMediaError → Dict Text Session → Dict Text Session
tell e [] = []
tell e ((media_id, s) ∷ rest) = (media_id, record s { failures = e ∷ s.failures }) ∷ tell e rest

unfoldable pub fail_transport : ℕ → UdpMediaError → Bool → Gateway → Gateway
fail_transport generation e close_it g =
    if g.closing || is_some g.failure || not (is_current_transport generation g)
    then g
    else record g {
      failure = some e;
      protocol = none;
      transport = none;
      closed_transports =
          if close_it then close_transport g.transport g.closed_transports else g.closed_transports;
      sessions = tell e g.sessions;
    }

unfoldable pub transport_failed : UdpMediaError → Gateway → Gateway
transport_failed e g = elim g.protocol [
  | none ↦ g
  | some protocol ↦ fail_transport g.transport_generation e true g
]

-- `UdpMediaGateway.close`
unfoldable pub close_gateway : Gateway → Gateway
close_gateway g = record g {
  closing = true;
  sessions = [];
  closed_sessions = map close (values g.sessions) ++ g.closed_sessions;
  protocol = none;
  transport = none;
  closed_transports = close_transport g.transport g.closed_transports;
}

-- `remove`, by the session that is closed or expires: it leaves the table.
unfoldable pub remove_session : Text → Gateway → Gateway
remove_session media_id g = record g { sessions = remove media_id g.sessions }

-- The bytes 4 to 12 of the header are the media id.
unfoldable pub route_datagram : ℕ → Text → Address → Gateway → Gateway
route_datagram generation datagram addr g =
    if not (is_current_transport generation g)
    then g
    else if ltb (length datagram) 32
    then record g {
      stats = record g.stats {
        datagram_arrived = g.stats.datagram_arrived + 1;
        undersized = g.stats.undersized + 1;
      };
    }
    else elim (get (take 8 (drop 4 datagram)) g.sessions) [
      | none ↦ record g {
        stats = record g.stats {
          datagram_arrived = g.stats.datagram_arrived + 1;
          media_identity_unknown = g.stats.media_identity_unknown + 1;
        };
      }
      | some session ↦ record g {
        stats = record g.stats {
          datagram_arrived = g.stats.datagram_arrived + 1;
          media_identity_matched = g.stats.media_identity_matched + 1;
        };
        sessions = put (take 8 (drop 4 datagram)) (enqueue datagram addr session) g.sessions;
      }
    ]

-- `grants` is what the random generator yields, the first with a media id that is not in use is taken;
-- `none` if none of them has one.
unfoldable pub fresh_grant : List UdpGrant → Gateway → Option UdpGrant
fresh_grant [] g = none
fresh_grant (grant ∷ grants) g =
    if is_some (get grant.media_id g.sessions) then fresh_grant grants g else some grant

unfoldable pub create_session :
    List UdpGrant → ℕ → Gateway → Gateway × Result UdpMediaError (Option UdpGrant)
create_session grants queue_size g =
    if not (is_ready g) then (g, err gateway_unavailable) else elim (fresh_grant grants g) [
      | none ↦ (g, ok none)
      | some grant ↦ (
        record g { sessions = put grant.media_id (new_session grant queue_size) g.sessions },
        ok (some grant),
      )
    ]
