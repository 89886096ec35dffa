-- ===== src/Client/Reports.antt =====
-- The end of a playback as the client reports it (session/state.py) and as the Worker checks it
-- (bindings/rva/response.py).
use realtime_voice_agent.Common.{ℕ, ◌≡◌, Option, none, some, arith, nat_key, ◌≤◌}
use realtime_voice_agent.Client.SessionState.{Playback}
use realtime_voice_agent.Client.SessionState.Playout
use realtime_voice_agent.Client.SessionState.Playout.{check_ended, check_last, lacks_completion}
use realtime_voice_agent.Worker.Response
use realtime_voice_agent.Worker.Response.{ResponseRecord, ResponseOutcome}
use realtime_voice_agent.Worker.Response.Playback.{check_end, is_expected}

-- A stopped playback that the client may report, of a playback whose last media sequence is not above
-- the Worker's last one, passes the tests of the Worker on a cancelled response.
pub stopped_report_is_accepted :
    (p : Playback) (r : ResponseRecord) (samples k l : ℕ)
    → r.outcome ≡ some ResponseOutcome.cancelled
    → r.last_media_sequence ≡ some l
    → p.last_media_sequence ≡ some k
    → k ≤ l
    → (last : Option ℕ) → check_ended p Playout.stopped samples last ≡ none
    → check_end r Response.PlaybackOutcome.stopped samples last ≡ none
unfolding check_end is_expected check_ended check_last lacks_completion
stopped_report_is_accepted p r samples k l o e f m none h = ground (arith, e, o)
stopped_report_is_accepted p r samples k l o e f m (some n) h = ground (arith, e, o, f)
