-- ===== src/Moderation/Publishing/Sent.antt =====
-- What `publish` of api/src/events/domain-event-publisher.ts sends.
use interview_insights.Prelude.{
  ℕ, ◌≡◌, refl, Bool, true, false, [], ◌∷◌, ◌++◌, arith, if◌then◌else◌, append_nil,
}
use interview_insights.World.{World, ok, request, catching, when}
use interview_insights.World.Calls.{Event, Call, send}
use interview_insights.Moderation.Publishing.{publish}

publish_when :
    (c : Bool) (call : Call) (w : World)
    → when c (catching (request call)) w
      ≡ (ok tt, record w { calls = w.calls ++ (if c then call ∷ [] else []) })
publish_when true call w = refl
publish_when false call w = ground (arith, append_nil w.calls)

pub publish-eq :
    (event : Event) (key : ℕ) (w : World)
    → publish event key w
      ≡ (ok tt, record w { calls = w.calls ++ (if w.connected then send event key ∷ [] else []) })
unfolding publish
publish-eq event key w = publish_when w.connected (send event key) w
