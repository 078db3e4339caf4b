-- ===== src/Examples/Moderation0.antt =====
-- The theorems about the moderation queue at concrete worlds.
use interview_insights.Prelude.{
  ◌≤◌, ◌⊎◌, arith, ◌≡◌, refl, false, none, some, List, [], ◌∷◌, ◌++◌, first, drop_where,
  count_where, contains, IsKeyed,
}
use interview_insights.Prisma.{list_client}
use interview_insights.Schema.{round_rating, low_quality}
use interview_insights.World.{ok}
use interview_insights.Moderation.Queue.{
  has_id, is_unreviewed_for, reenqueue, get_moderation_sla_hours, sla_hours_of,
}
use interview_insights.Moderation.Queue.Resubmission.{reenqueue_outcome, resubmitted}
use interview_insights.Moderation.Review.{ActionDto, decided_approved, decided_rejected, review}
use interview_insights.Moderation.Review.Refinement.{review_outcome, review_spec}
use interview_insights.Moderation.Review.Decisions.{review-answers}
use interview_insights.Moderation.Schedule.{
  Atom, claims, releases, commits, reenqueues, drops_orphan, passes, decided, run,
}
use interview_insights.Moderation.Schedule.Issued.{IsSound}
use interview_insights.Moderation.Schedule.Once.{AreDistinct, decided-AreDistinct}
use interview_insights.Moderation.Schedule.Claimed.{IsHeld, may_remove, run-IsHeld}
use interview_insights.Examples.World0.{world0, open_entry, escalated_entry}

abbrev says : ActionDto
says = record {
  reviewed_by = some "ada";
  rejection_reason_category = some low_quality;
  review_note = none;
}

world0-IsKeyed : IsKeyed (λ e. e.id) world0.db.queue
unfolding contains
world0-IsKeyed = (refl, (refl, (refl, (refl, (refl, tt)))))

world0-IsSound : IsSound world0
unfolding contains
world0-IsSound = record { issued = (refl, (refl, (refl, (refl, (refl, tt))))) }

-- Two moderators decide the open entry, after the same stale read, while others claim and resubmit.
abbrev schedule0 : List Atom
schedule0 =
    claims 1 71
    ∷ commits open_entry 1 decided_approved says none none
    ∷ releases 3 71
    ∷ commits open_entry 1 decided_rejected says none none
    ∷ reenqueues round_rating 11
    ∷ passes 4000
    ∷ drops_orphan 4
    ∷ commits escalated_entry 2 decided_rejected says none none
    ∷ []

decided-AreDistinct_example : AreDistinct (decided schedule0 world0)
decided-AreDistinct_example = decided-AreDistinct schedule0 world0 world0-IsSound

-- Another moderator claims and releases the entry that is held, and the orphan of another one is dropped.
abbrev schedule1 : List Atom
schedule1 =
    claims 3 71
    ∷ releases 3 71
    ∷ commits open_entry 1 decided_approved says none none
    ∷ drops_orphan 4
    ∷ []

run-IsHeld_example :
    let queue = (run schedule1 world0).db.queue in
    IsHeld 3 70 queue
    × ((1 ≤ count_where (may_remove 3) schedule1) ⊎ (1 ≤ count_where (has_id 3) queue))
unfolding contains count_where
run-IsHeld_example =
    run-IsHeld 3 70 schedule1 world0 world0-IsSound refl (refl, (refl, (refl, (refl, tt))))
      (refl, (refl, (refl, (refl, (refl, tt))))) (omega arith)

review_outcome_example :
    let out = review 2 decided_rejected says none none world0 in
    (out.0, out.1.db)
    ≡ review_spec 2 decided_rejected says none none world0 (first (has_id 2) world0.db.queue)
review_outcome_example = review_outcome 2 decided_rejected says none none world0

review-answers_example :
    let out = review 1 decided_approved says none none world0 in
    let out' =
      review 1 decided_approved says none none
        (record world0 { answers = λ call. false; connected = false }) in
    (out'.0 ≡ out.0) × (out'.1.db ≡ out.1.db)
review-answers_example =
    review-answers 1 decided_approved says none none world0 (λ call. false) false

reenqueue_outcome_example :
    let out = reenqueue round_rating 11 world0 in
    (out.0 ≡ ok (resubmitted round_rating 11 2 world0))
    × (out.1.db.queue
        ≡ drop_where (is_unreviewed_for round_rating 11) world0.db.queue
          ++ resubmitted round_rating 11 2 world0 ∷ [])
    × (count_where (is_unreviewed_for round_rating 11) out.1.db.queue ≡ 1)
unfolding get_moderation_sla_hours sla_hours_of
reenqueue_outcome_example = reenqueue_outcome round_rating 11 2 world0 refl
