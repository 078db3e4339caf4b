-- ===== src/Access/Routes.antt =====
-- The routes of api/src/moderation/moderation.controller.ts behind their guards.
use interview_insights.Prelude.{
  ℕ, String, ◌≡◌, refl, true, false, not, ◌&&◌, Option, some, first, leb, arith,
}
use interview_insights.Prisma.{Prisma}
use interview_insights.Schema.{
  StaffRole, staff, moderator, admin, same_role, QueueEntry, FlagReason,
}
use interview_insights.World.{World, raised, forbidden, Action}
use interview_insights.Moderation.Queue.{has_id}
use interview_insights.Moderation.Review.{ActionDto, approve, reject}
use interview_insights.Access.{
  moderation_queue_approve, moderation_queue_reject, role_has_permission, permissions_guard,
  escalated_entry_guard, needs_admin_text, approve_route, reject_route, flag_route, claim_route,
  release_route, is_found_escalated,
}
use interview_insights.Access.Roles.{role_has_permission-rank, rank}

-- The action refuses with an error of the kind `forbidden` and changes nothing.
abbrev pub IsForbidden : Action QueueEntry → World → Type 0
IsForbidden m w = (text : String) × (m w ≡ (raised (forbidden text), w))

module _ ⦃P : Prisma⦄ where
  -- A session of the role staff is refused on every route that decides, claims or releases, and
  -- nothing changes.
  pub routes-staff :
      (session id : ℕ) (dto : ActionDto) (fr : Option FlagReason) (w : World)
      → IsForbidden (approve_route staff id dto) w
        × IsForbidden (reject_route staff id dto) w
        × IsForbidden (flag_route staff id dto fr) w
        × IsForbidden (claim_route staff session id) w
        × IsForbidden (release_route staff session id) w
  unfolding approve_route reject_route flag_route claim_route release_route permissions_guard
      role_has_permission
  routes-staff session id dto fr w = ((_, refl), (_, refl), (_, refl), (_, refl), (_, refl))

  -- An escalated entry is approved and rejected by an admin alone: any session of another role is
  -- refused and nothing changes.
  pub routes-escalated :
      (role : StaffRole) (id : ℕ) (dto : ActionDto) (w : World) (e : QueueEntry)
      → first (has_id id) w.db.queue ≡ some e
      → e.escalated ≡ true
      → same_role role admin ≡ false
      → IsForbidden (approve_route role id dto) w × IsForbidden (reject_route role id dto) w
  unfolding approve_route reject_route permissions_guard escalated_entry_guard role_has_permission
  routes-escalated staff id dto w e s x n = ((_, refl), (_, refl))
  routes-escalated moderator id dto w e s x n = (
    (needs_admin_text, ground (arith, P.find_first_law (has_id id) w.db.queue)),
    (needs_admin_text, ground (arith, P.find_first_law (has_id id) w.db.queue)),
  )
  routes-escalated admin id dto w e s x n = absurd (ground arith)

  -- The routes that approve and reject do what the service does for an admin, whatever the entry,
  -- and for a moderator where the entry, if there is one, is not escalated.
  pub routes-allowed :
      (role : StaffRole) (id : ℕ) (dto : ActionDto) (w : World)
      → leb 1 (rank role) ≡ true
      → (is_found_escalated (first (has_id id) w.db.queue) && not (same_role role admin)) ≡ false
      → (approve_route role id dto w ≡ approve id dto w)
        × (reject_route role id dto w ≡ reject id dto w)
  unfolding approve_route reject_route permissions_guard escalated_entry_guard role_has_permission
  routes-allowed role id dto w k n = (
    ground (
      arith,
      P.find_first_law (has_id id) w.db.queue,
      role_has_permission-rank role moderation_queue_approve,
    ),
    ground (
      arith,
      P.find_first_law (has_id id) w.db.queue,
      role_has_permission-rank role moderation_queue_reject,
    ),
  )
