-- ===== src/Moderation/Claims.antt =====
-- moderation.service.ts: claim and release. Each is a read that checks, and a gated write; other
-- calls may run between the two.
pub mod Holders
use interview_insights.Prelude.{
  ℕ, zero, suc, Bool, false, not, ◌&&◌, Option, none, some, is_some, ◌==◌,
}
use interview_insights.Prisma.{Prisma}
use interview_insights.Schema.{QueueEntry, Db}
use interview_insights.World.{
  World, Action, Failure, conflict, forbidden, record_not_found, pure, raise, raise_if, or_raise,
  gets, put_db, ◌>>=◌, ◌>>◌,
}
use interview_insights.Moderation.Queue.{has_id, is_unreviewed}

abbrev pub already_reviewed : Failure
already_reviewed = conflict "This item has already been reviewed."

abbrev pub already_claimed : Failure
already_claimed = conflict "This item is already claimed by another moderator."

abbrev pub not_claimed : Failure
not_claimed = conflict "This item is not currently claimed."

abbrev pub not_holder : Failure
not_holder = forbidden "This item is claimed by another moderator."

-- claimedById === moderatorId
abbrev pub is_held_by : ℕ → Option ℕ → Bool
is_held_by m none = false
is_held_by m (some h) = h == m

-- where: { id, reviewedAt: null, claimedById: null }
abbrev pub is_claimable : ℕ → QueueEntry → Bool
is_claimable id e = has_id id e && is_unreviewed e && not (is_some e.claimed_by_id)

-- where: { id, claimedById: moderatorId }
abbrev pub is_releasable : ℕ → ℕ → QueueEntry → Bool
is_releasable id m e = has_id id e && is_held_by m e.claimed_by_id

-- data: { claimedById: moderatorId, claimedAt: new Date() }
abbrev pub claim_row : ℕ → ℕ → QueueEntry → QueueEntry
claim_row m now e = record e { claimed_by_id = some m; claimed_at = some now }

-- data: { claimedById: null, claimedAt: null }
abbrev pub release_row : QueueEntry → QueueEntry
release_row e = record e { claimed_by_id = none; claimed_at = none }

module _ ⦃P : Prisma⦄ where
  -- findUniqueOrThrow({ where: { id } })
  abbrev pub find_entry : ℕ → Action QueueEntry
  find_entry id = do
    found ← gets (λ w. P.find_first (has_id id) w.db.queue)
    or_raise found record_not_found

  unfoldable pub claim_check : ℕ → Action Unit
  claim_check id = do
    entry ← find_entry id
    raise_if (is_some entry.reviewed_at) already_reviewed
    raise_if (is_some entry.claimed_by_id) already_claimed

  lost_claim : ℕ → ℕ → Action Unit
  lost_claim zero id = do
    current ← find_entry id
    raise_if (is_some current.reviewed_at) already_reviewed
    raise already_claimed
  lost_claim (suc n) id = pure tt

  unfoldable pub claim_write : ℕ → ℕ → Action QueueEntry
  unfolding lost_claim
  claim_write id moderator_id = do
    now ← gets (λ w. w.now)
    db ← gets (λ w. w.db)
    let (count, rows) = P.update_many (is_claimable id) (claim_row moderator_id now) db.queue
    put_db (record db { queue = rows })
    lost_claim count id
    find_entry id

  unfoldable pub claim : ℕ → ℕ → Action QueueEntry
  unfolding claim_check claim_write
  claim id moderator_id = do claim_check id; claim_write id moderator_id

  unfoldable pub release_check : ℕ → ℕ → Action Unit
  release_check id moderator_id = do
    entry ← find_entry id
    raise_if (not (is_some entry.claimed_by_id)) not_claimed
    raise_if (not (is_held_by moderator_id entry.claimed_by_id)) not_holder

  lost_release : ℕ → ℕ → Action Unit
  lost_release zero id = do
    current ← find_entry id
    raise_if (not (is_some current.claimed_by_id)) not_claimed
    raise not_holder
  lost_release (suc n) id = pure tt

  unfoldable pub release_write : ℕ → ℕ → Action QueueEntry
  unfolding lost_release
  release_write id moderator_id = do
    db ← gets (λ w. w.db)
    let (count, rows) = P.update_many (is_releasable id moderator_id) release_row db.queue
    put_db (record db { queue = rows })
    lost_release count id
    find_entry id

  unfoldable pub release : ℕ → ℕ → Action QueueEntry
  unfolding release_check release_write
  release id moderator_id = do release_check id moderator_id; release_write id moderator_id
