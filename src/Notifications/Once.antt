-- ===== src/Notifications/Once.antt =====
-- Tasks of the notification service that only add to the log, as all of its handlers and sweeps
-- (services/notification-service/src/notifications) do.
use interview_insights.Prelude.{
  ◌≡◌, refl, ap, ◌∙◌, inl, inr, true, List, [], ◌∷◌, ◌++◌, count-append, arith, Bool-cases,
}
use interview_insights.Prisma.{Prisma}
use interview_insights.World.{Result, ok, raised}
use interview_insights.Notifications.Messages.{
  LogRow, Mail, Mailroom, Task, then_task, send_mail, same_key,
}
use interview_insights.Notifications.{already_sent, log_sent}
use interview_insights.Notifications.Reconciliation.{await_each}

module _ ⦃P : Prisma⦄ where
  -- Nothing is taken out of the log, and the candidates' addresses are as they were.
  pub record Extends (s v : Mailroom) : Type 0 where
    pub logged : (row : LogRow) → already_sent row s ≡ true → already_sent row v ≡ true
    pub same : v.candidates ≡ s.candidates

  pub Extends-refl : (s : Mailroom) → Extends s s
  Extends-refl s = record { logged = λ row h. h; same = refl }

  Extends-trans : (s u v : Mailroom) → Extends s u → Extends u v → Extends s v
  Extends-trans s u v a b = record {
    logged = λ row h. b.logged row (a.logged row h);
    same = b.same ∙ a.same;
  }

  Extends-log_sent : (row : LogRow) (s : Mailroom) → Extends s (log_sent row s).1
  unfolding log_sent already_sent
  Extends-log_sent row s = elim (Bool-cases (already_sent row s)) [
    | inl y ↦ rw y (Extends-refl s)
    | inr n ↦ rw n (record { logged = more; same = refl })
  ]
    where
      more :
          (r : LogRow)
          → already_sent r s ≡ true
          → already_sent r (record s { log = P.create row s.log }) ≡ true
      more r h = ground (
        arith,
        P.count_law (same_key r) s.log,
        P.create_law row s.log,
        P.count_law (same_key r) (s.log ++ row ∷ []),
        count-append (same_key r) s.log (row ∷ []),
      )

  send_mail-grows : (mail : Mail) (s : Mailroom) → Extends s (send_mail mail s).1
  unfolding send_mail already_sent
  send_mail-grows mail s = elim (Bool-cases (s.accepts mail)) [
    | inl y ↦ rw y (record { logged = λ r h. h; same = refl })
    | inr n ↦ rw n (Extends-refl s)
  ]

  pub Extends-mailed :
      (row : LogRow) (mail : Mail) (s : Mailroom)
      → Extends s (then_task (send_mail mail) (log_sent row) s).1
  Extends-mailed row mail s = logs (send_mail mail s) (send_mail-grows mail s)
    where
      logs :
          (out : Result Unit × Mailroom)
          → Extends s out.1
          → let end : Result Unit × Mailroom = elim out.0 [
            | ok u ↦ log_sent row out.1
            | raised f ↦ (raised f, out.1)
          ] in
            Extends s end.1
      logs (ok u, v) e = Extends-trans s v (log_sent row v).1 e (Extends-log_sent row v)
      logs (raised f, v) e = e

  -- A task that only adds to the log and that, run again at any time after it has succeeded, does
  -- nothing.
  pub record IsOnce (f : Task) : Type 0 where
    pub grows : (s : Mailroom) → Extends s (f s).1
    pub settles :
        (s : Mailroom) → (f s).0 ≡ ok tt → (v : Mailroom) → Extends (f s).1 v → f v ≡ (ok tt, v)

  IsOnce-skip : IsOnce (λ s. (ok tt, s))
  IsOnce-skip = record { grows = Extends-refl; settles = λ s h v e. refl }

  then_skipped : (f g : Task) (v : Mailroom) → f v ≡ (ok tt, v) → then_task f g v ≡ g v
  then_skipped f g v e =
      ap
        (λ (out : Result Unit × Mailroom). elim out.0 [
          | ok u ↦ g out.1
          | raised x ↦ (raised x, out.1)
        ])
        e

  pub IsOnce-then : (f g : Task) → IsOnce f → IsOnce g → IsOnce (then_task f g)
  IsOnce-then f g a b = record {
    grows = λ s. (at s (f s) (a.grows s) (a.settles s)).0;
    settles = λ s. (at s (f s) (a.grows s) (a.settles s)).1;
  }
    where
      at :
          (s : Mailroom) (out : Result Unit × Mailroom)
          → Extends s out.1
          → (out.0 ≡ ok tt → (v : Mailroom) → Extends out.1 v → f v ≡ (ok tt, v))
          → let end : Result Unit × Mailroom = elim out.0 [
            | ok u ↦ g out.1
            | raised e ↦ (raised e, out.1)
          ] in
            Extends s end.1
            × (end.0 ≡ ok tt → (v : Mailroom) → Extends end.1 v → then_task f g v ≡ (ok tt, v))
      at s (ok u, s') x k = (
        Extends-trans s s' (g s').1 x (b.grows s'),
        λ h v y.
            then_skipped f g v (k refl v (Extends-trans s' (g s').1 v (b.grows s') y))
            ∙ b.settles s' h v y,
      )
      at s (raised e, s') x k = (x, λ h v y. absurd (ground arith))

  pub IsOnce-each {ℓ} :
      {A : Type ℓ} (f : A → Task) (xs : List A)
      → ((x : A) → IsOnce (f x))
      → IsOnce (await_each f xs)
  IsOnce-each f [] h = IsOnce-skip
  IsOnce-each f (x ∷ xs) h = IsOnce-then (f x) (await_each f xs) (h x) (IsOnce-each f xs h)
