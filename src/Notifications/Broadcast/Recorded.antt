-- ===== src/Notifications/Broadcast/Recorded.antt =====
-- Which users have a row of a broadcast, for the worker of
-- src/modules/platform/notifications/queue/notification-broadcast.processor.ts.
use nestjs_boilerplate.Base.{
  ℕ, ◌==◌, ◌≡◌, ◌&&◌, Bool, true, List, [], ◌∷◌, ◌++◌, map, filter, any, All, Text, arith,
  Bool-cases, inl, inr, ap,
}
use nestjs_boilerplate.Shared.Users.{column_eq}
use nestjs_boilerplate.Notifications.Types.{Notification, BroadcastRecipient}
use nestjs_boilerplate.Notifications.Repository.{in_array, of_chunk}

-- A row of the broadcast for the user is recorded.
abbrev pub is_recorded : Text → ℕ → List Notification → Bool
is_recorded b user rows =
    any (λ n. column_eq n.broadcast_id b && (n.recipient_user_id == user)) rows

abbrev pub recipients_of : List Notification → List ℕ
recipients_of rows = map (λ n. n.recipient_user_id) rows

pub any-append-l :
    {A : Type 0} (q : A → Bool) (xs ys : List A) → any q xs ≡ true → any q (xs ++ ys) ≡ true
any-append-l q [] ys h = ground arith
any-append-l q (x ∷ xs) ys h = ground (arith, any-append-l q xs ys)

pub any-append-r :
    {A : Type 0} (q : A → Bool) (xs ys : List A) → any q ys ≡ true → any q (xs ++ ys) ≡ true
any-append-r q [] ys h = h
any-append-r q (x ∷ xs) ys h = ground (arith, any-append-r q xs ys h)

module _ (b : Text) (ids : List ℕ) (user : ℕ) where
  pub existing-is_recorded :
      (rows : List Notification)
      → in_array (recipients_of (filter (of_chunk b ids) rows)) user ≡ true
      → is_recorded b user rows ≡ true
  existing-is_recorded [] h = ground arith
  existing-is_recorded (n ∷ rows) h = elim (Bool-cases (of_chunk b ids n)) [
    | inl hit ↦ ground (arith, hit, existing-is_recorded rows)
    | inr miss ↦ ground (arith, existing-is_recorded rows (rw miss at h))
  ]

  in_chunk :
      (n : Notification)
      → in_array ids user ≡ true
      → (column_eq n.broadcast_id b && (n.recipient_user_id == user)) ≡ true
      → of_chunk b ids n ≡ true
  in_chunk n known h =
      let same : n.recipient_user_id ≡ user = ground arith in
      ground (arith, ap (in_array ids) same, known, h)

  pub is_recorded-existing :
      (rows : List Notification)
      → in_array ids user ≡ true
      → is_recorded b user rows ≡ true
      → in_array (recipients_of (filter (of_chunk b ids) rows)) user ≡ true
  is_recorded-existing [] known h = ground arith
  is_recorded-existing (n ∷ rows) known h =
      elim (Bool-cases (column_eq n.broadcast_id b && (n.recipient_user_id == user))) [
        | inl hit ↦ ground (arith, in_chunk n known hit, hit)
        | inr miss ↦
            let rest = is_recorded-existing rows known (rw miss at h) in
            elim (Bool-cases (of_chunk b ids n)) [
              | inl other ↦ ground (arith, other, rest)
              | inr apart ↦ ground (arith, apart, rest)
            ]
      ]

abbrev pub AllRecorded : Text → List BroadcastRecipient → List Notification → Type 0
AllRecorded b rs rows = All (λ (r : BroadcastRecipient). is_recorded b r.user_id rows ≡ true) rs

-- What is recorded stays recorded where every recorded user of `rows` is one of `rows'`.
pub AllRecorded-weaken :
    (b : Text) (rs : List BroadcastRecipient) (rows rows' : List Notification)
    → ((user : ℕ) → is_recorded b user rows ≡ true → is_recorded b user rows' ≡ true)
    → AllRecorded b rs rows
    → AllRecorded b rs rows'
AllRecorded-weaken b [] rows rows' keep h = tt
AllRecorded-weaken b (r ∷ rs) rows rows' keep (h, hs) =
    (keep r.user_id h, AllRecorded-weaken b rs rows rows' keep hs)
