-- ===== src/Notifications/Push/Attempts.antt =====
-- How often the push sender calls its client, and which reply decides.
use nestjs_boilerplate.Base.{
  ℕ, zero, suc, ◌+◌, ◌≤◌, ◌≡◌, refl, ap, sym, subst, ◌∙◌, ◌==◌, ◌&&◌, ◌||◌, Bool, true, false, not,
  Option, some, length, Text, arith, Bool-cases, inl, inr, ◌⊎◌,
}
use nestjs_boilerplate.Shared.Users.{truthy}
use nestjs_boilerplate.Notifications.Types.{SendPushParams, SendPushResult}
use nestjs_boilerplate.Notifications.Push.{
  ClientError, Reply, response, rejected, OneSignalNotification, PushPorts, PushWorld,
  is_transient_error, failed_result, response_result, send_from, send_to_external_ids, send_as,
  enabled_app, build_notification, slept, called, internal_retry_attempts,
}

-- To split on a reply and keep the equation.
Reply-cases :
    (r : Reply)
    → ((id : Option Text) × (n : Option ℕ) × (r ≡ response id n))
      ⊎ ((e : ClientError) × (r ≡ rejected e))
Reply-cases (response id n) = inl (id, n, refl)
Reply-cases (rejected e) = inr (e, refl)

module _ (p : PushPorts) (n : OneSignalNotification) where
  abbrev pub reply_at : ℕ → Reply
  reply_at call = p.create_notification n call

  abbrev pub is_transient : Reply → Bool
  is_transient (response id recipients) = false
  is_transient (rejected e) = is_transient_error p.wide_lower e

  -- The answer that a reply means, if it is the last one.
  abbrev pub result_of : Reply → SendPushResult
  result_of (response id recipients) = response_result (length n.external_ids) id recipients
  result_of (rejected e) = failed_result e

  -- The calls from `call` on, so many of them, failed by errors that may pass.
  abbrev pub all_transient : ℕ → ℕ → Bool
  all_transient call zero = true
  all_transient call (suc k) = is_transient (reply_at call) && all_transient (call + 1) k

  abbrev pub Decided : ℕ → PushWorld → SendPushResult × PushWorld → Type 0
  Decided left w (result, w') =
      (k : ℕ) × (k ≤ left)
      × (all_transient (length w.calls) k ≡ true)
      × ((k == left || not (is_transient (reply_at (length w.calls + k)))) ≡ true)
      × (result ≡ result_of (reply_at (length w.calls + k)))
      × (length w'.calls ≡ length w.calls + (k + 1))

  last_call :
      (w : PushWorld) → send_from p 0 n w ≡ (result_of (reply_at (length w.calls)), called p n w)
  unfolding send_from
  last_call w = elim (Reply-cases (reply_at (length w.calls))) [
    | inl (id, m, answered) ↦ ground (arith, answered)
    | inr (e, failed) ↦ ground (arith, failed)
  ]

  stops :
      (left : ℕ) (w : PushWorld)
      → is_transient (reply_at (length w.calls)) ≡ false
      → send_from p (suc left) n w ≡ (result_of (reply_at (length w.calls)), called p n w)
  unfolding send_from
  stops left w final = elim (Reply-cases (reply_at (length w.calls))) [
    | inl (id, m, answered) ↦ ground (arith, answered)
    | inr (e, failed) ↦ ground (arith, failed, final)
  ]

  goes_on :
      (left : ℕ) (w : PushWorld)
      → is_transient (reply_at (length w.calls)) ≡ true
      → send_from p (suc left) n w ≡ send_from p left n (slept p (suc left) (called p n w))
  unfolding send_from
  goes_on left w passing = elim (Reply-cases (reply_at (length w.calls))) [
    | inl (id, m, answered) ↦ ground (arith, answered, passing)
    | inr (e, failed) ↦ ground (arith, failed, passing)
  ]

  -- The first call decides.
  first-Decided :
      (left : ℕ) (w : PushWorld)
      → (0 == left || not (is_transient (reply_at (length w.calls)))) ≡ true
      → Decided left w (result_of (reply_at (length w.calls)), called p n w)
  first-Decided left w final =
      let none_before : length w.calls + 0 ≡ length w.calls = omega arith in
      (
        0,
        omega arith,
        refl,
        ap (λ (call : ℕ). 0 == left || not (is_transient (reply_at call))) none_before ∙ final,
        ap (λ (call : ℕ). result_of (reply_at call)) (sym none_before),
        omega arith,
      )

  later-Decided :
      (left : ℕ) (w : PushWorld) (x : SendPushResult × PushWorld)
      → is_transient (reply_at (length w.calls)) ≡ true
      → Decided left (slept p (suc left) (called p n w)) x
      → Decided (suc left) w x
  later-Decided left w (result, w') passing (k, few, before, final, decided, count) =
      let calls = length w.calls in
      let shift : suc calls + k ≡ calls + suc k = omega arith in
      let next : calls + 1 ≡ suc calls = omega arith in
      let same_left : (suc k == suc left) ≡ (k == left) = ground arith in
      let before' = ap (λ (call : ℕ). all_transient call k) next ∙ before in
      (
        suc k,
        omega (arith, few),
        ground (arith, passing, before'),
        ap (λ (b : Bool). b || not (is_transient (reply_at (calls + suc k)))) same_left
            ∙ ap (λ (call : ℕ). k == left || not (is_transient (reply_at call))) (sym shift)
            ∙ final,
        decided ∙ ap (λ (call : ℕ). result_of (reply_at call)) shift,
        omega (arith, count),
      )

  send_from-Decided : (left : ℕ) (w : PushWorld) → Decided left w (send_from p left n w)
  send_from-Decided zero w =
      subst (Decided 0 w) (sym (last_call w)) (first-Decided 0 w (ground arith))
  send_from-Decided (suc left) w = elim (Bool-cases (is_transient (reply_at (length w.calls)))) [
    | inl passing ↦
        let w' = slept p (suc left) (called p n w) in
        subst (Decided (suc left) w) (sym (goes_on left w passing))
          (later-Decided left w (send_from p left n w') passing (send_from-Decided left w'))
    | inr final ↦
        subst (Decided (suc left) w) (sym (stops left w final))
          (first-Decided (suc left) w (ground (arith, final)))
  ]

-- With the app configured and an alias given, a push makes `k + 1` calls of the client, three at
-- most: the first `k` failed by errors that may pass, the last one did not or was the third, and
-- its reply alone decides the result. So the push ends.
pub send_to_external_ids_lem :
    (p : PushPorts) (params : SendPushParams) (app_id key : Text) (w : PushWorld)
    → truthy p.app_id ≡ some app_id
    → truthy p.rest_api_key ≡ some key
    → (length params.external_ids == 0) ≡ false
    → Decided p
        (build_notification app_id params)
        internal_retry_attempts
        w
        (send_to_external_ids p params w)
unfolding send_to_external_ids
send_to_external_ids_lem p params app_id key w app secret some_alias =
    let n = build_notification app_id params in
    let enabled : send_to_external_ids p params w ≡ send_as p (some app_id) params w =
      ap (λ (o : Option Text). send_as p (enabled_app p o (truthy p.rest_api_key)) params w) app
      ∙ ap (λ (o : Option Text). send_as p (enabled_app p (some app_id) o) params w) secret in
    let sent : send_as p (some app_id) params w ≡ send_from p internal_retry_attempts n w =
      rw some_alias refl in
    subst (Decided p n internal_retry_attempts w) (sym (enabled ∙ sent))
      (send_from-Decided p n internal_retry_attempts w)
