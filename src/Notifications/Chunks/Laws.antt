-- ===== src/Notifications/Chunks/Laws.antt =====
-- The chunks of a broadcast hold each recipient once, in order, and none is too large.
use nestjs_boilerplate.Base.{
  ℕ, zero, suc, ◌+◌, ◌-◌, ◌≤◌, ◌<◌, ◌≡◌, refl, ltb, Option, none, some, List, [], ◌∷◌, ◌++◌, map,
  take, drop, length, All, Text, ok, arith, Bool-cases, inl, inr, ◌∙◌, ap, sym, append_nil,
  Option-cases, take-drop, drop-drop, length-drop, length-take,
}
use nestjs_boilerplate.Notifications.Types.{BroadcastRecipient}
use nestjs_boilerplate.Notifications.Ports.{Ports, World, QueuedJob}
use nestjs_boilerplate.Notifications.Chunks.{
  EnqueueBroadcastParams, chunks, concat, chunk_size, to_queued, enqueue_broadcast, enqueue_all,
}

module _ {A : Type 0} (size : ℕ) (positive : 0 < size) where
  none_left : (from : ℕ) (xs : List A) → length xs ≤ from → drop from xs ≡ []
  none_left from xs h = empty (drop from xs) (omega (arith, length-drop from xs))
    where
      empty : (ys : List A) → length ys ≤ 0 → ys ≡ []
      empty [] h = refl
      empty (y ∷ ys) h = ground (arith, h)

  concat-chunks :
      (fuel from : ℕ) (xs : List A)
      → length xs ≤ from + fuel
      → concat (chunks size fuel from xs) ≡ drop from xs
  unfolding chunks
  concat-chunks zero from xs enough = sym (none_left from xs (omega (arith, enough)))
  concat-chunks (suc fuel) from xs enough = elim (Bool-cases (ltb from (length xs))) [
    | inr done ↦ rw done (sym (none_left from xs (ground (arith, done))))
    | inl more ↦
        let rest = concat-chunks fuel (from + size) xs (omega (arith, enough, positive)) in
        let width : from + size - from ≡ size = omega arith in
        rw (more, rest, width)
          (ap (λ (ys : List A). take size (drop from xs) ++ ys) (sym (drop-drop from size xs))
            ∙ take-drop size (drop from xs))
  ]

  abbrev pub Fitting : List A → Type 0
  Fitting xs = (0 < length xs) × (length xs ≤ size)

  nonempty : (n : ℕ) (ys : List A) → 0 < n → 0 < length ys → 0 < length (take n ys)
  nonempty zero ys h k = ground (arith, h)
  nonempty (suc n) [] h k = ground (arith, k)
  nonempty (suc n) (y ∷ ys) h k = omega arith

  chunks-Fitting : (fuel from : ℕ) (xs : List A) → All Fitting (chunks size fuel from xs)
  unfolding chunks
  chunks-Fitting zero from xs = tt
  chunks-Fitting (suc fuel) from xs = elim (Bool-cases (ltb from (length xs))) [
    | inr done ↦ rw done tt
    | inl more ↦
        let rest = chunks-Fitting fuel (from + size) xs in
        let width : from + size - from ≡ size = omega arith in
        rw (more, width)
          (
            (
              nonempty size (drop from xs) positive (ground (arith, more, length-drop from xs)),
              length-take size (drop from xs),
            ),
            rest,
          )
  ]

module _ (p : Ports) (positive : 0 < chunk_size p) where
  abbrev pub recipients_of : QueuedJob → List BroadcastRecipient
  recipients_of job = job.data_.recipients

  -- The recipients of the jobs, job by job.
  recipients_of-to_queued :
      (params : EnqueueBroadcastParams) (id : Text) (cs : List (List BroadcastRecipient))
      → map recipients_of (map (to_queued p params id) cs) ≡ cs
  recipients_of-to_queued params id [] = refl
  recipients_of-to_queued params id (c ∷ cs) =
      ap (λ (ds : List (List BroadcastRecipient)). c ∷ ds) (recipients_of-to_queued params id cs)

  abbrev pub IsChunk : Text → QueuedJob → Type 0
  IsChunk id job =
      (job.data_.broadcast_id ≡ some id) × Fitting (chunk_size p) positive (recipients_of job)

  to_queued-IsChunk :
      (params : EnqueueBroadcastParams) (id : Text) (cs : List (List BroadcastRecipient))
      → All (Fitting (chunk_size p) positive) cs
      → All (IsChunk id) (map (to_queued p params id) cs)
  to_queued-IsChunk params id [] h = tt
  to_queued-IsChunk params id (c ∷ cs) (h, hs) = ((refl, h), to_queued-IsChunk params id cs hs)

  abbrev id_of : Option Text → World p → Text
  id_of none w = p.random_uuid w.moment
  id_of (some id) w = id

  -- With a positive chunk size, a broadcast adds jobs that hold every recipient exactly once and in
  -- order; each has from one to the configured number of recipients, all carry one broadcast id,
  -- and the answer counts the jobs and the recipients.
  pub enqueue_broadcast_lem :
      (params : EnqueueBroadcastParams) (w : World p)
      → let (r, w') = enqueue_broadcast p params w in
        (jobs : List QueuedJob) × (id : Text) × (r
          ≡ ok (record { enqueued = length jobs; total_recipients = length params.recipients }))
        × (w'.queue ≡ w.queue ++ jobs)
        × (concat (map recipients_of jobs) ≡ params.recipients)
        × All (IsChunk id) jobs
  unfolding enqueue_broadcast
  enqueue_broadcast_lem params w = jobs_of params.recipients
    where
      jobs_of :
          (rs : List BroadcastRecipient)
          → let (r, w') = enqueue_all p params rs w in
            (jobs : List QueuedJob) × (id : Text) × (r
              ≡ ok (record { enqueued = length jobs; total_recipients = length rs }))
            × (w'.queue ≡ w.queue ++ jobs)
            × (concat (map recipients_of jobs) ≡ rs)
            × All (IsChunk id) jobs
      jobs_of [] = ([], [], refl, sym (append_nil w.queue), refl, tt)
      jobs_of (r ∷ rs) =
          let size = chunk_size p in
          let all_rs = r ∷ rs in
          let cs = chunks size (length all_rs) 0 all_rs in
          let id = id_of params.broadcast_id w in
          let same : concat (map recipients_of (map (to_queued p params id) cs)) ≡ all_rs =
            ap concat (recipients_of-to_queued params id cs)
            ∙ concat-chunks size positive (length all_rs) 0 all_rs (omega arith) in
          let fit = chunks-Fitting size positive (length all_rs) 0 all_rs in
          elim (Option-cases params.broadcast_id) [
            | inl generated ↦ (
              map (to_queued p params id) cs,
              id,
              ground (arith, generated),
              ground (arith, generated),
              same,
              to_queued-IsChunk params id cs fit,
            )
            | inr (_, supplied) ↦ (
              map (to_queued p params id) cs,
              id,
              ground (arith, supplied),
              ground (arith, supplied),
              same,
              to_queued-IsChunk params id cs fit,
            )
          ]
