-- ===== src/Shared/Audit/Interceptor.antt =====
-- src/modules/shared/common/audit/audit.interceptor.ts, with interfaces/audit-options.types.ts and
-- audit-entry.types.ts. The callbacks of the options may throw.
use nestjs_boilerplate.Base.{
  ℕ, ◌≡◌, refl, ap, sym, ◌∙◌, Bool, true, false, Option, none, some, [], ◌∷◌, ◌++◌, length, lookup,
  Text, codes, Result, ok, err, inl, inr, arith, Result-cases, Bool-cases,
}
use nestjs_boilerplate.Shared.Otp.{to_string}
use nestjs_boilerplate.Shared.Audit.{
  Value, undefined, null, string, number, boolean, ref, Node, object, Heap, Tree, Copy, node_at,
  redact_snapshot,
}
use nestjs_boilerplate.Shared.Audit.Redacted.{is_clean, redact_snapshot_lem}

pub record AuditOptions (Args : Type 0) : Type 0 where
  pub entity : Text
  pub action : Text
  pub entity_id : Option (Args → Value → Result Value)
  pub load_before : Option (Args → Result Value)
  pub load_after : Option (Args → Value → Result Value)
  pub skip_if : Option (Args → Value → Result Bool)

pub record AuditContext : Type 0 where
  pub actor_id : Option ℕ
  pub request_id : Option Text
  pub at : ℕ

pub record AuditEntry : Type 0 where
  pub entity : Text
  pub action : Text
  pub entity_id : Text
  pub before : Option Tree
  pub after : Option Tree
  pub actor_id : Option ℕ
  pub request_id : Option Text
  pub at : ℕ

abbrev id_field : Option Node → Value
id_field (some (object fs)) = id_of (lookup (codes "id") fs)
  where
    id_of : Option Value → Value
    id_of (some (string s)) = string s
    id_of (some (number n)) = number n
    id_of _ = null
id_field _ = null

abbrev pub extract_id : Heap → Value → Value
extract_id heap (ref i) = id_field (node_at heap i)
extract_id heap v = null

-- `String(rawId)`, or `none` for null and undefined; an id is a string or a number.
abbrev pub id_text : Value → Option Text
unfolding to_string
id_text (string s) = some s
id_text (number n) = some (to_string n)
id_text _ = none

-- `redactSnapshot(toRecord(value)) ?? undefined`: a value that is no object becomes `{ value }`.
abbrev pub tree_of : Copy Tree → Option Tree
tree_of none = none
tree_of (some (t, seen)) = some t

abbrev pub snapshot : Heap → Value → Option Tree
snapshot heap undefined = none
snapshot heap null = none
snapshot heap (ref i) = tree_of (redact_snapshot heap (ref i))
snapshot heap v =
    tree_of (redact_snapshot (heap ++ object ((codes "value", v) ∷ []) ∷ []) (ref (length heap)))

-- `ctx?.actorId`, `ctx?.requestId`, `ctx?.at ?? new Date()`
abbrev actor_of : Option AuditContext → Option ℕ
actor_of none = none
actor_of (some ctx) = ctx.actor_id

abbrev request_of : Option AuditContext → Option Text
request_of none = none
request_of (some ctx) = ctx.request_id

abbrev time_of : Option AuditContext → ℕ → ℕ
time_of none now = now
time_of (some ctx) now = ctx.at

module _ {Args : Type 0} (opts : AuditOptions Args) (args : Args) where
  abbrev after_of : Option (Args → Value → Result Value) → Value → Result Value
  after_of none result = ok result
  after_of (some load_after) result = load_after args result

  abbrev raw_id : Heap → Option (Args → Value → Result Value) → Value → Result Value
  raw_id heap none result = ok (extract_id heap result)
  raw_id heap (some entity_id) result = entity_id args result

  abbrev skips : Option (Args → Value → Result Bool) → Value → Result Bool
  skips none result = ok false
  skips (some skip_if) result = skip_if args result

  abbrev pub entry_for : Heap → Option AuditContext → ℕ → Value → Value → Text → AuditEntry
  entry_for heap ctx now before after id = record {
    entity = opts.entity;
    action = opts.action;
    entity_id = id;
    before = snapshot heap before;
    after = snapshot heap after;
    actor_id = actor_of ctx;
    request_id = request_of ctx;
    at = time_of ctx now;
  }

  abbrev with_id : Heap → Option AuditContext → ℕ → Value → Value → Option Text → Option AuditEntry
  with_id heap ctx now before after none = none
  with_id heap ctx now before after (some id) = some (entry_for heap ctx now before after id)

  -- The entry that `writeLog` hands to the sink; a callback that throws leaves none.
  unfoldable pub write_log : Heap → Option AuditContext → ℕ → Value → Value → Option AuditEntry
  unfolding id_text
  write_log heap ctx now before result = elim (skips opts.skip_if result) [
    | err e ↦ none
    | ok true ↦ none
    | ok false ↦ elim (after_of opts.load_after result) [
      | err e ↦ none
      | ok after ↦ elim (raw_id heap opts.entity_id result) [
        | err e ↦ none
        | ok id ↦ with_id heap ctx now before after (id_text id)
      ]
    ]
  ]

-- No sensitive key at any depth of a snapshot.
abbrev pub is_clean_snapshot : Option Tree → Bool
is_clean_snapshot none = true
is_clean_snapshot (some t) = is_clean t

redacted-is_clean :
    (heap : Heap) (v : Value) → is_clean_snapshot (tree_of (redact_snapshot heap v)) ≡ true
redacted-is_clean heap v =
    let (t, seen, same, clean) = redact_snapshot_lem heap v in
    ap (λ (c : Copy Tree). is_clean_snapshot (tree_of c)) same ∙ clean

snapshot-is_clean : (heap : Heap) (v : Value) → is_clean_snapshot (snapshot heap v) ≡ true
snapshot-is_clean heap undefined = refl
snapshot-is_clean heap null = refl
snapshot-is_clean heap (ref i) = redacted-is_clean heap (ref i)
snapshot-is_clean heap (string s) =
    redacted-is_clean (heap ++ object ((codes "value", string s) ∷ []) ∷ []) (ref (length heap))
snapshot-is_clean heap (number n) =
    redacted-is_clean (heap ++ object ((codes "value", number n) ∷ []) ∷ []) (ref (length heap))
snapshot-is_clean heap (boolean b) =
    redacted-is_clean (heap ++ object ((codes "value", boolean b) ∷ []) ∷ []) (ref (length heap))

with_id-is_clean :
    {Args : Type 0} (opts : AuditOptions Args) (args : Args) (heap : Heap)
    (ctx : Option AuditContext) (now : ℕ) (before after : Value) (id : Option Text)
    (entry : AuditEntry)
    → with_id opts args heap ctx now before after id ≡ some entry
    → (is_clean_snapshot entry.before ≡ true) × (is_clean_snapshot entry.after ≡ true)
with_id-is_clean opts args heap ctx now before after none entry written = ground (arith, written)
with_id-is_clean opts args heap ctx now before after (some id) entry written =
    let same : entry_for opts args heap ctx now before after id ≡ entry = ground (arith, written) in
    (
      ap (λ (e : AuditEntry). is_clean_snapshot e.before) (sym same)
          ∙ snapshot-is_clean heap before,
      ap (λ (e : AuditEntry). is_clean_snapshot e.after) (sym same) ∙ snapshot-is_clean heap after,
    )

-- Whatever the options' callbacks answer or throw, an entry that is handed to the sink has no
-- sensitive key at any depth of its two snapshots, objects that contain themselves included.
pub write_log-is_clean :
    {Args : Type 0} (opts : AuditOptions Args) (args : Args) (heap : Heap)
    (ctx : Option AuditContext) (now : ℕ) (before result : Value) (entry : AuditEntry)
    → write_log opts args heap ctx now before result ≡ some entry
    → (is_clean_snapshot entry.before ≡ true) × (is_clean_snapshot entry.after ≡ true)
unfolding write_log
write_log-is_clean opts args heap ctx now before result entry written =
    elim (Result-cases (skips opts args opts.skip_if result)) [
      | inr (e, threw) ↦ ground (arith, threw, written)
      | inl (skip, answered) ↦ elim (Bool-cases skip) [
        | inl yes_skip ↦ ground (arith, answered, yes_skip, written)
        | inr no_skip ↦ elim (Result-cases (after_of opts args opts.load_after result)) [
          | inr (e, threw) ↦ ground (arith, answered, no_skip, threw, written)
          | inl (after, loaded) ↦
              elim (Result-cases (raw_id opts args heap opts.entity_id result)) [
                | inr (e, threw) ↦ ground (arith, answered, no_skip, loaded, threw, written)
                | inl (id, resolved) ↦
                    with_id-is_clean opts args heap ctx now before after (id_text id) entry
                      (ground (arith, answered, no_skip, loaded, resolved, written))
              ]
        ]
      ]
    ]
