-- ===== src/Shared/Audit/Tests.antt =====
-- Snapshots of small heaps.
use nestjs_boilerplate.Base.{
  ℕ, ◌≡◌, refl, ◌∷◌, [], List, true, false, none, some, text_eq, codes, ok,
}
use nestjs_boilerplate.Auth.Normalize.{lower}
use nestjs_boilerplate.Shared.Audit.{
  string, number, ref, array, object, Heap, Tree, leaf, items, fields, nil, cons, end, field,
  is_sensitive_key, redact_snapshot, redact_sensitive, redact_items, redact_fields, circular,
}
use nestjs_boilerplate.Shared.Audit.Redacted.{is_clean, redact_snapshot_lem}
use nestjs_boilerplate.Shared.Audit.Interceptor.{
  AuditOptions, AuditEntry, write_log, is_clean_snapshot, write_log-is_clean,
}

-- A user with a token, whose profile refers back to the user.
abbrev cyclic : Heap
cyclic =
    object (
      (codes "id", string (codes "5"))
      ∷ (codes "refreshToken", string (codes "t"))
      ∷ (codes "profile", ref 1)
      ∷ [])
    ∷ object ((codes "owner", ref 0) ∷ (codes "OTP", number 1234) ∷ [])
    ∷ []

abbrev copy : Tree
copy = fields (
    field (codes "id") (leaf (string (codes "5")))
      (field (codes "profile") (fields (field (codes "owner") circular end)) end))

redact_snapshot_test : redact_snapshot cyclic (ref 0) ≡ some (copy, 1 ∷ 0 ∷ [])
unfolding redact_snapshot redact_sensitive redact_items redact_fields is_sensitive_key lower text_eq
redact_snapshot_test = refl

-- An object that an array holds twice is in no cycle.
abbrev shared : Heap
shared = array (ref 1 ∷ ref 1 ∷ []) ∷ object ((codes "a", number 1) ∷ []) ∷ []

shared_test :
    redact_snapshot shared (ref 0)
    ≡ some (
      items (cons (fields (field (codes "a") (leaf (number 1)) end)) (cons circular nil)),
      1 ∷ 0 ∷ [],
    )
unfolding redact_snapshot redact_sensitive redact_items redact_fields is_sensitive_key lower text_eq
shared_test = refl

redact_snapshot_lem_example :
    (t : Tree) × (seen : List ℕ) × (redact_snapshot cyclic (ref 0) ≡ some (t, seen))
    × (is_clean t ≡ true)
redact_snapshot_lem_example = redact_snapshot_lem cyclic (ref 0)

abbrev options : AuditOptions ℕ
options = record {
  entity = codes "user";
  action = codes "update";
  entity_id = none;
  load_before = none;
  load_after = none;
  skip_if = some (λ args result. ok false);
}

abbrev entry : AuditEntry
entry = record {
  entity = codes "user";
  action = codes "update";
  entity_id = codes "5";
  before = some copy;
  after = some copy;
  actor_id = none;
  request_id = none;
  at = 7;
}

write_log-is_clean_example :
    (is_clean_snapshot (some copy) ≡ true) × (is_clean_snapshot (some copy) ≡ true)
unfolding write_log redact_snapshot redact_sensitive redact_items redact_fields is_sensitive_key
    lower text_eq
write_log-is_clean_example = write_log-is_clean options 3 cyclic none 7 (ref 0) (ref 0) entry refl
