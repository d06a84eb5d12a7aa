-- ===== src/Shared/Audit/Redacted.antt =====
-- Redaction ends on every heap, cyclic ones too, and its copy has no sensitive key.
use nestjs_boilerplate.Base.{
  ℕ, zero, suc, ◌<◌, ◌≡◌, refl, ap, ◌∙◌, ◌&&◌, Bool, true, false, not, Option, none, some, List, [],
  ◌∷◌, length, Text, codes, arith, Bool-cases, Option-cases, inl, inr,
}
use nestjs_boilerplate.Shared.Audit.{
  Value, undefined, null, string, number, boolean, ref, Node, array, object, Heap, Tree, leaf,
  items, fields, Trees, nil, cons, Fields, end, field, Copy, then_copy, is_sensitive_key, node_at,
  is_seen, redact_items, redact_fields, redact_node, redact_sensitive, enough_fuel, redact_snapshot,
  circular,
}
use nestjs_boilerplate.Shared.Audit.Unseen.{unseen, Extends, unseen_le, unseen-Extends, unseen_here}

-- No key of the copy, at any depth, is sensitive.
unfoldable mutual
  pub is_clean : Tree → Bool
  is_clean (leaf v) = true
  is_clean (items ts) = is_clean_items ts
  is_clean (fields fs) = is_clean_fields fs

  pub is_clean_items : Trees → Bool
  is_clean_items nil = true
  is_clean_items (cons t ts) = is_clean t && is_clean_items ts

  pub is_clean_fields : Fields → Bool
  is_clean_fields end = true
  is_clean_fields (field k t fs) = not (is_sensitive_key k) && (is_clean t && is_clean_fields fs)

record Done {A : Type 0} (clean : A → Bool) (seen : List ℕ) (r : Copy A) : Type 0 where
  value : A
  after : List ℕ
  same : r ≡ some (value, after)
  extends : Extends seen after
  cleaned : clean value ≡ true

then_copy_lem :
    {A B : Type 0} {r : Copy A} {a : A} {seen : List ℕ} (f : A → List ℕ → Copy B)
    → r ≡ some (a, seen)
    → then_copy r f ≡ f a seen
then_copy_lem f e = ap (λ r. then_copy r f) e

module _ (n k : ℕ) (copy : List ℕ → Value → Copy Tree)
    (step : (seen : List ℕ) (v : Value)
      → unseen n seen < k
      → Done is_clean seen (copy seen v)) where
  redact_items-Done :
      (vs : List Value) (seen : List ℕ)
      → unseen n seen < k
      → Done is_clean_items seen (redact_items copy vs seen)
  unfolding is_clean redact_items
  redact_items-Done [] seen few = record {
    value = nil;
    after = seen;
    same = refl;
    extends = λ i h. h;
    cleaned = refl;
  }
  redact_items-Done (v ∷ vs) seen few =
      let first = step seen v few in
      let fewer = unseen-Extends n seen first.after first.extends in
      let rest = redact_items-Done vs first.after (omega (arith, few, fewer)) in
      record {
        value = cons first.value rest.value;
        after = rest.after;
        same = then_copy_lem _ first.same ∙ then_copy_lem _ rest.same;
        extends = λ i h. rest.extends i (first.extends i h);
        cleaned = ground (arith, first.cleaned, rest.cleaned);
      }

  skip_field :
      (key : Text) (v : Value) (fs : List (Text × Value)) (seen : List ℕ)
      → is_sensitive_key key ≡ true
      → redact_fields copy ((key, v) ∷ fs) seen ≡ redact_fields copy fs seen
  unfolding redact_fields
  skip_field key v fs seen secret = rw (redact_fields, secret) refl

  keep_field :
      (key : Text) (v : Value) (fs : List (Text × Value)) (seen : List ℕ)
      → is_sensitive_key key ≡ false
      → redact_fields copy ((key, v) ∷ fs) seen
        ≡ then_copy (copy seen v) (λ t seen'.
          then_copy (redact_fields copy fs seen') (λ ts seen''. some (field key t ts, seen'')))
  unfolding redact_fields
  keep_field key v fs seen plain = rw (redact_fields, plain) refl

  redact_fields-Done :
      (fs : List (Text × Value)) (seen : List ℕ)
      → unseen n seen < k
      → Done is_clean_fields seen (redact_fields copy fs seen)
  unfolding is_clean redact_fields
  redact_fields-Done [] seen few = record {
    value = end;
    after = seen;
    same = refl;
    extends = λ i h. h;
    cleaned = refl;
  }
  redact_fields-Done ((key, v) ∷ fs) seen few = elim (Bool-cases (is_sensitive_key key)) [
    | inl secret ↦
        let rest = redact_fields-Done fs seen few in
        record {
          value = rest.value;
          after = rest.after;
          same = skip_field key v fs seen secret ∙ rest.same;
          extends = rest.extends;
          cleaned = rest.cleaned;
        }
    | inr plain ↦
        let first = step seen v few in
        let fewer = unseen-Extends n seen first.after first.extends in
        let rest = redact_fields-Done fs first.after (omega (arith, few, fewer)) in
        record {
          value = field key first.value rest.value;
          after = rest.after;
          same =
              keep_field key v fs seen plain
              ∙ (then_copy_lem _ first.same ∙ then_copy_lem _ rest.same);
          extends = λ i h. rest.extends i (first.extends i h);
          cleaned = ground (arith, plain, first.cleaned, rest.cleaned);
        }
  ]

  redact_node-Done :
      (node : Option Node) (seen : List ℕ)
      → unseen n seen < k
      → Done is_clean seen (redact_node copy node seen)
  unfolding is_clean
  redact_node-Done none seen few = record {
    value = leaf null;
    after = seen;
    same = refl;
    extends = λ i h. h;
    cleaned = refl;
  }
  redact_node-Done (some (array vs)) seen few =
      let all_items = redact_items-Done vs seen few in
      record {
        value = items all_items.value;
        after = all_items.after;
        same = then_copy_lem _ all_items.same;
        extends = all_items.extends;
        cleaned = all_items.cleaned;
      }
  redact_node-Done (some (object fs)) seen few =
      let all_fields = redact_fields-Done fs seen few in
      record {
        value = fields all_fields.value;
        after = all_fields.after;
        same = then_copy_lem _ all_fields.same;
        extends = all_fields.extends;
        cleaned = all_fields.cleaned;
      }

abbrev leaf-Done : (v : Value) (seen : List ℕ) → Done is_clean seen (some (leaf v, seen))
unfolding is_clean
leaf-Done v seen = record {
  value = leaf v;
  after = seen;
  same = refl;
  extends = λ i h. h;
  cleaned = refl;
}

leaf_clean : (v : Value) → is_clean (leaf v) ≡ true
unfolding is_clean
leaf_clean v = refl

module _ (heap : Heap) (fuel : ℕ) (seen : List ℕ) (i : ℕ) where
  seen_ref :
      is_seen i seen ≡ true → redact_sensitive heap (suc fuel) seen (ref i) ≡ some (circular, seen)
  unfolding redact_sensitive
  seen_ref old = rw (redact_sensitive, old) refl

  new_ref :
      is_seen i seen ≡ false
      → redact_sensitive heap (suc fuel) seen (ref i)
        ≡ redact_node (redact_sensitive heap fuel) (node_at heap i) (i ∷ seen)
  unfolding redact_sensitive
  new_ref new = rw (redact_sensitive, new) refl

node_at-some : (heap : Heap) (i : ℕ) (node : Node) → node_at heap i ≡ some node → i < length heap
node_at-some [] zero node h = ground (arith, h)
node_at-some [] (suc i) node h = ground (arith, h)
node_at-some (x ∷ heap) zero node h = omega arith
node_at-some (x ∷ heap) (suc i) node h = omega (arith, node_at-some heap i node h)

redact_sensitive-Done :
    (heap : Heap) (fuel : ℕ) (seen : List ℕ) (v : Value)
    → unseen (length heap) seen < fuel
    → Done is_clean seen (redact_sensitive heap fuel seen v)
unfolding redact_sensitive
redact_sensitive-Done heap zero seen v few = let no : ⊥ = omega (arith, few) in elim no [ ]
redact_sensitive-Done heap (suc fuel) seen undefined few = leaf-Done undefined seen
redact_sensitive-Done heap (suc fuel) seen null few = leaf-Done null seen
redact_sensitive-Done heap (suc fuel) seen (string s) few = leaf-Done (string s) seen
redact_sensitive-Done heap (suc fuel) seen (number n) few = leaf-Done (number n) seen
redact_sensitive-Done heap (suc fuel) seen (boolean b) few = leaf-Done (boolean b) seen
redact_sensitive-Done heap (suc fuel) seen (ref i) few = elim (Bool-cases (is_seen i seen)) [
  | inl old ↦ record {
    value = circular;
    after = seen;
    same = seen_ref heap fuel seen i old;
    extends = λ j h. h;
    cleaned = leaf_clean (string (codes "[Circular]"));
  }
  | inr new ↦ elim (Option-cases (node_at heap i)) [
    | inl nothing ↦ record {
      value = leaf null;
      after = i ∷ seen;
      same =
          new_ref heap fuel seen i new
          ∙ ap (λ (o : Option Node). redact_node (redact_sensitive heap fuel) o (i ∷ seen)) nothing;
      extends = λ j h. ground (arith, h);
      cleaned = leaf_clean null;
    }
    | inr (node, found) ↦
        let fewer = unseen_here (length heap) i seen (node_at-some heap i node found) new in
        let inner =
          redact_node-Done (length heap) fuel (redact_sensitive heap fuel)
            (λ seen' v'. redact_sensitive-Done heap fuel seen' v') (some node) (i ∷ seen)
            (omega (arith, few, fewer)) in
        record {
          value = inner.value;
          after = inner.after;
          same =
              new_ref heap fuel seen i new
              ∙ ap (λ (o : Option Node). redact_node (redact_sensitive heap fuel) o (i ∷ seen))
                  found
              ∙ inner.same;
          extends = λ j h. inner.extends j (ground (arith, h));
          cleaned = inner.cleaned;
        }
  ]
]

-- Redaction of a snapshot ends with a copy, whatever refers to what, cycles included: the depth of
-- its recursion is at most the number of objects and one. No key of the copy, at any depth, is
-- sensitive.
pub redact_snapshot_lem :
    (heap : Heap) (v : Value)
    → (t : Tree) × (seen : List ℕ) × (redact_snapshot heap v ≡ some (t, seen)) × (is_clean t ≡ true)
unfolding redact_snapshot
redact_snapshot_lem heap undefined = (leaf undefined, [], refl, leaf_clean undefined)
redact_snapshot_lem heap null = (leaf null, [], refl, leaf_clean null)
redact_snapshot_lem heap (string s) = (leaf (string s), [], refl, leaf_clean (string s))
redact_snapshot_lem heap (number n) = (leaf (number n), [], refl, leaf_clean (number n))
redact_snapshot_lem heap (boolean b) = (leaf (boolean b), [], refl, leaf_clean (boolean b))
redact_snapshot_lem heap (ref i) =
    let few = unseen_le (length heap) [] in
    let done = redact_sensitive-Done heap (enough_fuel heap) [] (ref i) (omega (arith, few)) in
    (done.value, done.after, done.same, done.cleaned)
