-- ===== src/Notifications/Inbox/Reading.antt =====
-- Reading a notification: `markRead` and `unreadCount`.
use nestjs_boilerplate.Base.{
  ℕ, ◌==◌, ◌≡◌, refl, ltb, not, ◌&&◌, Bool, true, false, List, [], ◌∷◌, map, length, filter, any,
  ok, arith, Bool-cases, inl, inr, ◌∙◌, ap, sym,
}
use nestjs_boilerplate.Shared.Table.{TableLaws, map_where}
use nestjs_boilerplate.Notifications.Types.{Notification}
use nestjs_boilerplate.Notifications.Repository
use nestjs_boilerplate.Notifications.Repository.{Fits, in_inbox, is_unread, set_read}
use nestjs_boilerplate.Notifications.Ports.{Ports, World}
use nestjs_boilerplate.Notifications.Inbox.{mark_read, unread_count}

module _ {A : Type 0} where
  some_found : (v : A → Bool) (xs : List A) → ltb 0 (length (filter v xs)) ≡ any v xs
  some_found v [] = refl
  some_found v (x ∷ xs) = ground (arith, some_found v xs)

  some_updated :
      {B : Type 0} (q : A → Bool) (f : A → B) (xs : List A)
      → ltb 0 (length (map f (filter q xs))) ≡ any q xs
  some_updated q f [] = refl
  some_updated q f (x ∷ xs) = ground (arith, some_updated q f xs)

  any_weaken :
      (q v : A → Bool) (xs : List A)
      → ((x : A) → q x ≡ true → v x ≡ true)
      → any q xs ≡ true
      → any v xs ≡ true
  any_weaken q v [] sub h = ground arith
  any_weaken q v (x ∷ xs) sub h = ground (arith, any_weaken q v xs sub, sub x, h)

  any-map_where :
      (v q : A → Bool) (f : A → A) (xs : List A)
      → ((x : A) → v (f x) ≡ v x)
      → any v (map_where q f xs) ≡ any v xs
  any-map_where v q f [] same = refl
  any-map_where v q f (x ∷ xs) same = ground (arith, any-map_where v q f xs same, same x)

  -- An update after which its own test fails on the rows that it changed finds no row again.
  none_again :
      (q : A → Bool) (f : A → A) (xs : List A)
      → ((x : A) → q (f x) ≡ false)
      → any q (map_where q f xs) ≡ false
  none_again q f [] off = refl
  none_again q f (x ∷ xs) off = ground (arith, none_again q f xs off, off x)

  map_where_none :
      (q : A → Bool) (f : A → A) (xs : List A) → any q xs ≡ false → map_where q f xs ≡ xs
  map_where_none q f [] h = refl
  map_where_none q f (x ∷ xs) h =
      let miss : q x ≡ false = ground (arith, h) in
      rw miss (ap (λ (ys : List A). x ∷ ys) (map_where_none q f xs (ground (arith, h))))

  filter-map_where :
      (u q i : A → Bool) (f : A → A) (xs : List A)
      → ((x : A) → q x ≡ (i x && u x))
      → ((x : A) → u (f x) ≡ false)
      → length (filter u (map_where q f xs)) ≡ length (filter (λ x. u x && not (i x)) xs)
  filter-map_where u q i f [] split off = refl
  filter-map_where u q i f (x ∷ xs) split off =
      ground (arith, filter-map_where u q i f xs split off, split x, off x)

module _ (p : Ports) (laws : TableLaws Fits p.table) (id user : ℕ) where
  abbrev is_marked : Notification → Bool
  is_marked n = n.id == id && is_unread user n

  abbrev visible : Notification → Bool
  visible n = n.id == id && in_inbox user n

  abbrev has_visible : World p → Bool
  has_visible w = any visible (p.table.rows w.db)

  marked_rows :
      (w : World p)
      → p.table.rows (mark_read p id user w).1.db
        ≡ map_where is_marked (set_read w.moment) (p.table.rows w.db)
  unfolding mark_read Repository.mark_read
  marked_rows w = laws.rows-update is_marked (set_read w.moment) w.db

  unread_lem :
      (w : World p)
      → (unread_count p user w).0 ≡ ok (length (filter (is_unread user) (p.table.rows w.db)))
  unfolding unread_count Repository.count_unread
  unread_lem w = rw (laws.select-rows (is_unread user) w.db) refl

  mark_read_answer : (w : World p) → (mark_read p id user w).0 ≡ ok (has_visible w)
  unfolding mark_read Repository.mark_read Repository.exists_for_user
  mark_read_answer w =
      let f = set_read w.moment in
      let rows = p.table.rows w.db in
      let reply = laws.update_reply is_marked f w.db in
      let updated = some_updated is_marked f rows in
      let db' = (p.table.update_where is_marked f w.db).1 in
      let select = laws.select-rows visible db' in
      let seen = some_found visible (p.table.rows db') in
      let after = laws.rows-update is_marked f w.db in
      let kept = any-map_where visible is_marked f rows (λ n. refl) in
      elim (Bool-cases (any is_marked rows)) [
        | inl some_marked ↦
            let there = any_weaken is_marked visible rows (λ n k. ground (arith, k)) some_marked in
            rw (reply, updated, some_marked, there) refl
        | inr none_marked ↦ rw (reply, updated, none_marked, select, seen, after, kept) refl
      ]

  -- `markRead` answers `true` exactly if the user's inbox has a row with the id; calling it again
  -- gives the same answer and changes no row; and the user's other unread rows are the unread ones
  -- that remain.
  pub mark_read_lem :
      (w : World p)
      → let (r, w') = mark_read p id user w in
        (r ≡ ok (has_visible w))
        × ((mark_read p id user w').0 ≡ r)
        × (p.table.rows (mark_read p id user w').1.db ≡ p.table.rows w'.db)
        × ((unread_count p user w').0
            ≡ ok (length (filter (λ n. is_unread user n && not (n.id == id)) (p.table.rows w.db))))
  mark_read_lem w =
      let w' = (mark_read p id user w).1 in
      let f = set_read w.moment in
      let rows = p.table.rows w.db in
      let after = marked_rows w in
      let kept : has_visible w' ≡ has_visible w =
        ap (any visible) after ∙ any-map_where visible is_marked f rows (λ n. refl) in
      let off : any is_marked (p.table.rows w'.db) ≡ false =
        ap (any is_marked) after ∙ none_again is_marked f rows (λ n. ground arith) in
      (
        mark_read_answer w,
        mark_read_answer w' ∙ ap (λ (c : Bool). ok c) kept ∙ sym (mark_read_answer w),
        marked_rows w' ∙ map_where_none is_marked (set_read w'.moment) (p.table.rows w'.db) off,
        unread_lem w'
            ∙ ap (λ (k : ℕ). ok k)
                (ap (λ (ns : List Notification). length (filter (is_unread user) ns)) after
                  ∙ filter-map_where (is_unread user) is_marked (λ n. n.id == id) f rows (λ n. refl)
                      (λ n. ground arith)),
      )
