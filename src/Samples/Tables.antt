-- ===== src/Samples/Tables.antt =====
-- A table as the list of its rows: the operations of `Store` and their laws.
use learn_nestjs.Samples.Stores.{find_sound_any}
use learn_nestjs.Samples.Stores.{find-any}
use learn_nestjs.Samples.Stores.{any-map}
use learn_nestjs.Common.{
  ℕ, ◌+◌, ◌≤◌, ◌≡◌, inl, inr, refl, sym, subst, ◌∙◌, Bool, true, not, ◌&&◌, ◌||◌, Option, none,
  some, List, [], ◌∷◌, map, if◌then◌else◌, arith, Bool-cases,
}
use learn_nestjs.Common.Text.{Text}
use learn_nestjs.Common.Lists.{length, any, filter, find, find_sound}
use learn_nestjs.Database.Store.{Store, any_mono, descending}
use learn_nestjs.Samples.Stores.{
  any-filter, filter_whole, any-sort, descending-sort, any-front, descending-front, length-front,
  any-behind, descending-behind, sort, taken, behind, after_cursor,
}

module _ {Row : Type 0} (clash : Row → Row → Bool) (clash_refl : (r : Row) → clash r r ≡ true) where
  abbrev all_rows : List Row → List Row
  all_rows s = filter (λ r. true) s

  unfoldable pub page :
      (Row → Bool) → (Row → ℕ) → Option ℕ → Option (Row → Bool) → List Row → List Row
  page p rank take cursor s = taken take (after_cursor cursor (sort rank (filter p s)))

  pub any-page :
      (p q : Row → Bool) (rank : Row → ℕ) (take : Option ℕ) (cursor : Option (Row → Bool))
      (s : List Row)
      → any q (page p rank take cursor s) ≡ true
      → any (λ r. p r && q r) (all_rows s) ≡ true
  unfolding page taken after_cursor
  any-page p q rank none none s h =
      rw (filter_whole s, ← any-filter p q s, ← any-sort rank q (filter p s)) h
  any-page p q rank (some n) none s h =
      rw (filter_whole s, ← any-filter p q s, ← any-sort rank q (filter p s))
        (any-front n q (sort rank (filter p s)) h)
  any-page p q rank none (some c) s h =
      rw (filter_whole s, ← any-filter p q s, ← any-sort rank q (filter p s))
        (any-behind c q (sort rank (filter p s)) h)
  any-page p q rank (some n) (some c) s h =
      rw (filter_whole s, ← any-filter p q s, ← any-sort rank q (filter p s))
        (any-behind c q (sort rank (filter p s))
          (any-front n q (behind c (sort rank (filter p s))) h))

  pub any-page_whole :
      (p q : Row → Bool) (rank : Row → ℕ) (s : List Row)
      → any q (page p rank none none s) ≡ any (λ r. p r && q r) (all_rows s)
  unfolding page taken after_cursor
  any-page_whole p q rank s =
      rw (filter_whole s, ← any-filter p q s, ← any-sort rank q (filter p s)) refl

  pub descending-page :
      (p : Row → Bool) (rank : Row → ℕ) (take : Option ℕ) (cursor : Option (Row → Bool))
      (s : List Row)
      → descending rank (page p rank take cursor s) ≡ true
  unfolding page taken after_cursor
  descending-page p rank none none s = descending-sort rank (filter p s)
  descending-page p rank (some n) none s =
      descending-front n rank _ (descending-sort rank (filter p s))
  descending-page p rank none (some c) s =
      descending-behind c rank _ (descending-sort rank (filter p s))
  descending-page p rank (some n) (some c) s =
      descending-front n rank _ (descending-behind c rank _ (descending-sort rank (filter p s)))

  pub length-page :
      (p : Row → Bool) (rank : Row → ℕ) (n : ℕ) (cursor : Option (Row → Bool)) (s : List Row)
      → length (page p rank (some n) cursor s) ≤ n
  unfolding page taken
  length-page p rank n cursor s = length-front n _

  -- An identifier that depends on the count of the rows.
  abbrev fresh_id : List Row → Text
  fresh_id s = (b'a' + length s) ∷ []

  unfoldable pub make_row : (Text → Row) → List Row → Option (Row × List Row)
  make_row make s =
      if any (clash (make (fresh_id s))) s
      then none
      else some (make (fresh_id s), make (fresh_id s) ∷ s)

  skip_or_add : Row → List Row → List Row
  skip_or_add r s = if any (clash r) s then s else r ∷ s

  unfoldable pub add_each : List Row → List Row → List Row
  unfolding skip_or_add
  add_each [] s = s
  add_each (r ∷ rs) s = add_each rs (skip_or_add r s)

  pub any-make_row :
      (make : Text → Row) (r : Row) (s t : List Row) (p : Row → Bool)
      → make_row make s ≡ some (r, t)
      → any p (all_rows t) ≡ (p r || any p (all_rows s))
  unfolding make_row any
  any-make_row make r s t p h = rw (filter_whole s, filter_whole t) (ground arith)

  pub make_row_made :
      (make : Text → Row) (r : Row) (s t : List Row)
      → make_row make s ≡ some (r, t)
      → (id : Text) × (r ≡ make id)
  unfolding make_row
  make_row_made make r s t h = (fresh_id s, ground arith)

  add_each_keeps :
      (rs s : List Row) (p : Row → Bool) → any p s ≡ true → any p (add_each rs s) ≡ true
  unfolding add_each any
  add_each_keeps [] s p h = h
  add_each_keeps (r ∷ rs) s p h = add_each_keeps rs (skip_or_add r s) p (ground arith)

  add_each_sound :
      (rs s : List Row) (p : Row → Bool)
      → any p (add_each rs s) ≡ true
      → (any p s || any p rs) ≡ true
  unfolding add_each any
  add_each_sound [] s p h = ground arith
  add_each_sound (r ∷ rs) s p h = ground (arith, add_each_sound rs (skip_or_add r s) p h)

  -- Of each row that is given, one with its unique columns is there.
  add_each_complete :
      (rs s : List Row) (p : Row → Bool)
      → any p rs ≡ true
      → any (λ x. any (λ r. p r && clash r x) rs) (add_each rs s) ≡ true
  unfolding add_each any
  add_each_complete [] s p e = absurd (ground arith)
  add_each_complete (r ∷ rs) s p e = elim (Bool-cases (p r)) [
    | inl given ↦
        any_mono (clash r) (λ x. any (λ r. p r && clash r x) (r ∷ rs)) (add_each (r ∷ rs) s)
          (λ x c. ground arith)
          (add_each_keeps rs (skip_or_add r s) (clash r) (ground (arith, clash_refl r)))
    | inr passed ↦
        any_mono (λ x. any (λ r. p r && clash r x) rs) (λ x. any (λ r. p r && clash r x) (r ∷ rs))
          (add_each (r ∷ rs) s) (λ x c. ground arith)
          (add_each_complete rs (skip_or_add r s) p (ground arith))
  ]

  pub found_row :
      (p : Row → Bool) (r : Row) (s : List Row)
      → find p s ≡ some r
      → (p r ≡ true) × ((q : Row → Bool) → q r ≡ true → any q (all_rows s) ≡ true)
  found_row p r s h = (find_sound p s r h, λ q e. rw (filter_whole s) (find_sound_any p q r s h e))

  some_rows : {s t : List Row} → some s ≡ some t → s ≡ t
  some_rows h = ground arith

  pub kept_rows :
      (rs s t : List Row) (p : Row → Bool)
      → some (add_each rs s) ≡ some t
      → any p (all_rows s) ≡ true
      → any p (all_rows t) ≡ true
  kept_rows rs s t p h e =
      rw (filter_whole t, ← some_rows h)
        (add_each_keeps rs s p (subst (λ x. any p x ≡ true) (filter_whole s) e))

  pub sound_rows :
      (rs s t : List Row) (p : Row → Bool)
      → some (add_each rs s) ≡ some t
      → any p (all_rows t) ≡ true
      → (any p (all_rows s) || any p rs) ≡ true
  sound_rows rs s t p h e =
      rw (filter_whole s)
        (add_each_sound rs s p (subst (λ x. any p x ≡ true) (filter_whole t ∙ sym (some_rows h)) e))

  pub complete_rows :
      (rs s t : List Row) (p : Row → Bool)
      → some (add_each rs s) ≡ some t
      → any p rs ≡ true
      → any (λ x. any (λ r. p r && clash r x) rs) (all_rows t) ≡ true
  complete_rows rs s t p h e =
      subst (λ x. any (λ x. any (λ r. p r && clash r x) rs) x ≡ true)
        (some_rows h ∙ sym (filter_whole t)) (add_each_complete rs s p e)

  pub updated_rows :
      (q : Row → Bool) (f : Row → Row) (s : List Row) (p : Row → Bool)
      → any p (all_rows (map (λ r. if q r then f r else r) s))
        ≡ any (λ r. p (if q r then f r else r)) (all_rows s)
  updated_rows q f s p =
      rw (filter_whole s, filter_whole (map (λ r. if q r then f r else r) s))
        (any-map p (λ r. if q r then f r else r) s)

  pub deleted_rows :
      (q : Row → Bool) (s : List Row) (p : Row → Bool)
      → any p (all_rows (filter (λ r. not (q r)) s)) ≡ any (λ r. not (q r) && p r) (all_rows s)
  deleted_rows q s p =
      rw (filter_whole s, filter_whole (filter (λ r. not (q r)) s))
        (any-filter (λ r. not (q r)) p s)

  abbrev pub list_store : Store clash
  list_store = record {
    State = List Row;
    find_many = filter;
    find_first = find;
    find_page = page;
    create = make_row;
    create_many = λ rs s. some (add_each rs s);
    update_many = λ q f s. map (λ r. if q r then f r else r) s;
    delete_many = λ q s. filter (λ r. not (q r)) s;
    any-find_many = λ p q s. rw (filter_whole s) (any-filter p q s);
    find_first_sound = found_row;
    is_some-find_first = λ p s. rw (filter_whole s) (find-any p s);
    any-find_page = any-page;
    any-find_page_whole = any-page_whole;
    descending-find_page = descending-page;
    length-find_page = length-page;
    any-create = any-make_row;
    create_made = make_row_made;
    create_many_keeps = kept_rows;
    create_many_sound = sound_rows;
    create_many_complete = complete_rows;
    any-update_many = updated_rows;
    any-delete_many = deleted_rows;
  }
