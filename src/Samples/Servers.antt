-- ===== src/Samples/Servers.antt =====
-- Small servers: instances of the interfaces, at which theorems are applied.
use learn_nestjs.Common.{Bool-cases}
use learn_nestjs.Common.Text.{codes}
use learn_nestjs.Common.{
  ℕ, ◌+◌, ◌≡◌, ◌≢◌, inl, inr, refl, Bool, true, false, not, ◌&&◌, Option, none, some, is_some,
  or_option, List, [], ◌∷◌, ◌++◌, if◌then◌else◌, ◌==◌, arith, Option-cases,
}
use learn_nestjs.Common.Text.{Text, text_eq, text_eq_refl, text_eq_iff, starts_with}
use learn_nestjs.Common.Lists.{filter, contains}
use learn_nestjs.Redis.Driver.{Stored, number, count_of, glob_free, Client, Ttl}
use learn_nestjs.Database.{Table}
use learn_nestjs.Common.Maps.{
  Map, lookup, insert, remove, lookup-insert, lookup-remove, contains-keys,
}
use learn_nestjs.Redis.Implements.{prefix-of-pattern, contains-filter}
use learn_nestjs.Common.Maps

module _ {J : Type 0} where
  abbrev next_count : Text → Option ℕ → Map (Stored J) → Option ℕ × Map (Stored J)
  next_count k none s = (none, s)
  next_count k (some n) s = (some (n + 1), insert k (number (n + 1)) s)

  abbrev keys_of : Text → Map (Stored J) → List Text
  keys_of p s =
      (let prefix = filter (λ x. not (x == b'*')) p in
        filter (λ k. starts_with k prefix) (Maps.keys s))

  pub keys_of_exact :
      (p j : Text) (s : Map (Stored J))
      → glob_free p ≡ true
      → contains (keys_of (p ++ b'*' ∷ []) s) j ≡ (starts_with j p && is_some (lookup j s))
  keys_of_exact p j s h = ground (
    arith,
    prefix-of-pattern p h,
    contains-filter (λ k. starts_with k p) (Maps.keys s) j,
    contains-keys j s,
  )

  pub incr_counts :
      (k : Text) (n : ℕ) (s : Map (Stored J))
      → count_of (lookup k s) ≡ some n
      → (next_count k (count_of (lookup k s)) s).0 ≡ some (n + 1)
  incr_counts k n s h = ground arith

  pub get-incr :
      (k j : Text) (n : ℕ) (s : Map (Stored J))
      → count_of (lookup k s) ≡ some n
      → lookup j (next_count k (count_of (lookup k s)) s).1
        ≡ (if text_eq k j then some (number (n + 1)) else lookup j s)
  get-incr k j n s h = ground (arith, lookup-insert {V = Stored J} k j (number (n + 1)) s)

  -- A client whose server keeps keys in a list and knows no hashes, sets or subscribers.
  abbrev pub small_client : Client J
  small_client = record {
    State = Map (Stored J);
    get = lookup;
    set = insert;
    set_ex = λ k v n s. insert k v s;
    del = remove;
    exists = λ k s. is_some (lookup k s);
    expire = λ k n s. s;
    ttl = λ k s. Ttl.persistent;
    hset = λ k f v s. s;
    hget = λ k f s. none;
    hdel = λ k f s. s;
    hgetall = λ k s. [];
    sadd = λ k ms s. s;
    srem = λ k ms s. s;
    smembers = λ k s. [];
    sismember = λ k m s. false;
    publish = λ c m s. s;
    keys = keys_of;
    incr = λ k s. next_count k (count_of (lookup k s)) s;
    incrby = λ k n s. next_count k (count_of (lookup k s)) s;
    get-set = lookup-insert;
    get-set_ex = λ k j v n s h. lookup-insert k j v s;
    get-del = lookup-remove;
    exists-get = λ k s. refl;
    get-expire = λ k j n s h. refl;
    incr_counts = incr_counts;
    get-incr = get-incr;
    keys_exact = keys_of_exact;
  }

module _ {Row : Type 0} (key : Row → Text) where
  pub record Rows : Type 0 where
    pub ids : List Text
    pub at : Text → Option Row
    pub listed : (k : Text) (r : Row) → at k ≡ some r → contains ids k ≡ true
    pub keyed : (k : Text) (r : Row) → at k ≡ some r → key r ≡ k

  abbrev pass : (Row → Bool) → Option Row → Option Row
  pass p none = none
  pass p (some r) = if p r then some r else none

  unfoldable pub scan : (Row → Bool) → (Text → Option Row) → List Text → Option Row
  scan p at [] = none
  scan p at (k ∷ ks) = or_option (pass p (at k)) (scan p at ks)

  pub scan_sound :
      (p : Row → Bool) (at : Text → Option Row) (ks : List Text) (r : Row)
      → ((k : Text) (r : Row) → at k ≡ some r → key r ≡ k)
      → scan p at ks ≡ some r
      → (p r ≡ true) × (at (key r) ≡ some r)
  unfolding scan
  scan_sound p at [] r keyed h = cc
  scan_sound p at (k ∷ ks) r keyed h = ground (arith, scan_sound p at ks r keyed, keyed k r)

  pub scan_complete :
      (p : Row → Bool) (at : Text → Option Row) (ks : List Text) (k : Text) (r : Row)
      → contains ks k ≡ true
      → at k ≡ some r
      → p r ≡ true
      → scan p at ks ≢ none
  unfolding scan contains
  scan_complete p at [] k r h e q = cc
  scan_complete p at (j ∷ ks) k r h e q = ground (arith, scan_complete p at ks k r, text_eq_iff j k)

  -- An update may not change the primary key.
  abbrev change : (Row → Row) → Text → Option Row → Option Row
  change f k none = none
  change f k (some r) = if text_eq (key (f r)) k then some (f r) else some r

  abbrev updated : Text → (Row → Row) → (Text → Option Row) → Text → Option Row
  updated k f at j = if text_eq k j then change f k (at j) else at j

  pub updated_was :
      (k : Text) (f : Row → Row) (at : Text → Option Row) (j : Text) (r : Row)
      → updated k f at j ≡ some r
      → (old : Row) × (at j ≡ some old)
  updated_was k f at j r h = elim (Option-cases (at j)) [
    | inl e ↦ absurd (ground arith)
    | inr found ↦ found
  ]

  pub updated_keyed :
      (k : Text) (f : Row → Row) (at : Text → Option Row) (j : Text) (r : Row)
      → ((k : Text) (r : Row) → at k ≡ some r → key r ≡ k)
      → updated k f at j ≡ some r
      → key r ≡ j
  updated_keyed k f at j r keyed h =
      let (old, e) = updated_was k f at j r h in
      ground (arith, keyed j old e, text_eq_iff k j, text_eq_iff (key (f old)) k)

  unfoldable pub update_rows : Text → (Row → Row) → Rows → Rows
  update_rows k f s = record {
    ids = s.ids;
    at = λ j. updated k f s.at j;
    listed = λ j r h. let (old, e) = updated_was k f s.at j r h in s.listed j old e;
    keyed = λ j r h. updated_keyed k f s.at j r s.keyed h;
  }

  pub find_unique-update_rows :
      (k : Text) (f : Row → Row) (r : Row) (s : Rows)
      → s.at k ≡ some r
      → key (f r) ≡ key r
      → (update_rows k f s).at k ≡ some (f r)
  unfolding update_rows
  find_unique-update_rows k f r s h same =
      ground (arith, text_eq_refl k, s.keyed k r h, text_eq_iff (key (f r)) k)

  pub find_unique-update_rows_ne :
      (k j : Text) (f : Row → Row) (s : Rows)
      → text_eq k j ≡ false
      → (update_rows k f s).at j ≡ s.at j
  unfolding update_rows
  find_unique-update_rows_ne k j f s h = ground arith

  -- A row is made under a fixed identifier, once.
  abbrev new_id : Text
  new_id = codes "new"

  abbrev with_row : Row → (Text → Option Row) → Text → Option Row
  with_row r at k = if text_eq (key r) k then some r else at k

  pub with_row_listed :
      (r : Row) (s : Rows) (k : Text) (q : Row)
      → with_row r s.at k ≡ some q
      → contains (key r ∷ s.ids) k ≡ true
  unfolding contains
  with_row_listed r s k q h = ground (arith, s.listed k q)

  pub with_row_keyed :
      (r : Row) (s : Rows) (k : Text) (q : Row) → with_row r s.at k ≡ some q → key q ≡ k
  with_row_keyed r s k q h = ground (arith, s.keyed k q, text_eq_iff (key r) k)

  abbrev add_row : Row → Rows → Rows
  add_row r s = record {
    ids = key r ∷ s.ids;
    at = with_row r s.at;
    listed = with_row_listed r s;
    keyed = with_row_keyed r s;
  }

  unfoldable pub create_row : (Text → Row) → Rows → Option (Row × Rows)
  create_row make s =
      if is_some (s.at (key (make new_id)))
      then none
      else some (make new_id, add_row (make new_id) s)

  pub find_unique-create_row :
      (make : Text → Row) (r : Row) (s t : Rows) (j : Text)
      → create_row make s ≡ some (r, t)
      → t.at j ≡ (if text_eq (key r) j then some r else s.at j)
  unfolding create_row
  find_unique-create_row make r s t j h = elim (Bool-cases (is_some (s.at (key (make new_id))))) [
    | inl taken ↦ absurd (ground arith)
    | inr free ↦ ground arith
  ]

  pub find_unique-create_row_key :
      (make : Text → Row) (r : Row) (s t : Rows)
      → create_row make s ≡ some (r, t)
      → s.at (key r) ≡ none
  unfolding create_row
  find_unique-create_row_key make r s t h = elim (Option-cases (s.at (key (make new_id)))) [
    | inl free ↦ ground arith
    | inr (x, taken) ↦ absurd (ground arith)
  ]

  pub create_row_made :
      (make : Text → Row) (r : Row) (s t : Rows)
      → create_row make s ≡ some (r, t)
      → (id : Text) × (r ≡ make id)
  unfolding create_row
  create_row_made make r s t h = elim (Bool-cases (is_some (s.at (key (make new_id))))) [
    | inl taken ↦ absurd (ground arith)
    | inr free ↦ (new_id, ground arith)
  ]

  abbrev pub small_table : Table key
  small_table = record {
    State = Rows;
    find_unique = λ k s. s.at k;
    find_first = λ p s. scan p s.at s.ids;
    update = update_rows;
    create = create_row;
    find_unique_key = λ k r s h. s.keyed k r h;
    find_first_sound = λ p r s h. scan_sound p s.at s.ids r s.keyed h;
    find_first_complete = λ p k r s h q. scan_complete p s.at s.ids k r (s.listed k r h) h q;
    find_unique-update = find_unique-update_rows;
    find_unique-update_ne = find_unique-update_rows_ne;
    find_unique-create = find_unique-create_row;
    find_unique-create_key = find_unique-create_row_key;
    create_made = create_row_made;
  }
