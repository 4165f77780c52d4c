-- ===== src/Users/Visibility.antt =====
-- Whose presence is shown to whom.
use learn_nestjs.Common.{
  ℕ, ◌≤◌, ◌≡◌, inl, inr, refl, sym, subst, ◌∙◌, Bool, true, ◌&&◌, ◌||◌, Option, none, some, List,
  [], ◌∷◌, map, arith, Bool-cases,
}
use learn_nestjs.Common.Text.{Text, text_eq, text_eq_refl}
use learn_nestjs.Common.Results.{is_ok}
use learn_nestjs.Database.{User}
use learn_nestjs.Common.Lists.{length, any, every, filter, contains}
use learn_nestjs.Database.Store.{has, any_mono, every-find_page}
use learn_nestjs.Users.{
  Friendship, Parsed, not_finite, not_positive, positive, Presence, UserServices, UserState,
  is_accepted, is_admin_role, parse_limit, map_presence, befriends, friend_of,
}
use learn_nestjs.Users.Service.{
  get_accepted_friend_ids, is_listed_friend, friends_presence, list_friends_presence,
  is_listed_active, list_active_users, can_view_presence, get_presence_by_user_id,
}

every-map :
    {A B : Type 0} (p : B → Bool) (f : A → B) (xs : List A)
    → every p (map f xs) ≡ every (λ x. p (f x)) xs
unfolding every
every-map p f [] = refl
every-map p f (x ∷ xs) = ground (arith, every-map p f xs)

-- A test that holds of what another holds of.
every_mono :
    {A : Type 0} (p q : A → Bool) (xs : List A)
    → ((x : A) → p x ≡ true → q x ≡ true)
    → every p xs ≡ true
    → every q xs ≡ true
unfolding every
every_mono p q [] h e = refl
every_mono p q (x ∷ xs) h e = ground (arith, h x, every_mono p q xs h)

every_and :
    {A : Type 0} (p q : A → Bool) (xs : List A)
    → every p xs ≡ true
    → every q xs ≡ true
    → every (λ x. p x && q x) xs ≡ true
unfolding every
every_and p q [] h e = refl
every_and p q (x ∷ xs) h e = ground (arith, every_and p q xs)

-- Each user of a list is in it.
every_self :
    (xs ys : List User)
    → ((u : User) → any (λ v. text_eq v.id u.id) xs ≡ true → any (λ v. text_eq v.id u.id) ys ≡ true)
    → every (λ u. any (λ v. text_eq v.id u.id) ys) xs ≡ true
unfolding every any
every_self [] ys h = refl
every_self (x ∷ xs) ys h = ground (
  arith,
  h x (ground (arith, text_eq_refl x.id)),
  every_self xs ys (λ u e. h u (ground (arith, e))),
)

every-filter :
    {A : Type 0} (p q : A → Bool) (xs : List A)
    → every p xs ≡ true
    → every (λ x. p x && q x) (filter q xs) ≡ true
unfolding every filter
every-filter p q [] h = refl
every-filter p q (x ∷ xs) h = ground (arith, every-filter p q xs)

length-map : {A B : Type 0} (f : A → B) (xs : List A) → length (map f xs) ≡ length xs
length-map f [] = refl
length-map f (x ∷ xs) = omega (arith, length-map f xs)

length-filter : {A : Type 0} (p : A → Bool) (xs : List A) → length (filter p xs) ≤ length xs
unfolding filter
length-filter p [] = omega arith
length-filter p (x ∷ xs) = ground (arith, length-filter p xs)

parse_limit_le : (limit : Parsed) → parse_limit limit ≤ 200
unfolding parse_limit
parse_limit_le not_finite = omega arith
parse_limit_le not_positive = omega arith
parse_limit_le (positive n) = ground arith

contains-map :
    {A : Type 0} (f : A → Text) (xs : List A) (id : Text)
    → contains (map f xs) id ≡ any (λ x. text_eq (f x) id) xs
unfolding contains any
contains-map f [] id = refl
contains-map f (x ∷ xs) id = ground (arith, contains-map f xs id)

module _ (S : UserServices) where
  -- Who is listed as a friend may be viewed.
  friend-can_view :
      (requester_id target_id : Text) (role : Option Text) (w : UserState S)
      → contains (get_accepted_friend_ids S requester_id w) target_id ≡ true
      → can_view_presence S requester_id target_id role w ≡ true
  unfolding get_accepted_friend_ids can_view_presence
  friend-can_view requester_id target_id role w h =
      let named : Friendship → Bool = λ f.
        is_accepted f.status
        && (text_eq f.requester_id requester_id || text_eq f.addressee_id requester_id) in
      let listed : has S.friendships (λ f. named f && text_eq (friend_of requester_id f) target_id)
            w.friendships
          ≡ true =
        sym (
          S.friendships.any-find_many named (λ f. text_eq (friend_of requester_id f) target_id)
            w.friendships)
        ∙ sym (
            contains-map (friend_of requester_id) (S.friendships.find_many named w.friendships)
              target_id)
        ∙ h in
      let befriended : has S.friendships (befriends requester_id target_id) w.friendships ≡ true =
        any_mono (λ f. named f && text_eq (friend_of requester_id f) target_id)
          (befriends requester_id target_id) (S.friendships.find_many (λ f. true) w.friendships)
          (λ f e. ground arith) listed in
      ground (
        arith,
        S.friendships.is_some-find_first (befriends requester_id target_id) w.friendships,
        befriended,
      )

  -- `getPresenceByUserId` answers the requester who asks for this user.
  abbrev pub is_answered : Text → Option Text → UserState S → Text → Bool
  is_answered requester_id role w user_id =
      is_ok (get_presence_by_user_id S user_id requester_id role w).0

  is_there : UserState S → User → Bool
  is_there w u = has S.users (λ v. text_eq v.id u.id) w.users

  views-is_answered :
      (requester_id : Text) (role : Option Text) (w : UserState S) (u : User)
      → can_view_presence S requester_id u.id role w ≡ true
      → is_there w u ≡ true
      → is_answered requester_id role w u.id ≡ true
  unfolding get_presence_by_user_id is_there
  views-is_answered requester_id role w u views there =
      ground (arith, S.users.is_some-find_first (λ v. text_eq v.id u.id) w.users)

  -- The rows of a page pass its test and are rows of the table.
  every-page :
      (listed : User → Bool) (limit : Option ℕ) (w : UserState S)
      → every
          (λ u. listed u && is_there w u)
          (S.users.find_page listed S.name_rank limit none w.users)
        ≡ true
  unfolding is_there
  every-page listed limit w =
      let page = S.users.find_page listed S.name_rank limit none w.users in
      every_and listed (λ u. has S.users (λ v. text_eq v.id u.id) w.users) page
        (every-find_page S.users listed S.name_rank limit none w.users)
        (every_mono (λ u. any (λ v. text_eq v.id u.id) page)
          (λ u. has S.users (λ v. text_eq v.id u.id) w.users) page
          (λ u e.
            any_mono (λ v. listed v && text_eq v.id u.id) (λ v. text_eq v.id u.id)
              (S.users.find_many (λ r. true) w.users) (λ v both. ground arith)
              (S.users.any-find_page listed (λ v. text_eq v.id u.id) S.name_rank limit none w.users
                e))
          (every_self page page (λ u e. e)))

  -- Friends are shown to each other, at most 200 of them.
  abbrev Shown : Text → Option Text → UserState S → List Presence → Type 0
  Shown requester_id role w shown =
      (every (λ p. is_answered requester_id role w p.user_id) shown ≡ true) × (length shown ≤ 200)

  friends_presence-Shown :
      (requester_id : Text) (role search : Option Text) (limit : Parsed) (w : UserState S)
      (ids : List Text)
      → ((id : Text) → contains ids id ≡ true → can_view_presence S requester_id id role w ≡ true)
      → Shown requester_id role w (friends_presence S ids search limit w)
  unfolding friends_presence map_presence every
  friends_presence-Shown requester_id role search limit w [] friends = (refl, omega arith)
  friends_presence-Shown requester_id role search limit w (id ∷ ids) friends =
      let listed = is_listed_friend S (id ∷ ids) search in
      let page = S.users.find_page listed S.name_rank (some (parse_limit limit)) none w.users in
      (
        every-map (λ p. is_answered requester_id role w p.user_id) (map_presence w.now w.sockets)
              page
            ∙ every_mono (λ u. listed u && is_there w u) (λ u. is_answered requester_id role w u.id)
                page
                (λ u e.
                  views-is_answered requester_id role w u (friends u.id (ground arith))
                    (ground arith))
                (every-page listed (some (parse_limit limit)) w),
        omega (
          arith,
          length-map (map_presence w.now w.sockets) page,
          parse_limit_le limit,
          S.users.length-find_page listed S.name_rank (parse_limit limit) none w.users,
        ),
      )

  -- Those who are shown may be viewed and are online, and there are at most 200.
  abbrev ShownOnline : Text → Option Text → UserState S → List Presence → Type 0
  ShownOnline requester_id role w shown =
      (every (λ p. is_answered requester_id role w p.user_id && p.is_online) shown ≡ true)
      × (length shown ≤ 200)

  admin_views :
      (requester_id target_id : Text) (role : Option Text) (w : UserState S)
      → is_admin_role role ≡ true
      → can_view_presence S requester_id target_id role w ≡ true
  unfolding can_view_presence
  admin_views requester_id target_id role w admin = ground arith

  -- Whomever `listActiveUsers` shows to a requester is online, and `getPresenceByUserId` with the
  -- same requester and role answers for that user and throws no error; and at most 200 users are
  -- shown, whatever the limit asked for.
  pub list_active_users_sound :
      (requester_id : Text) (role tenant_id search : Option Text) (limit : Parsed) (w : UserState S)
      → (every
            (λ p. is_answered requester_id role w p.user_id && p.is_online)
            (list_active_users S requester_id role tenant_id search limit w)
          ≡ true)
        × (length (list_active_users S requester_id role tenant_id search limit w) ≤ 200)
  unfolding list_active_users list_friends_presence map_presence
  list_active_users_sound requester_id role tenant_id search limit w =
      let show = map_presence w.now w.sockets in
      let listed = is_listed_active S role tenant_id search in
      let page = S.users.find_page listed S.name_rank (some (parse_limit limit)) none w.users in
      elim (Bool-cases (is_admin_role role)) [
        | inl admin ↦
            let shows : list_active_users S requester_id role tenant_id search limit w
                ≡ map show page =
              ground arith in
            subst (ShownOnline requester_id role w) (sym shows) (
              every-map (λ p. is_answered requester_id role w p.user_id && p.is_online) show page
                  ∙ every_mono (λ u. listed u && is_there w u)
                      (λ u. is_answered requester_id role w u.id && (show u).is_online) page
                      (λ u e. ground (
                        arith,
                        views-is_answered requester_id role w u
                            (admin_views requester_id u.id role w admin),
                      ))
                      (every-page listed (some (parse_limit limit)) w),
              omega (
                arith,
                length-map show page,
                parse_limit_le limit,
                S.users.length-find_page listed S.name_rank (parse_limit limit) none w.users,
              ),
            )
        | inr common ↦
            let friends = list_friends_presence S requester_id search limit w in
            let shows : list_active_users S requester_id role tenant_id search limit w
                ≡ filter (λ p. p.is_online) friends =
              ground arith in
            let (viewed, few) =
              friends_presence-Shown requester_id role search limit w
                (get_accepted_friend_ids S requester_id w)
                (λ id. friend-can_view requester_id id role w) in
            subst (ShownOnline requester_id role w) (sym shows) (
              every-filter (λ p. is_answered requester_id role w p.user_id) (λ p. p.is_online)
                  friends viewed,
              omega (arith, few, length-filter (λ p. p.is_online) friends),
            )
      ]
