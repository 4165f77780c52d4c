-- ===== src/Sockets/Interleaving.antt =====
-- `addSocket` and `removeSocket` of src/socket/socket-state.service.ts as they interleave: what each
-- does before its first `await` is one step, and the update of the row that it waits for is another.
-- What follows the update (Redis and its events) is left out here.
use learn_nestjs.Common.{
  ℕ, ◌≡◌, refl, Bool, true, false, not, Option, none, some, List, [], ◌∷◌, ◌++◌, if◌then◌else◌,
  arith,
}
use learn_nestjs.Common.Text.{Text, text_eq, is_empty}
use learn_nestjs.Database.{User, Table}
use learn_nestjs.Sockets.{
  Connections, is_online, connect, disconnect, left_after, get_user_id, became_empty,
}
use learn_nestjs.Sockets.Agreement.{IsConsistent, unconnected}

-- An update of a row that was issued and has not been done.
pub record Write : Type 0 where
  pub user_id : Text
  pub online : Bool
  pub issued_at : ℕ

abbrev pub presence_data : Write → User → User
presence_data w r =
    if w.online
    then record r { is_online = true; last_seen_at = none }
    else record r { is_online = false; last_seen_at = some w.issued_at }

pub same_key : (w : Write) (q : User) → (presence_data w q).id ≡ q.id
same_key w q = ground arith

pub written_flag : (w : Write) (q : User) → (presence_data w q).is_online ≡ w.online
written_flag w q = ground arith

-- What a user's flag comes to when the updates are done in order.
unfoldable pub flag_after : Text → List Write → Bool → Bool
flag_after u [] b = b
flag_after u (w ∷ ws) b = flag_after u ws (if text_eq w.user_id u then w.online else b)

pub flag_after-append :
    (u : Text) (ws : List Write) (w : Write) (b : Bool)
    → flag_after u (ws ++ w ∷ []) b ≡ (if text_eq w.user_id u then w.online else flag_after u ws b)
unfolding flag_after
flag_after-append u [] w b = refl
flag_after-append u (v ∷ ws) w b =
    flag_after-append u ws w (if text_eq v.user_id u then v.online else b)

module _ (table : Table (λ (u : User). u.id)) where
  pub record Running : Type 0 where
    pub connections : Connections
    pub users : table.State
    pub pending : List Write

  -- `update` of a row that is missing is an exception and changes nothing.
  unfoldable pub perform : Write → table.State → table.State
  perform w users = elim (table.find_unique w.user_id users) [
    | none ↦ users
    | some r ↦ table.update w.user_id (presence_data w) users
  ]

  abbrev pub issue : Bool → Write → List Write → List Write
  issue true w ws = ws ++ w ∷ []
  issue false w ws = ws

  -- `addSocket` up to its first `await`.
  unfoldable pub begin_add : Text → Text → ℕ → Running → Running
  unfolding connect is_online
  begin_add user_id socket_id now s = record s {
    connections = connect user_id socket_id s.connections;
    pending =
        issue (not (is_online user_id s.connections))
          (record { user_id = user_id; online = true; issued_at = now }) s.pending;
  }

  abbrev remove_of : Option Text → Text → ℕ → Running → Running
  remove_of none socket_id now s = s
  remove_of (some user_id) socket_id now s = if is_empty user_id then s else record s {
    connections = disconnect user_id socket_id s.connections;
    pending =
        issue (became_empty (left_after user_id socket_id s.connections))
          (record { user_id = user_id; online = false; issued_at = now }) s.pending;
  }

  -- `removeSocket` up to its first `await`.
  unfoldable pub begin_remove : Text → ℕ → Running → Running
  unfolding get_user_id disconnect left_after
  begin_remove socket_id now s = remove_of (get_user_id socket_id s.connections) socket_id now s

  -- One step of the program. The database does the updates in the order in which they were issued.
  pub data Step (s : Running) : Running → Type 0 where
    opened :
        (u j : Text) (now : ℕ) → get_user_id j s.connections ≡ none → Step s (begin_add u j now s)
    closed : (j : Text) (now : ℕ) → Step s (begin_remove j now s)
    written :
        (w : Write) (ws : List Write)
        → s.pending ≡ w ∷ ws
        → Step s (record s { users = perform w s.users; pending = ws })

  -- The runs from a start without connections, with no user marked online.
  pub data Reach : Running → Type 0 where
    start :
        (users : table.State)
        → ((u : Text) (r : User) → table.find_unique u users ≡ some r → r.is_online ≡ false)
        → Reach (record { connections = unconnected; users = users; pending = [] })
    later : {s t : Running} → Reach s → Step s t → Reach t

  -- The maps agree, and every flag comes to what the memory says.
  pub record IsSettling (s : Running) : Type 0 where
    pub consistent : IsConsistent s.connections
    pub settles :
        (u : Text) (r : User)
        → table.find_unique u s.users ≡ some r
        → flag_after u s.pending r.is_online ≡ is_online u s.connections
