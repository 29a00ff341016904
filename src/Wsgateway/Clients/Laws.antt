-- ===== src/Wsgateway/Clients/Laws.antt =====
-- The two maps of the client manager say the same.
use audio_rtc_exp.Prelude.{
  ◌≡◌, refl, inl, inr, String, [], ◌∷◌, none, some, arith, eq_iff, Map, lookup, insert, delete,
  lookup-insert, lookup-delete, lookup_empty, ◌==◌, nat_eq, string_eq, if◌then◌else◌, Bool, false,
  is_some, Bool-cases, Option-cases,
}
use audio_rtc_exp.Wsgateway.Clients.{
  WsConnManager, clients_of, add_client, drop_client, remove_client, delete_all, remove_room,
}

module _ {Conn : Type 0} where
  -- The room that a connection is found in.
  abbrev pub In : String → String → WsConnManager Conn → Bool
  In conn_id room_id m = is_some (lookup conn_id (clients_of room_id m.room2clients))

  -- A connection is in a room exactly if the room is its room.
  abbrev pub IsValid : WsConnManager Conn → Type 0
  IsValid m =
      (c r : String)
      → In c r m ≡ elim (lookup c m.client2room) [ none ↦ false | some room ↦ room == r ]

  clients_of-insert :
      (a r : String) (room : Map Conn) (rooms : Map (Map Conn))
      → clients_of r (insert a room rooms) ≡ (if a == r then room else clients_of r rooms)
  unfolding clients_of
  clients_of-insert a r room rooms = ground (arith, lookup-insert a r room rooms)

  clients_of-delete :
      (a r : String) (rooms : Map (Map Conn))
      → clients_of r (delete a rooms) ≡ (if a == r then [] else clients_of r rooms)
  unfolding clients_of
  clients_of-delete a r rooms = ground (arith, lookup-delete a r rooms)

  pub add_client-IsValid :
      (c r : String) (peer : Conn) (m : WsConnManager Conn)
      → lookup c m.client2room ≡ none
      → IsValid m
      → IsValid (add_client c r peer m)
  unfolding add_client
  add_client-IsValid c r peer m n v k room = ground (
    arith,
    clients_of-insert r room (insert c peer (clients_of r m.room2clients)) m.room2clients,
    lookup-insert c k peer (clients_of r m.room2clients),
    lookup-insert c k r m.client2room,
    v k room,
    v k r,
    v c room,
    n,
    eq_iff c k,
    eq_iff r room,
  )

  lookup-drop_client :
      (c a k r : String) (rooms : Map (Map Conn))
      → lookup k (clients_of r (drop_client c a rooms)) ≡ (
          if a == r
          then (if c == k then none else lookup k (clients_of r rooms))
          else lookup k (clients_of r rooms))
  unfolding drop_client clients_of lookup
  lookup-drop_client c a k r rooms = elim (Option-cases (lookup a rooms)) [
    | inl e ↦ rw (drop_client, e) (ground (arith, e, eq_iff a r))
    | inr (room, e) ↦
        rw (drop_client, e)
          (ground (
            arith,
            e,
            eq_iff a r,
            lookup-delete c k room,
            lookup_empty k (delete c room),
            clients_of-delete a r rooms,
            clients_of-insert a r (delete c room) rooms,
          ))
  ]

  pub remove_client-IsValid :
      (c : String) (m : WsConnManager Conn) → IsValid m → IsValid (remove_client c m)
  unfolding remove_client
  remove_client-IsValid c m v k room = elim (Option-cases (lookup c m.client2room)) [
    | inl e ↦ rw (remove_client, e) (v k room)
    | inr (r, e) ↦
        rw (remove_client, e)
          (ground (
            arith,
            lookup-drop_client c r k room m.room2clients,
            lookup-delete c k m.client2room,
            v k room,
            e,
            eq_iff c k,
            eq_iff r room,
          ))
  ]

  lookup-delete_all :
      (k : String) (room : Map Conn) (rooms : Map String)
      → lookup k (delete_all room rooms)
        ≡ (if is_some (lookup k room) then none else lookup k rooms)
  unfolding delete_all lookup
  lookup-delete_all k [] rooms = refl
  lookup-delete_all k ((c, p) ∷ room) rooms =
      ground (arith, lookup-delete_all k room (delete c rooms), lookup-delete c k rooms)

  lookup-cleared :
      (k a r : String) (rooms : Map (Map Conn))
      → lookup k (clients_of r (delete a rooms))
        ≡ (if a == r then none else lookup k (clients_of r rooms))
  unfolding lookup
  lookup-cleared k a r rooms = elim (Bool-cases (a == r)) [
    | inl t ↦ rw (clients_of-delete a r rooms, t) refl
    | inr t ↦ rw (clients_of-delete a r rooms, t) refl
  ]

  clients_of-some :
      (r : String) (rooms : Map (Map Conn)) (room : Map Conn)
      → lookup r rooms ≡ some room
      → clients_of r rooms ≡ room
  unfolding clients_of
  clients_of-some r rooms room e = rw (clients_of, e) refl

  pub remove_room-IsValid :
      (r : String) (m : WsConnManager Conn) → IsValid m → IsValid (remove_room r m)
  unfolding remove_room
  remove_room-IsValid r m v k room = elim (Option-cases (lookup r m.room2clients)) [
    | inl e ↦ rw (remove_room, e) (v k room)
    | inr (clients, e) ↦
        let own = rw (clients_of-some r m.room2clients clients e) at (v k r) in
        rw (remove_room, e)
          (elim (Option-cases (lookup k m.client2room)) [
            | inl n ↦ ground (
              arith,
              lookup-cleared k r room m.room2clients,
              lookup-delete_all k clients m.client2room,
              v k room,
              own,
              n,
            )
            | inr (x, n) ↦ ground (
              arith,
              lookup-cleared k r room m.room2clients,
              lookup-delete_all k clients m.client2room,
              v k room,
              own,
              n,
              eq_iff x r,
              eq_iff x room,
              eq_iff r room,
            )
          ])
  ]

-- What changes the maps. A connection is added once, with a new id.
pub data Operation (Conn : Type 0) : Type 0 where
  adds : String → String → Conn → Operation Conn
  removes : String → Operation Conn
  removes_room : String → Operation Conn

module _ {Conn : Type 0} where
  abbrev pub Fresh : Operation Conn → WsConnManager Conn → Type 0
  Fresh (adds c r p) m = lookup c m.client2room ≡ none
  Fresh _ m = Unit {0}

  unfoldable pub apply : Operation Conn → WsConnManager Conn → WsConnManager Conn
  unfolding add_client remove_client remove_room
  apply (adds c r p) m = add_client c r p m
  apply (removes c) m = remove_client c m
  apply (removes_room r) m = remove_room r m

  -- Adding a new connection, removing one, and removing a room keep the two maps in step: a room's
  -- clients are exactly the connections whose room it is.
  pub apply-IsValid :
      (o : Operation Conn) (m : WsConnManager Conn) → Fresh o m → IsValid m → IsValid (apply o m)
  unfolding apply
  apply-IsValid (adds c r p) m n v = add_client-IsValid c r p m n v
  apply-IsValid (removes c) m n v = remove_client-IsValid c m v
  apply-IsValid (removes_room r) m n v = remove_room-IsValid r m v
