-- ===== src/Wsgateway/Clients.antt =====
-- client_manager.go: the connections of each room, and the room of each connection.
pub mod Laws
use audio_rtc_exp.Prelude.{
  ℕ, String, List, [], ◌∷◌, Option, none, some, Map, lookup, insert, delete, length, ◌==◌, nat_eq,
  if◌then◌else◌, is_some,
}

module _ (Conn : Type 0) where
  pub record WsConnManager : Type 0 where
    pub room2clients : Map (Map Conn)
    pub client2room : Map String

module _ {Conn : Type 0} where
  -- The map of a room, a new one if there is none.
  unfoldable pub clients_of : String → Map (Map Conn) → Map Conn
  clients_of room_id rooms = elim (lookup room_id rooms) [ none ↦ [] | some room ↦ room ]

  unfoldable pub add_client : String → String → Conn → WsConnManager Conn → WsConnManager Conn
  unfolding clients_of
  add_client conn_id room_id peer m = record {
    client2room = insert conn_id room_id m.client2room;
    room2clients =
        insert room_id (insert conn_id peer (clients_of room_id m.room2clients)) m.room2clients;
  }

  -- A room without clients is dropped.
  unfoldable pub drop_client : String → String → Map (Map Conn) → Map (Map Conn)
  drop_client conn_id room_id rooms = elim (lookup room_id rooms) [
    | none ↦ rooms
    | some room ↦
        if length (delete conn_id room) == 0
        then delete room_id rooms
        else insert room_id (delete conn_id room) rooms
  ]

  unfoldable pub remove_client : String → WsConnManager Conn → WsConnManager Conn
  unfolding drop_client
  remove_client conn_id m = elim (lookup conn_id m.client2room) [
    | none ↦ m
    | some room_id ↦ record {
      room2clients = drop_client conn_id room_id m.room2clients;
      client2room = delete conn_id m.client2room;
    }
  ]

  unfoldable pub delete_all : Map Conn → Map String → Map String
  delete_all [] rooms = rooms
  delete_all ((conn_id, peer) ∷ room) rooms = delete_all room (delete conn_id rooms)

  unfoldable pub remove_room : String → WsConnManager Conn → WsConnManager Conn
  unfolding delete_all
  remove_room room_id m = elim (lookup room_id m.room2clients) [
    | none ↦ m
    | some room ↦ record {
      room2clients = delete room_id m.room2clients;
      client2room = delete_all room m.client2room;
    }
  ]

  unfoldable pub conns : Map Conn → List Conn
  conns [] = []
  conns ((conn_id, peer) ∷ room) = peer ∷ conns room

  -- nil for a room without clients
  unfoldable pub get_room_conns : String → WsConnManager Conn → Option (List Conn)
  unfolding conns
  get_room_conns room_id m = elim (lookup room_id m.room2clients) [
    | none ↦ none
    | some clients ↦ some (conns clients)
  ]

  -- The connections that a room's status is sent to; errors of a send are logged.
  unfoldable pub notify_room_local_peer : String → WsConnManager Conn → List Conn
  unfolding get_room_conns
  notify_room_local_peer room_id m = elim (get_room_conns room_id m) [
    | none ↦ []
    | some peers ↦ peers
  ]
