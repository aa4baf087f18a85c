-- ===== src/Vpn/Clients.antt =====
-- vpn/server/business_server.cpp: the table of the clients and of their channels, with the table of
-- data_channel_server.cpp. A map is the list of its entries, in the order of their coming; whether the
-- addresses of a channel can be listened to is a parameter.
pub mod Tables
pub mod Keyed
pub mod Request
pub mod Created
mod Tests
use linux.Common.{
  ℕ, suc, ◌+◌, ◌*◌, ◌^◌, Bool, Option, none, some, List, [], ◌∷◌, ◌++◌, ◌==◌, ltb, if◌then◌else◌,
  length, drop, ◌>>=◌,
}
use linux.Vpn.Message.{creace_tcp_channel, encode}
use linux.Vpn.Channels.{ChannelServer, new_channel}

-- `find`, `insert` and `erase` of a map, and a change of the entry that a key has.
unfoldable pub find {ℓ} : {A : Type ℓ} → List (ℕ × A) → ℕ → Option A
find [] k = none
find (e ∷ es) k = if e.0 == k then some e.1 else find es k

unfoldable pub insert {ℓ} : {A : Type ℓ} → List (ℕ × A) → ℕ → A → List (ℕ × A)
insert [] k v = (k, v) ∷ []
insert (e ∷ es) k v = if e.0 == k then e ∷ es else e ∷ insert es k v

unfoldable pub erase {ℓ} : {A : Type ℓ} → List (ℕ × A) → ℕ → List (ℕ × A)
erase [] k = []
erase (e ∷ es) k = if e.0 == k then es else e ∷ erase es k

unfoldable pub change {ℓ} : {A : Type ℓ} → List (ℕ × A) → ℕ → A → List (ℕ × A)
change [] k v = []
change (e ∷ es) k v = if e.0 == k then (k, v) ∷ es else e ∷ change es k v

-- The addresses of `vpn_channel_info`, each a text without its NUL that its array has room for.
pub record Addresses : Type 0 where
  pub out_ip : List ℕ
  pub out_ip1 : List ℕ
  pub out_port : ℕ
  pub in_ip : List ℕ
  pub in_ip1 : List ℕ
  pub in_port : ℕ
  pub local_ip : List ℕ
  pub local_port : ℕ

-- `vpn_channel_info`
pub record ChannelInfo : Type 0 where
  pub client_id : ℕ
  pub channel_id : ℕ
  pub addresses : Addresses

-- `vpn_client_info`
pub record ClientInfo : Type 0 where
  pub client_id : ℕ
  pub channel_map : List (ℕ × ChannelInfo)

-- `m_clinet_map`, `m_channel_map` of the data channels, and the keys of the channels that
-- `delete_channel_server` has closed.
pub record Server : Type 0 where
  pub client_map : List (ℕ × ClientInfo)
  pub channel_map : List (ℕ × ChannelServer)
  pub closed : List ℕ

-- The key of `m_channel_map`.
abbrev pub key : (client_id channel_id : ℕ) → ℕ
key client_id channel_id = client_id * 2 ^ 32 + channel_id

-- `on_connected`, for a socket with the id `client_id`
unfoldable pub on_connected : Server → (client_id : ℕ) → Server
on_connected s client_id = record s {
  client_map = insert s.client_map client_id (record { client_id = client_id; channel_map = [] });
}

-- `delete_channel_server`
unfoldable pub delete_channel_server : Server → (client_id channel_id : ℕ) → Server
delete_channel_server s client_id channel_id =
    elim (find s.channel_map (key client_id channel_id)) [
      | none ↦ s
      | some c ↦ record s { closed = s.closed ++ (key client_id channel_id ∷ []) }
    ]

-- The loop of `on_disconnected`.
unfoldable pub delete_channels : Server → (client_id : ℕ) → List (ℕ × ChannelInfo) → Server
delete_channels s client_id [] = s
delete_channels s client_id (e ∷ es) =
    delete_channels (delete_channel_server s client_id e.1.channel_id) client_id es

-- `on_disconnected`
unfoldable pub on_disconnected : Server → (client_id : ℕ) → Server
on_disconnected s client_id = elim (find s.client_map client_id) [
  | none ↦ s
  | some c ↦
      let s' = delete_channels s c.client_id c.channel_map in
      record s' { client_map = erase s'.client_map client_id }
]

-- `create_channel_server` of the data channels, where the addresses can be listened to.
abbrev pub add_channel : Server → (client_id channel_id : ℕ) → Server
add_channel s client_id channel_id = record s {
  channel_map = insert s.channel_map (key client_id channel_id) new_channel;
}

-- The loop of `create_channel_server`, from the `max_channel_id` so far.
unfoldable pub max_id : List (ℕ × ChannelInfo) → (max_channel_id : ℕ) → ℕ
max_id [] max_channel_id = max_channel_id
max_id (e ∷ es) max_channel_id =
    max_id es (if ltb max_channel_id e.1.channel_id then e.1.channel_id else max_channel_id)

-- `create_channel_server` of the business server; that of the data channels succeeds where `listens`.
unfoldable pub create_channel_server :
    Server → (client_id : ℕ) → Addresses → (listens : Bool) → Server × Option ChannelInfo
create_channel_server s client_id addresses listens = elim (find s.client_map client_id) [
  | none ↦ (s, none)
  | some c ↦
      let id = suc (max_id c.channel_map 0) in
      let info : ChannelInfo = record {
        client_id = client_id;
        channel_id = id;
        addresses = addresses;
      } in
      let c' : ClientInfo = record c { channel_map = insert c.channel_map id info } in
      if listens
      then (
        record (add_channel s client_id id) { client_map = change s.client_map client_id c' },
        some info,
      )
      else (s, none)
]

-- `strcpy` into an array that holds `old`.
abbrev pub strcpy : (old s : List ℕ) → List ℕ
strcpy old s = s ++ (0 ∷ drop (suc (length s)) old)

-- `send_msg_tcp_channel`: the bytes sent, where the arrays of the message hold `old` and `old1` before.
unfoldable pub send_msg_tcp_channel :
    (old old1 : List ℕ)
    → (server_ip : List ℕ) → (server_port : ℕ) → (local_ip : List ℕ) → (local_port : ℕ) → List ℕ
send_msg_tcp_channel old old1 server_ip server_port local_ip local_port =
    encode
      (creace_tcp_channel (strcpy old server_ip) server_port (strcpy old1 local_ip) local_port 0)

-- The search of `send_create_channel_msg`.
unfoldable pub find_channel : Server → (client_id channel_id : ℕ) → Option ChannelInfo
find_channel s client_id channel_id = do
  c ← find s.client_map client_id
  find c.channel_map channel_id

-- `send_create_channel_msg`: what it sends to the client.
unfoldable pub send_create_channel_msg :
    (old old1 : List ℕ) → Server → (client_id channel_id : ℕ) → Option (List ℕ)
send_create_channel_msg old old1 s client_id channel_id = do
  i ← find_channel s client_id channel_id
  let a = i.addresses
  some (send_msg_tcp_channel old old1 a.in_ip1 a.in_port a.local_ip a.local_port)

-- What happens at the server: a client comes or goes, or a channel is asked for.
pub data Event : Type 0 where
  connects disconnects : (client_id : ℕ) → Event
  creates : (client_id : ℕ) → Addresses → (listens : Bool) → Event

unfoldable pub happen : Server → Event → Server
happen s (connects client_id) = on_connected s client_id
happen s (disconnects client_id) = on_disconnected s client_id
happen s (creates client_id addresses listens) =
    (create_channel_server s client_id addresses listens).0

unfoldable pub happen_all : Server → List Event → Server
happen_all s [] = s
happen_all s (e ∷ events) = happen_all (happen s e) events

abbrev pub new_server : Server
new_server = record { client_map = []; channel_map = []; closed = [] }
