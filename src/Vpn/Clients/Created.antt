-- ===== src/Vpn/Clients/Created.antt =====
-- A channel that is created.
use linux.Common.{
  ℕ, suc, ◌<◌, ◌≡◌, refl, ap, sym, ◌∙◌, subst, Bool, true, Option, none, some, List, [], ◌∷◌, ◌>>=◌,
  length, Option-cases, inl, inr, ◌⊎◌,
}
use linux.Vpn.Message.{encode}
use linux.Vpn.Framing.{returned, client_recv}
use linux.Vpn.Framing.ClientReplies.{connected}
use linux.Vpn.Channels.{new_channel}
use linux.Vpn.Clients.{
  find, insert, change, ChannelInfo, ClientInfo, Server, max_id, key, create_channel_server, Event,
  happen_all, Addresses, strcpy, find_channel, send_create_channel_msg, new_server,
}
use linux.Vpn.Clients.Tables.{
  key_cases, find-AllEntries, find-insert, find-insert_kept, find-change, find-change_other,
}
use linux.Vpn.Clients.Request.{request, send_create-found, request_received}
use linux.Vpn.Clients.Keyed.{HasKeyed, next_id-free, happen_all-AllKeyed}

-- The channel that a client gets next, and its table with that channel.
abbrev next_info : ℕ → ClientInfo → Addresses → ChannelInfo
next_info client_id c addresses = record {
  client_id = client_id;
  channel_id = suc (max_id c.channel_map 0);
  addresses = addresses;
}

abbrev with_channel : ℕ → ClientInfo → Addresses → ClientInfo
with_channel client_id c addresses = record c {
  channel_map =
      insert c.channel_map (suc (max_id c.channel_map 0)) (next_info client_id c addresses);
}

abbrev created : Server → ℕ → ClientInfo → Addresses → Server
created s client_id c addresses = record s {
  client_map = change s.client_map client_id (with_channel client_id c addresses);
  channel_map = insert s.channel_map (key client_id (suc (max_id c.channel_map 0))) new_channel;
}

create-connected :
    (s : Server) (client_id : ℕ) (c : ClientInfo) (addresses : Addresses)
    → find s.client_map client_id ≡ some c
    → create_channel_server s client_id addresses true
      ≡ (created s client_id c addresses, some (next_info client_id c addresses))
unfolding create_channel_server
create-connected s client_id c addresses e = rw (e, create_channel_server) refl

find_channel-of :
    (s : Server) (k j : ℕ) (c : ClientInfo)
    → find s.client_map k ≡ some c
    → find_channel s k j ≡ find c.channel_map j
unfolding find_channel
find_channel-of s k j c e = rw (e, find_channel) refl

find_channel-none : (s : Server) (k j : ℕ) → find s.client_map k ≡ none → find_channel s k j ≡ none
unfolding find_channel
find_channel-none s k j e = rw (e, find_channel) refl

find_channel-same :
    (s s' : Server) (k j : ℕ)
    → find s'.client_map k ≡ find s.client_map k
    → find_channel s' k j ≡ find_channel s k j
unfolding find_channel
find_channel-same s s' k j e = ap (λ o. o >>= λ c. find c.channel_map j) e

-- A channel that is there stays.
created-kept :
    (s : Server) (client_id : ℕ) (c : ClientInfo) (addresses : Addresses) (k j : ℕ)
    → find s.client_map client_id ≡ some c
    → (find_channel s k j ≡ none)
      ⊎ (find_channel (created s client_id c addresses) k j ≡ find_channel s k j)
created-kept s client_id c addresses k j e =
    let s' = created s client_id c addresses in
    elim (Option-cases (find_channel s k j)) [
      | inl n ↦ inl n
      | inr (i, h) ↦ elim (key_cases client_id k) [
        | inl same ↦
            let there : find c.channel_map j ≡ some i =
              sym (find_channel-of s client_id j c e) ∙ ap (λ l. find_channel s l j) same ∙ h in
            inr (
              ap (λ l. find_channel s' l j) (sym same)
              ∙ find_channel-of s' client_id j (with_channel client_id c addresses)
                  (find-change s.client_map client_id (with_channel client_id c addresses) c e)
              ∙ find-insert_kept c.channel_map (suc (max_id c.channel_map 0))
                  (next_info client_id c addresses) j i there
              ∙ sym h)
        | inr other ↦ inr (
            find_channel-same s s' k j (
              find-change_other s.client_map client_id (with_channel client_id c addresses) k
                other))
      ]
    ]

-- What comes of the creation of a channel for the client `client_id`: it has an id that the client has
-- no channel with, and is found under it; the channels that were there are the same; the message that
-- is sent for it reaches the client, which answers whether it could connect to the address inside the
-- server and to the local one.
pub record Created (server local : List ℕ → List ℕ → Bool) (fuel : ℕ) (old old1 : List ℕ)
    (s : Server) (client_id : ℕ) (addresses : Addresses) (r : Server × Option ChannelInfo)
    : Type 0 where
  pub info : ChannelInfo
  pub returns : r.1 ≡ some info
  pub asked : info.addresses ≡ addresses
  pub is_new : find_channel s client_id info.channel_id ≡ none
  pub found : find_channel r.0 client_id info.channel_id ≡ some info
  pub kept : (k j : ℕ) → (find_channel s k j ≡ none) ⊎ (find_channel r.0 k j ≡ find_channel s k j)
  pub sent :
      send_create_channel_msg old old1 r.0 client_id info.channel_id
      ≡ some (encode (request old old1 addresses 0))
  pub received :
      client_recv server local fuel (encode (request old old1 addresses 0))
      ≡ returned (length (encode (request old old1 addresses 0))) [] (
          encode (
            request old old1 addresses (
              connected server local
                (strcpy old addresses.in_ip1)
                addresses.in_port
                (strcpy old1 addresses.local_ip)
                addresses.local_port))
          ∷ [])

-- At a server where any clients have come and gone and any channels were created, for a client that is
-- connected, addresses that can be listened to and names shorter than 32 bytes: `create_channel_server`
-- returns a channel with an id that the client has no other channel with, it is found under that id, and
-- the channels that were there are the same. What `send_create_channel_msg` then sends for it is one
-- message, which the client's `on_recv_data` takes whole, within two rounds, and answers by the same
-- message with the flag that tells whether it could connect to both of the addresses.
pub create-Created :
    (server local : List ℕ → List ℕ → Bool) (fuel : ℕ) (old old1 : List ℕ) (events : List Event)
    (client_id : ℕ) (c : ClientInfo) (addresses : Addresses)
    → find (happen_all new_server events).client_map client_id ≡ some c
    → length old ≡ 32
    → length old1 ≡ 32
    → length addresses.in_ip1 < 32
    → length addresses.local_ip < 32
    → 1 < fuel
    → let s = happen_all new_server events in
      Created server local fuel old old1 s client_id addresses
        (create_channel_server s client_id addresses true)
create-Created server local fuel old old1 events client_id c addresses e lo lo1 li ll f =
    let s = happen_all new_server events in
    let s' = created s client_id c addresses in
    let info = next_info client_id c addresses in
    let free = next_id-free c.channel_map (
      find-AllEntries HasKeyed s.client_map client_id c (happen_all-AllKeyed events new_server tt)
        e) in
    let there : find_channel s' client_id info.channel_id ≡ some info =
      find_channel-of s' client_id info.channel_id (with_channel client_id c addresses)
        (find-change s.client_map client_id (with_channel client_id c addresses) c e)
      ∙ find-insert c.channel_map info.channel_id info free in
    subst (λ r. Created server local fuel old old1 s client_id addresses r)
      (sym (create-connected s client_id c addresses e))
      (record {
        info = info;
        returns = refl;
        asked = refl;
        is_new = find_channel-of s client_id info.channel_id c e ∙ free;
        found = there;
        kept = λ k j. created-kept s client_id c addresses k j e;
        sent = send_create-found old old1 s' client_id info.channel_id info there;
        received = request_received server local fuel old old1 addresses lo lo1 li ll f;
      })
