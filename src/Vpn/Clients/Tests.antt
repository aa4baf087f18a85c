-- ===== src/Vpn/Clients/Tests.antt =====
-- A server with a client and its channels.
use linux.Common.{
  get_or, ◌==◌, arith, ℕ, ◌≡◌, refl, Bool, true, false, some, List, [], ◌∷◌, replicate,
}
use linux.Vpn.Clients.{
  find, insert, change, max_id, on_connected, create_channel_server, Event, connects, creates,
  happen, happen_all, Addresses, ClientInfo, new_server, delete_channels, delete_channel_server,
  on_disconnected, disconnects, erase, key,
}
use linux.Vpn.Clients.Created.{Created, create-Created}

abbrev some_addresses : Addresses
some_addresses = record {
  out_ip = 48 ∷ [];
  out_ip1 = 49 ∷ [];
  out_port = 8080;
  in_ip = 50 ∷ [];
  in_ip1 = 51 ∷ 52 ∷ [];
  in_port = 8081;
  local_ip = 53 ∷ [];
  local_port = 22;
}

-- One client has come and gone; the other one has a channel.
abbrev some_events : List Event
some_events =
    connects 5
    ∷ connects 6
    ∷ creates 6 some_addresses true
    ∷ creates 7 some_addresses true
    ∷ creates 6 some_addresses false
    ∷ disconnects 5
    ∷ []

abbrev one_channel : ClientInfo
one_channel = record {
  client_id = 6;
  channel_map = (1, record { client_id = 6; channel_id = 1; addresses = some_addresses }) ∷ [];
}

some_events-found : find (happen_all new_server some_events).client_map 6 ≡ some one_channel
unfolding find insert change max_id on_connected create_channel_server happen happen_all
    delete_channels on_disconnected erase
some_events-found = refl

-- A channel of a client that has gone is closed.
gone_client-closed :
    (happen_all new_server (connects 5 ∷ creates 5 some_addresses true ∷ disconnects 5 ∷ [])).closed
    ≡ key 5 1 ∷ []
unfolding find insert change max_id on_connected create_channel_server happen happen_all
    delete_channels delete_channel_server on_disconnected erase
gone_client-closed = refl

-- An address can be connected to where its port is 22.
abbrev ssh_only : List ℕ → List ℕ → Bool
ssh_only ip bytes = get_or bytes 0 0 == 22

abbrev stack_bytes : List ℕ
stack_bytes = replicate 32 255

create-Created_example :
    Created ssh_only ssh_only 2 stack_bytes stack_bytes
      (happen_all new_server some_events)
      6
      some_addresses
      (create_channel_server (happen_all new_server some_events) 6 some_addresses true)
create-Created_example =
    create-Created ssh_only ssh_only 2 stack_bytes stack_bytes some_events 6 one_channel
      some_addresses some_events-found refl refl (omega arith) (omega arith) (omega arith)
