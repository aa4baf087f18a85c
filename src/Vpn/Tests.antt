-- ===== src/Vpn/Tests.antt =====
-- Runs of the handlers of the vpn.
use linux.Common.{arith, ℕ, ◌≡◌, refl, Bool, true, false, some, List, [], ◌∷◌, ◌++◌, length}
use linux.Vpn.Message.{Message, heartbeat, client_register, creace_tcp_channel}
use linux.Vpn.Framing.{running, returned, server_recv, client_recv}
use linux.Vpn.Framing.Whole.{stream, replies_to}
use linux.Vpn.Framing.Replies.{server_replies, server_recv-stream}
use linux.Vpn.Framing.ClientReplies.{client_replies, client_recv-stream, recv-part_of_message}
use linux.Vpn.Receive.{Recv, again, ready, open_socket, receive, receive_all, take_bytes, keep}
use linux.Vpn.Relay.{forward, relay}
use linux.Vpn.Channels.{date_socket_accept, join, accept_all, new_channel}
use linux.Vpn.Channels.Accepted.{outside, inside, Accepted, accepts-Accepted}
use linux.Vpn.Delivered.{Delivered, connection, relay-Delivered}

abbrev mac : List ℕ
mac = 1 ∷ 2 ∷ 3 ∷ 4 ∷ 5 ∷ 6 ∷ 7 ∷ 8 ∷ 9 ∷ 10 ∷ 11 ∷ 12 ∷ 13 ∷ 14 ∷ 15 ∷ 16 ∷ 17 ∷ 0 ∷ []

abbrev name : List ℕ
name = 99 ∷ 108 ∷ 105 ∷ 101 ∷ 110 ∷ 116 ∷ 0 ∷ 0 ∷ 0 ∷ 0 ∷ 0 ∷ 0 ∷ 0 ∷ 0 ∷ []

abbrev ip : List ℕ
ip = 49 ∷ 46 ∷ 49 ∷ 46 ∷ 49 ∷ 46 ∷ 49 ∷ (name ++ (0 ∷ 0 ∷ 0 ∷ 0 ∷ 0 ∷ 0 ∷ 0 ∷ 0 ∷ 0 ∷ 0 ∷ 0 ∷ []))

abbrev messages : List Message
messages = client_register 0 mac name ∷ heartbeat ∷ creace_tcp_channel ip 8080 ip 22 0 ∷ []

-- All addresses can be connected to, but for the second of a message.
abbrev reached : List ℕ → List ℕ → Bool
reached _ _ = true

abbrev refused : List ℕ → List ℕ → Bool
refused _ _ = false

-- The head of a message with a body of 76 bytes.
abbrev head_only : List ℕ
head_only = 76 ∷ 0 ∷ 116 ∷ 241 ∷ []

server_recv-stream_example :
    server_recv 5 4 (stream messages ++ (4 ∷ 0 ∷ []))
    ≡ returned (length (stream messages)) (4 ∷ 0 ∷ []) (replies_to (server_replies 5) messages)
server_recv-stream_example =
    server_recv-stream 5 messages (4 ∷ 0 ∷ []) 4 ((refl, refl), (tt, ((refl, refl), tt)))
      (omega arith) (omega arith)

client_recv-stream_example :
    client_recv reached refused 4 (stream messages ++ (4 ∷ 0 ∷ []))
    ≡ returned
        (length (stream messages))
        (4 ∷ 0 ∷ [])
        (replies_to (client_replies reached refused) messages)
client_recv-stream_example =
    client_recv-stream reached refused messages (4 ∷ 0 ∷ []) 4
      ((refl, refl), (tt, ((refl, refl), tt))) (omega arith) (omega arith)

recv-part_of_message_example :
    (server_recv 5 9 (stream messages ++ head_only) ≡ running)
    × (client_recv reached refused 9 (stream messages ++ head_only) ≡ running)
recv-part_of_message_example =
    recv-part_of_message reached refused 5 messages head_only 9
      ((refl, refl), (tt, ((refl, refl), tt))) (omega arith) (omega arith)

-- Three bytes come, of which `send` takes two; then two more, of which it takes three at most.
abbrev events : List Recv
events = ready 3 ∷ again ∷ ready 9 ∷ []

relay_runs :
    receive_all relay events
      (open_socket [])
      (1 ∷ 2 ∷ 3 ∷ 4 ∷ 5 ∷ [])
      (connection (some 2 ∷ some 3 ∷ some 9 ∷ []) [] false)
    ≡ some (open_socket [], [], connection (some 9 ∷ []) (1 ∷ 2 ∷ 3 ∷ 4 ∷ 5 ∷ []) false)
unfolding receive_all receive take_bytes relay forward keep
relay_runs = refl

relay-Delivered_example : Delivered [] (1 ∷ 2 ∷ 3 ∷ 4 ∷ 5 ∷ []) (
    receive_all relay events
      (open_socket [])
      (1 ∷ 2 ∷ 3 ∷ 4 ∷ 5 ∷ [])
      (connection (some 2 ∷ some 3 ∷ some 9 ∷ []) [] false))
relay-Delivered_example =
    relay-Delivered events (some 2 ∷ some 3 ∷ some 9 ∷ []) [] [] (1 ∷ 2 ∷ 3 ∷ 4 ∷ 5 ∷ []) false
      (omega arith, (omega arith, (omega arith, tt))) (omega arith)

-- Two sockets come from outside, then one from inside, then one more from outside.
abbrev four_accepts : List (Bool × ℕ)
four_accepts = (true, 11) ∷ (true, 12) ∷ (false, 21) ∷ (true, 13) ∷ []

four_accepts-joined : (accept_all new_channel four_accepts).sockets.watched ≡ 21 ∷ 11 ∷ []
unfolding accept_all date_socket_accept join
four_accepts-joined = refl

accepts-Accepted_example :
    Accepted (accept_all new_channel four_accepts) (outside four_accepts) (inside four_accepts)
accepts-Accepted_example = accepts-Accepted four_accepts (
  (λ e. omega (arith, e), (λ e. omega (arith, e), (λ e. omega (arith, e), tt))),
  ((λ e. omega (arith, e), (λ e. omega (arith, e), tt)), ((λ e. omega (arith, e), tt), (tt, tt))),
)
