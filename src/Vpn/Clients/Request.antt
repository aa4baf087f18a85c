-- ===== src/Vpn/Clients/Request.antt =====
-- The message about a channel on its way to the client.
use linux.Common.{
  ℕ, suc, ◌<◌, ◌≡◌, refl, ap, sym, ◌∙◌, Bool, some, List, [], ◌∷◌, length, drop, arith, append-nil,
  length-append, length-drop,
}
use linux.Vpn.Message.{Message, creace_tcp_channel, encode}
use linux.Vpn.Framing.{returned, client_recv}
use linux.Vpn.Framing.Whole.{stream, replies_to}
use linux.Vpn.Framing.ClientReplies.{client_replies, connected, client_recv-stream}
use linux.Vpn.Clients.{
  ChannelInfo, Server, Addresses, strcpy, find_channel, send_create_channel_msg,
  send_msg_tcp_channel,
}

length-strcpy : (old s : List ℕ) → length old ≡ 32 → length s < 32 → length (strcpy old s) ≡ 32
length-strcpy old s o l =
    omega (
      arith,
      o,
      l,
      length-append s (0 ∷ drop (suc (length s)) old),
      length-drop (suc (length s)) old,
    )

-- What the client gets to know of a channel, with the flag that it answers.
abbrev pub request : (old old1 : List ℕ) → Addresses → (flag : ℕ) → Message
request old old1 a flag =
    creace_tcp_channel (strcpy old a.in_ip1) a.in_port (strcpy old1 a.local_ip) a.local_port flag

pub send_create-found :
    (old old1 : List ℕ) (s : Server) (k j : ℕ) (i : ChannelInfo)
    → find_channel s k j ≡ some i
    → send_create_channel_msg old old1 s k j ≡ some (encode (request old old1 i.addresses 0))
unfolding send_create_channel_msg send_msg_tcp_channel
send_create-found old old1 s k j i e = rw (e, send_create_channel_msg) refl

pub request_received :
    (server local : List ℕ → List ℕ → Bool) (fuel : ℕ) (old old1 : List ℕ) (a : Addresses)
    → length old ≡ 32
    → length old1 ≡ 32
    → length a.in_ip1 < 32
    → length a.local_ip < 32
    → 1 < fuel
    → let m = request old old1 a 0 in
      client_recv server local fuel (encode m)
      ≡ returned (length (encode m)) [] (
          encode (
            request old old1 a (
              connected server local
                (strcpy old a.in_ip1)
                a.in_port
                (strcpy old1 a.local_ip)
                a.local_port))
          ∷ [])
request_received server local fuel old old1 a lo lo1 li ll f =
    let m = request old old1 a 0 in
    let e = append-nil (encode m) in
    ap (λ b. client_recv server local fuel b) (sym (append-nil (stream (m ∷ [])) ∙ e))
    ∙ client_recv-stream server local (m ∷ []) [] fuel
        ((length-strcpy old a.in_ip1 lo li, length-strcpy old1 a.local_ip lo1 ll), tt) (omega arith)
        f
    ∙ ap (λ b. returned (length b) [] (replies_to (client_replies server local) (m ∷ []))) e
