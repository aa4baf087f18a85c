-- ===== src/Vpn/Message.antt =====
-- vpn/com_lib/protocol/vpv_protocol.h: the messages and their bytes, for a machine that stores the low
-- byte first. A field of characters is the list of all its bytes.
use linux.Common.{ℕ, ◌+◌, ◌-◌, ◌*◌, ◌/◌, ◌%◌, ◌^◌, ◌≡◌, List, [], ◌∷◌, ◌++◌, length, get_or}

-- `vpn_version`, `heartbeat`, `client_register` and `creace_tcp_channel`
abbrev pub vpn_version : ℕ
vpn_version = 0xf1

abbrev pub heartbeat_type : ℕ
heartbeat_type = b'h'

abbrev pub register_type : ℕ
register_type = b'r'

abbrev pub channel_type : ℕ
channel_type = b't'

-- `sizeof(vpn_head)`, `sizeof(vpn_client_register)` and `sizeof(vpn_creace_tcp_channel)`
abbrev pub head_size : ℕ
head_size = 4

abbrev pub register_size : ℕ
register_size = 40

abbrev pub channel_size : ℕ
channel_size = 80

-- The bytes of an `int`.
abbrev pub int_bytes : ℕ → List ℕ
int_bytes v = v % 256 ∷ v / 2 ^ 8 % 256 ∷ v / 2 ^ 16 % 256 ∷ v / 2 ^ 24 % 256 ∷ []

-- `vpn_heartbeat`, `vpn_client_register` and `vpn_creace_tcp_channel`
pub data Message : Type 0 where
  heartbeat : Message
  client_register : (client_id : ℕ) → (mac name : List ℕ) → Message
  creace_tcp_channel :
      (server_ip : List ℕ)
      → (server_port : ℕ) → (client_ip : List ℕ) → (client_port flag : ℕ) → Message

-- The bytes of `vpn_head`, with the low byte of `m_body_len` first.
abbrev pub head_bytes : (body_len type : ℕ) → List ℕ
head_bytes body_len type = body_len % 256 ∷ body_len / 256 ∷ type ∷ vpn_version ∷ []

-- The bytes of a channel message in front of `m_flag`.
abbrev pub channel_bytes : List ℕ → ℕ → List ℕ → ℕ → List ℕ
channel_bytes server_ip server_port client_ip client_port =
    head_bytes (channel_size - head_size) channel_type
    ++ (server_ip ++ (int_bytes server_port ++ (client_ip ++ int_bytes client_port)))

-- The bytes of a message, as its constructor and its fields leave them.
unfoldable pub encode : Message → List ℕ
encode heartbeat = head_bytes 0 heartbeat_type
encode (client_register client_id mac name) =
    head_bytes (register_size - head_size) register_type ++ (int_bytes client_id ++ (mac ++ name))
encode (creace_tcp_channel server_ip server_port client_ip client_port flag) =
    channel_bytes server_ip server_port client_ip client_port ++ int_bytes flag

-- The fields have the lengths of their arrays.
abbrev pub IsMessage : Message → Type 0
IsMessage heartbeat = Unit
IsMessage (client_register client_id mac name) = (length mac ≡ 18) × (length name ≡ 14)
IsMessage (creace_tcp_channel server_ip server_port client_ip client_port flag) =
    (length server_ip ≡ 32) × (length client_ip ≡ 32)

-- `m_body_len` and `m_type` of the head that stands at the start of some bytes.
abbrev pub body_len : List ℕ → ℕ
body_len buff = get_or buff 0 0 + get_or buff 1 0 * 256

abbrev pub type_of : List ℕ → ℕ
type_of buff = get_or buff 2 0
